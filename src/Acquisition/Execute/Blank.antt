-- ===== src/Acquisition/Execute/Blank.antt =====
-- A blank reference, from `ScheduleAcquisitionJobHandler` to `ExecuteAcquisitionJobHandler` of
-- contexts/data_acquisition/application/handlers.py.
use novaapi.Common.{
  ℕ, ◌≡◌, ◌≢◌, refl, String, true, false, some, List, arith, nat_eq, ◌⊎◌, inl, inr, Bool-cases,
}
use novaapi.Common.Table.{find, find-put_self}
use novaapi.Common.Text.{is_blank}
use novaapi.Errors.{Error, Result, Result-cases, ok, err}
use novaapi.Session.{in_session}
use novaapi.Acquisition.Types.{scheduled, running, failed}
use novaapi.Acquisition.Catalog.{DatasetSource}
use novaapi.Acquisition.Job.{AcquisitionJob, Request, refused, scheduled_job}
use novaapi.Acquisition.Database.{Db, job_key, source_key}
use novaapi.Acquisition.Import.{Env, Progress, goes, fails, raises, Imported, import_content}
use novaapi.Acquisition.Import.Names.{import_content-not_blank}
use novaapi.Acquisition.Handlers.{Clock, visible, schedule_acquisition_job}
use novaapi.Acquisition.Execute.{execute_acquisition_job}
use novaapi.Acquisition.Execute.Outcome.{started, Ended, execute_acquisition_job-Ended}
use novaapi.Acquisition.Execute.Stays.{Command, Spares, handle_all, handle_all-job_stays}

-- The request under another reference.
abbrev pub refer_to : String → Request → Request
refer_to name r = record r { source_reference = name }

module _ {V : Type 0} where
  -- What a run that does not complete its job answers, and the job as it leaves it: the failed job, or
  -- an exception, with the job still running.
  abbrev pub Unfinished : Result (AcquisitionJob V) → AcquisitionJob V → Type 0
  Unfinished r j =
      ((r ≡ ok j) × (j.status ≡ failed)) ⊎ ((e : Error) × (r ≡ err e) × (j.status ≡ running))

  Unfinished-ne :
      (r : Result (AcquisitionJob V)) (j : AcquisitionJob V) → Unfinished r j → j.status ≢ scheduled
  Unfinished-ne r j (inl (a, s)) e = cc
  Unfinished-ne r j (inr (x, a, s)) e = cc

  Ended-Unfinished :
      (p : Progress (Imported V)) (new_id t : ℕ) (j : AcquisitionJob V) (db : Db V)
      (o : Result (AcquisitionJob V) × Db V)
      → j.status ≡ running
      → ((i : Imported V) → p ≡ goes i → false ≡ true)
      → Ended p new_id t j db o
      → (j' : AcquisitionJob V) × Unfinished o.0 j' × (find job_key j.id o.1.jobs ≡ some j')
  Ended-Unfinished (goes i) new_id t j db o r never h = cc (never i refl)
  Ended-Unfinished (fails text) new_id t j db o r never (j', a, b, c, d, g) = (j', inl (a, c), b)
  Ended-Unfinished (raises x) new_id t j db o r never (a, b, c) = (j, inr (x, a, r), b)

  module _ (k : ℕ) (clock : Clock) (db : Db V) where
    abbrev pub scheduling_of : Request → Result (AcquisitionJob V) × Db V
    scheduling_of r = in_session (schedule_acquisition_job k r clock) db

    schedule-accepts :
        (r : Request) (s : DatasetSource)
        → visible r.tenant_id (find source_key r.dataset_source_id db.sources) ≡ ok s
        → refused r ≡ false
        → ((scheduling_of r).0 ≡ ok (scheduled_job k clock r))
          × (find job_key k (scheduling_of r).1.jobs ≡ some (scheduled_job k clock r))
    unfolding schedule_acquisition_job
    schedule-accepts r s v good = (
      ground (arith, v, good),
      ground (arith, v, good, find-put_self job_key (scheduled_job k clock r) db.jobs),
    )

    -- The handler does not look at the reference.
    schedule-any_reference :
        (r : Request) (name : String) (j : AcquisitionJob V)
        → (scheduling_of r).0 ≡ ok j
        → ((scheduling_of (refer_to name r)).0 ≡ ok (scheduled_job k clock (refer_to name r)))
          × (find job_key k (scheduling_of (refer_to name r)).1.jobs
              ≡ some (scheduled_job k clock (refer_to name r)))
    unfolding schedule_acquisition_job
    schedule-any_reference r name j h =
        elim (Result-cases (visible r.tenant_id (find source_key r.dataset_source_id db.sources))) [
          | inl (s, v) ↦ elim (Bool-cases (refused r)) [
            | inl bad ↦ absurd (ground (arith, v, bad, h))
            | inr good ↦ schedule-accepts (refer_to name r) s v good
          ]
          | inr (x, v) ↦ absurd (ground (arith, v, h))
        ]

  -- A request that is scheduled is scheduled under a blank reference, too. Then the job is never
  -- completed: its first run returns it as failed, or raises and leaves it running, and there it
  -- stays, whatever commands follow that schedule no job under its id.
  pub blank_reference-Unfinished :
      (env : Env V) (k new_id : ℕ) (clock later : Clock) (db : Db V) (r : Request) (name : String)
      (j : AcquisitionJob V) (cs : List Command)
      → (scheduling_of k clock db r).0 ≡ ok j
      → is_blank name ≡ true
      → Spares k cs
      → ((scheduling_of k clock db (refer_to name r)).0
          ≡ ok (scheduled_job k clock (refer_to name r)))
        × (let o =
              in_session
                (execute_acquisition_job env new_id r.tenant_id k later)
                (scheduling_of k clock db (refer_to name r)).1 in
            (j' : AcquisitionJob V) × Unfinished o.0 j'
            × (find job_key k (handle_all env cs o.1).jobs ≡ some j'))
  blank_reference-Unfinished env k new_id clock later db r name j cs accepted blank spares =
      let w : AcquisitionJob V = scheduled_job k clock (refer_to name r) in
      let (answered, stored) = schedule-any_reference k clock db r name j accepted in
      let db1 = (scheduling_of k clock db (refer_to name r)).1 in
      let o = in_session (execute_acquisition_job env new_id r.tenant_id k later) db1 in
      let p = import_content env (started w later) (later 3) in
      let (j', u, f) =
        Ended-Unfinished p new_id r.tenant_id (started w later) db1 o refl
          (λ i h. cc (blank, import_content-not_blank env (started w later) (later 3) i h))
          (execute_acquisition_job-Ended env new_id r.tenant_id later db1 k w stored refl refl) in
      (answered, (j', u, handle_all-job_stays env cs k o.1 j' f (Unfinished-ne o.0 j' u) spares))
