-- ===== src/Acquisition/Execute/Stays.antt =====
-- Jobs over the commands of contexts/data_acquisition/application/handlers.py.
use novaapi.Common.{
  ℕ, ◌≡◌, ◌≢◌, refl, ap, ◌∙◌, some, List, [], ◌∷◌, ◌==◌, arith, nat_eq, ◌⊎◌, inl, inr, Option-cases,
  Bool-cases,
}
use novaapi.Common.Table.{find, find-put_ne, find-key}
use novaapi.Errors.{Result-cases, err, illegal_acquisition_job_transition}
use novaapi.Session.{in_session}
use novaapi.Acquisition.Types.{AcquisitionJobStatus, scheduled, running, completed, failed}
use novaapi.Acquisition.Job.{AcquisitionJob, Request, start_from, refused, scheduled_job}
use novaapi.Acquisition.Database.{Db, job_key, source_key}
use novaapi.Acquisition.Import.{Env, Progress, goes, fails, raises, Imported, import_content}
use novaapi.Acquisition.Handlers.{Clock, visible, schedule_acquisition_job}
use novaapi.Acquisition.Execute.{later, run, execute_acquisition_job}
use novaapi.Acquisition.Execute.Outcome.{
  started, db_started, opened, outcome, failed_job, execute-run, complete_job-lem,
}

scheduled-cases : (s : AcquisitionJobStatus) → (s ≡ scheduled) ⊎ (s ≢ scheduled)
scheduled-cases scheduled = inl refl
scheduled-cases running = inr (ground arith)
scheduled-cases completed = inr (ground arith)
scheduled-cases failed = inr (ground arith)

module _ {V : Type 0} where
  -- The part after the start leaves the other jobs alone.
  run-others :
      (p : Progress (Imported V)) (new_id t : ℕ) (j : AcquisitionJob V) (clock : Clock) (db : Db V)
      (k : ℕ)
      → j.status ≡ running
      → k ≢ j.id
      → find job_key k (outcome (run new_id t j p clock (opened db))).1.jobs
        ≡ find job_key k db.jobs
  unfolding run
  run-others (goes i) new_id t j clock db k s ne =
      ap (λ o. find job_key k o.1.committed.jobs) (complete_job-lem new_id t j i clock db _ refl s)
      ∙ find-put_ne job_key _ k db.jobs ne
  run-others (fails text) new_id t j clock db k s ne =
      ground (arith, find-put_ne job_key (failed_job j text clock) k db.jobs)
  run-others (raises e) new_id t j clock db k s ne = refl

  start-refused :
      (j : AcquisitionJob V) (clock : Clock) (status : AcquisitionJobStatus)
      → status ≢ scheduled
      → start_from status j clock ≡ err illegal_acquisition_job_transition
  start-refused j clock scheduled ne = absurd (ne refl)
  start-refused j clock running ne = refl
  start-refused j clock completed ne = refl
  start-refused j clock failed ne = refl

  -- Whether the tenant may run the job now.
  pub runs-cases :
      (t : ℕ) (x : AcquisitionJob V)
      → ((x.request.tenant_id ≡ t) × (x.status ≡ scheduled))
        ⊎ (x.request.tenant_id ≡ t → x.status ≢ scheduled)
  runs-cases t x = elim (scheduled-cases x.status) [
    | inl waits ↦ elim (Bool-cases (x.request.tenant_id == t)) [
      | inl own ↦ inl (ground arith, waits)
      | inr other ↦ inr (λ own. absurd (ground arith))
    ]
    | inr ne ↦ inr (λ own. ne)
  ]

  -- A job that does not wait to be run, or is not the tenant's, or is not there, is not executed.
  pub execute-refused :
      (env : Env V) (new_id t k : ℕ) (clock : Clock) (db : Db V)
      → ((x : AcquisitionJob V)
          → find job_key k db.jobs ≡ some x
          → x.request.tenant_id ≡ t
          → x.status ≢ scheduled)
      → (in_session (execute_acquisition_job env new_id t k clock) db).1 ≡ db
  unfolding execute_acquisition_job
  execute-refused env new_id t k clock db h = elim (Option-cases (find job_key k db.jobs)) [
    | inl missing ↦ ground arith
    | inr (x, e) ↦ elim (Bool-cases (x.request.tenant_id == t)) [
      | inl own ↦ ground (arith, start-refused x clock x.status (h x e (ground arith)))
      | inr other ↦ ground arith
    ]
  ]

  pub execute_acquisition_job-stays :
      (env : Env V) (new_id t k : ℕ) (clock : Clock) (db : Db V) (k' : ℕ) (r : AcquisitionJob V)
      → find job_key k' db.jobs ≡ some r
      → r.status ≢ scheduled
      → find job_key k' (in_session (execute_acquisition_job env new_id t k clock) db).1.jobs
        ≡ some r
  execute_acquisition_job-stays env new_id t k clock db k' r f done =
      elim (Option-cases (find job_key k db.jobs)) [
        | inl missing ↦
            ap (λ d. find job_key k' d.jobs)
              (execute-refused env new_id t k clock db
                (λ y g own. absurd (ground (arith, missing, g))))
            ∙ f
        | inr (x, e) ↦ elim (runs-cases t x) [
          | inl (own, waits) ↦
              let same : x.id ≡ k = find-key job_key k db.jobs x e in
              let p = import_content env (started x clock) (clock 3) in
              let db1 = db_started x t clock db in
              let ne : k' ≢ x.id = λ c. done (ground (arith, f, e, c, same, waits)) in
              ap (λ o. find job_key k' o.1.committed.jobs)
                (execute-run env new_id t clock db k x e own waits)
              ∙ run-others p new_id t (started x clock) (later 4 clock) db1 k' refl ne
              ∙ find-put_ne job_key (started x clock) k' db.jobs ne
              ∙ f
          | inr refused ↦
              ap (λ d. find job_key k' d.jobs)
                (execute-refused env new_id t k clock db (λ y g own w.
                  let same : x ≡ y = cc (e, g) in
                  refused (ap (λ z. z.request.tenant_id) same ∙ own) (ap (λ z. z.status) same ∙ w)))
              ∙ f
        ]
      ]

-- Commands on the jobs of the context, as they come one after another.
pub data Command : Type 0 where
  scheduling : ℕ → Request → Clock → Command
  executing : ℕ → ℕ → ℕ → Clock → Command

-- No scheduling is given the id.
abbrev pub Spares : ℕ → List Command → Type 0
Spares k [] = Unit
Spares k (scheduling new_id r clock ∷ cs) = (k ≢ new_id) × Spares k cs
Spares k (executing new_id t j clock ∷ cs) = Spares k cs

module _ {V : Type 0} where
  unfoldable pub handle : Env V → Command → Db V → Db V
  unfolding schedule_acquisition_job execute_acquisition_job
  handle env (scheduling new_id r clock) db =
      (in_session (schedule_acquisition_job new_id r clock) db).1
  handle env (executing new_id t k clock) db =
      (in_session (execute_acquisition_job env new_id t k clock) db).1

  unfoldable pub handle_all : Env V → List Command → Db V → Db V
  unfolding handle
  handle_all env [] db = db
  handle_all env (c ∷ cs) db = handle_all env cs (handle env c db)

  schedule_acquisition_job-others :
      (new_id : ℕ) (r : Request) (clock : Clock) (db : Db V) (k : ℕ)
      → k ≢ new_id
      → find job_key k (in_session (schedule_acquisition_job new_id r clock) db).1.jobs
        ≡ find job_key k db.jobs
  unfolding schedule_acquisition_job
  schedule_acquisition_job-others new_id r clock db k ne =
      elim (Result-cases (visible r.tenant_id (find source_key r.dataset_source_id db.sources))) [
        | inl (source, e) ↦ elim (Bool-cases (refused r)) [
          | inl bad ↦ ground (arith, e, bad)
          | inr good ↦
              ground
                (arith, e, good, find-put_ne job_key (scheduled_job new_id clock r) k db.jobs ne)
        ]
        | inr (x, e) ↦ ground (arith, e)
      ]

  -- A job that no longer waits to be run keeps its row, whatever commands follow that schedule no job
  -- under its id: an end is final, and so is the state in which a run that raised has left the job.
  pub handle_all-job_stays :
      (env : Env V) (cs : List Command) (k : ℕ) (db : Db V) (r : AcquisitionJob V)
      → find job_key k db.jobs ≡ some r
      → r.status ≢ scheduled
      → Spares k cs
      → find job_key k (handle_all env cs db).jobs ≡ some r
  unfolding handle_all
  handle_all-job_stays env [] k db r f done s = f
  handle_all-job_stays env (scheduling new_id q clock ∷ cs) k db r f done s =
      handle_all-job_stays env cs k (in_session (schedule_acquisition_job new_id q clock) db).1 r
        (schedule_acquisition_job-others new_id q clock db k s.0 ∙ f) done s.1
  handle_all-job_stays env (executing new_id t j clock ∷ cs) k db r f done s =
      handle_all-job_stays env cs k (in_session (execute_acquisition_job env new_id t j clock) db).1
        r (execute_acquisition_job-stays env new_id t j clock db k r f done) done s
