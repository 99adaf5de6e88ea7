-- ===== src/Acquisition/Execute/Outcome.antt =====
-- How a run of `ExecuteAcquisitionJobHandler` ends, by what the import does.
use mathlib.Core.Path.{subst}
use novaapi.Common.{
  ℕ, ◌≡◌, refl, ap, ◌∙◌, sym, String, Option, none, some, List, ◌++◌, arith, nat_eq,
}
use novaapi.Common.Table.{find, put, find-put_self}
use novaapi.Errors.{Result, ok, err}
use novaapi.Session.{Session, in_session}
use novaapi.Outbox.{append_event}
use novaapi.Acquisition.Types.{
  DatasetMetadata, scheduled, running, completed, failed, catalogued, system, started_action,
  completed_action, failed_action, fetch_started, described, dataset_reference,
}
use novaapi.Acquisition.Catalog.{Dataset}
use novaapi.Acquisition.Job.{AcquisitionJob, Completion, entry_of, completion_text}
use novaapi.Acquisition.Events.{acquisition_job_started, acquisition_job_completed}
use novaapi.Acquisition.Database.{
  Db, aggregate_eq, acquisition_job, dataset, job_key, dataset_key, get_latest,
}
use novaapi.Acquisition.Import.{Env, Progress, goes, fails, raises, Imported, import_content}
use novaapi.Acquisition.Handlers.{Clock}
use novaapi.Acquisition.Execute.{
  later, run, execute_acquisition_job, completion_of, cataloguing, complete_job,
}

module _ {V : Type 0} where
  -- The job while it runs.
  abbrev pub started : AcquisitionJob V → Clock → AcquisitionJob V
  started j clock = record j {
    status = running;
    started_at = some (clock 0);
    provenance = j.provenance ++ entry_of (clock 1) system started_action fetch_started none;
  }

  -- The tables while the job runs.
  abbrev pub db_started : AcquisitionJob V → ℕ → Clock → Db V → Db V
  db_started j tenant_id clock db = record db {
    jobs = put job_key (started j clock) db.jobs;
    outbox =
        append_event (acquisition_job j.id) (acquisition_job_started j.id j.request.tenant_id)
          (some tenant_id) (clock 2) db.outbox;
  }

  abbrev pub opened : Db V → Session (Db V)
  opened db = record { committed = db; work = db }

  abbrev pub failed_job : AcquisitionJob V → String → Clock → AcquisitionJob V
  failed_job j error clock = record j {
    status = failed;
    completed_at = some (clock 0);
    error = some error;
    provenance = j.provenance ++ entry_of (clock 1) system failed_action (described error) none;
  }

  abbrev pub completed_job : AcquisitionJob V → Completion V → Clock → AcquisitionJob V
  completed_job j c clock = record j {
    status = completed;
    completed_at = some (clock 0);
    dataset_id = some c.dataset_id;
    applied_preprocessing = c.applied_preprocessing;
    extracted_features = c.extracted_features;
    skipped_features = c.skipped_features;
    shapefile = c.shapefile;
    provenance =
        j.provenance
        ++ entry_of (clock 1) system completed_action (completion_text c j.request.source_reference)
            (some (dataset_reference c.dataset_id));
  }

  -- What a run has returned and stored, for each way in which the import may go.
  abbrev pub Ended :
      Progress (Imported V)
      → ℕ
      → ℕ
      → AcquisitionJob V
      → Db V
      → Result (AcquisitionJob V) × Db V
      → Type 0
  Ended (goes i) new_id t j db o =
      (j' : AcquisitionJob V) × (o.0 ≡ ok j')
      × (find job_key j.id o.1.jobs ≡ some j')
      × (j'.status ≡ completed)
      × (j'.dataset_id ≡ some new_id)
      × ((d : Dataset V) × (find dataset_key new_id o.1.datasets ≡ some d)
          × (d.status ≡ catalogued)
          × (d.metadata ≡ i.metadata))
  Ended (fails text) new_id t j db o =
      (j' : AcquisitionJob V) × (o.0 ≡ ok j')
      × (find job_key j.id o.1.jobs ≡ some j')
      × (j'.status ≡ failed)
      × (j'.error ≡ some text)
      × (o.1.datasets ≡ db.datasets)
  Ended (raises e) new_id t j db o =
      (o.0 ≡ err e) × (find job_key j.id o.1.jobs ≡ some j) × (o.1.datasets ≡ db.datasets)

  abbrev pub outcome : Result (AcquisitionJob V) × Session (Db V) → Result (AcquisitionJob V) × Db V
  outcome (r, s) = (r, s.committed)

  cataloguing-made :
      (new_id : ℕ) (clock : Clock) (j : AcquisitionJob V) (m : DatasetMetadata V)
      (found : Option (Dataset V))
      → let d = (cataloguing new_id clock j m found).0 in
        (d.id ≡ new_id) × (d.status ≡ catalogued) × (d.metadata ≡ m)
  unfolding cataloguing
  cataloguing-made new_id clock j m none = (refl, refl, refl)
  cataloguing-made new_id clock j m (some p) = (refl, refl, refl)

  -- The data sets after the version before is saved.
  abbrev pub with_previous :
      ℕ
      → Clock
      → AcquisitionJob V
      → DatasetMetadata V
      → Option (Dataset V)
      → List (Dataset V)
      → List (Dataset V)
  with_previous new_id clock j m found ds = elim (cataloguing new_id clock j m found).2 [
    | none ↦ ds
    | some p ↦ put dataset_key p ds
  ]

  abbrev pub db_completed :
      ℕ → ℕ → AcquisitionJob V → Imported V → Clock → Option (Dataset V) → Db V → Db V
  db_completed new_id t j i clock found db =
      let (d, event, before) = cataloguing new_id clock j i.metadata found in
      record db {
        datasets = put dataset_key d (with_previous new_id clock j i.metadata found db.datasets);
        jobs = put job_key (completed_job j (completion_of d.id i) (later 3 clock)) db.jobs;
        outbox =
            append_event (acquisition_job j.id)
              (acquisition_job_completed j.id j.request.tenant_id d.id) (some t) (clock 5)
              (append_event (dataset d.id) event (some t) (clock 2) db.outbox);
      }

  pub complete_job-lem :
      (new_id t : ℕ) (j : AcquisitionJob V) (i : Imported V) (clock : Clock) (db : Db V)
      (found : Option (Dataset V))
      → get_latest t j.request.source_reference db.datasets ≡ found
      → j.status ≡ running
      → complete_job new_id t j i clock (opened db) ≡ (
        ok (
            completed_job j
              (completion_of (cataloguing new_id clock j i.metadata found).0.id i)
              (later 3 clock)),
        opened (db_completed new_id t j i clock found db),
      )
  unfolding complete_job
  complete_job-lem new_id t j i clock db none e s = ground (arith, e, s)
  complete_job-lem new_id t j i clock db (some p) e s = ground (arith, e, s)

  run-Ended :
      (p : Progress (Imported V)) (new_id t : ℕ) (j : AcquisitionJob V) (clock : Clock) (db : Db V)
      → j.status ≡ running
      → find job_key j.id db.jobs ≡ some j
      → Ended p new_id t j db (outcome (run new_id t j p clock (opened db)))
  unfolding run
  run-Ended (goes i) new_id t j clock db s f =
      let found = get_latest t j.request.source_reference db.datasets in
      let d = (cataloguing new_id clock j i.metadata found).0 in
      let j' : AcquisitionJob V = completed_job j (completion_of d.id i) (later 3 clock) in
      let e = complete_job-lem new_id t j i clock db found refl s in
      let m = cataloguing-made new_id clock j i.metadata found in
      (
        j',
        ap (λ o. o.0) e,
        ap (λ o. find job_key j.id o.1.committed.jobs) e ∙ find-put_self job_key j' db.jobs,
        refl,
        ap some m.0,
        (
          d,
          ap (λ o. find dataset_key new_id o.1.committed.datasets) e
              ∙ ap
                  (λ k.
                    find dataset_key k (
                      put dataset_key d
                        (with_previous new_id clock j i.metadata found db.datasets)))
                  (sym m.0)
              ∙ find-put_self dataset_key d
                  (with_previous new_id clock j i.metadata found db.datasets),
          m.1,
          m.2,
        ),
      )
  run-Ended (fails text) new_id t j clock db s f =
      let j' : AcquisitionJob V = failed_job j text clock in
      (j', ground arith, ground (arith, find-put_self job_key j' db.jobs), refl, refl, ground arith)
  run-Ended (raises e) new_id t j clock db s f = (refl, f, refl)

  -- Only the data sets of the tables matter.
  Ended-db :
      (p : Progress (Imported V)) (new_id t : ℕ) (j : AcquisitionJob V) (db db' : Db V)
      (o : Result (AcquisitionJob V) × Db V)
      → db'.datasets ≡ db.datasets
      → Ended p new_id t j db' o
      → Ended p new_id t j db o
  Ended-db (goes i) new_id t j db db' o e h = h
  Ended-db (fails text) new_id t j db db' o e (j', a, b, c, d, g) = (j', a, b, c, d, g ∙ e)
  Ended-db (raises x) new_id t j db db' o e (a, b, c) = (a, b, c ∙ e)

  -- A job of the tenant that waits to be run: what execution comes to.
  pub execute-run :
      (env : Env V) (new_id t : ℕ) (clock : Clock) (db : Db V) (k : ℕ) (j : AcquisitionJob V)
      → find job_key k db.jobs ≡ some j
      → j.request.tenant_id ≡ t
      → j.status ≡ scheduled
      → execute_acquisition_job env new_id t k clock (opened db)
        ≡ run new_id t
            (started j clock)
            (import_content env (started j clock) (clock 3))
            (later 4 clock)
            (opened (db_started j t clock db))
  unfolding execute_acquisition_job
  execute-run env new_id t clock db k j f et s = ground (arith, f, et, s)

  -- A job of the tenant that waits is run to one of three ends, and the import decides which. Where the
  -- import succeeds, the job that is returned and stored is completed, with the new data set, which is
  -- stored as catalogued under the metadata of the import. Where it fails with a text, the job is
  -- failed with that text and the data sets are as before. Where it raises, the handler raises
  -- the same, the job stays running, and the data sets are as before.
  pub execute_acquisition_job-Ended :
      (env : Env V) (new_id t : ℕ) (clock : Clock) (db : Db V) (k : ℕ) (j : AcquisitionJob V)
      → find job_key k db.jobs ≡ some j
      → j.request.tenant_id ≡ t
      → j.status ≡ scheduled
      → Ended
          (import_content env (started j clock) (clock 3))
          new_id
          t
          (started j clock)
          db
          (in_session (execute_acquisition_job env new_id t k clock) db)
  execute_acquisition_job-Ended env new_id t clock db k j f et s =
      let j1 : AcquisitionJob V = started j clock in
      let p = import_content env j1 (clock 3) in
      subst (λ o. Ended p new_id t j1 db (outcome o))
        (sym (execute-run env new_id t clock db k j f et s))
        (Ended-db p new_id t j1 db (db_started j t clock db) _ refl (
          run-Ended p new_id t j1 (later 4 clock) (db_started j t clock db) refl
            (find-put_self job_key j1 db.jobs)))
