-- ===== src/Acquisition/Execute.antt =====
-- `ExecuteAcquisitionJobHandler` of contexts/data_acquisition/application/handlers.py.
pub mod Outcome
pub mod Stays
pub mod Blank
use novaapi.Common.{
  ℕ, ◌+◌, String, Bool, true, false, not, Option, none, some, List, [], ◌∷◌, ◌==◌, if◌then◌else◌,
  nat_eq,
}
use novaapi.Common.Table.{find}
use novaapi.Errors.{Result, ok, err, acquisition_job_not_found}
use novaapi.Session.{Exec, Session, pure, raise, lift, commit, gets, ◌>>=◌, ◌>>◌}
use novaapi.Acquisition.Types.{Readiness, DatasetMetadata, reuploaded}
use novaapi.Acquisition.Catalog.{Dataset, catalog, revise, mark_superseded}
use novaapi.Acquisition.Job.{AcquisitionJob, Completion, start, complete, fail}
use novaapi.Acquisition.Events.{Event}
use novaapi.Acquisition.Database.{
  Db, dataset, acquisition_job, job_key, get_latest, save_dataset, save_job, append,
}
use novaapi.Acquisition.Import.{
  Env, Progress, goes, fails, raises, Imported, or_none, import_content,
}
use novaapi.Acquisition.Handlers.{Clock}

-- `if job is None or job.tenant_id != tenant_id: raise AcquisitionJobNotFoundError`
abbrev pub owned_job : {V : Type 0} → ℕ → Option (AcquisitionJob V) → Result (AcquisitionJob V)
owned_job tenant_id none = err acquisition_job_not_found
owned_job tenant_id (some j) =
    if not (j.request.tenant_id == tenant_id) then err acquisition_job_not_found else ok j

-- The readings of the clock after the first `n`.
abbrev pub later : ℕ → Clock → Clock
later n clock k = clock (n + k)

module _ {V : Type 0} where
  -- The data set that the import makes, its event, and the version before it as it is saved again.
  unfoldable pub cataloguing :
      ℕ
      → Clock
      → AcquisitionJob V
      → DatasetMetadata V
      → Option (Dataset V)
      → Dataset V × Event × Option (Dataset V)
  unfolding catalog revise mark_superseded
  cataloguing new_id clock j m none =
      let none_ready : Readiness = record { mlr_ready = false; correlation_ready = false } in
      let (d, event) =
        catalog new_id clock j.request.tenant_id j.request.dataset_source_id m none_ready
          j.request.requested_by in
      (d, event, none)
  cataloguing new_id clock j m (some previous) =
      let (d, event) =
        revise new_id clock previous m previous.readiness (reuploaded j.id)
          j.request.requested_by in
      (d, event, some (mark_superseded previous))

  -- `previous_dataset.mark_superseded()` with its save, where there is a version before.
  abbrev save_previous : Option (Dataset V) → Exec (Db V) (Unit {0})
  save_previous none = pure tt
  save_previous (some d) = save_dataset d

  -- The arguments that `complete` is called with.
  abbrev pub completion_of : ℕ → Imported V → Completion V
  completion_of dataset_id i = record {
    dataset_id = dataset_id;
    applied_preprocessing = i.result.applied_preprocessing;
    extracted_features = or_none i.features.0;
    skipped_features = or_none i.features.1;
    shapefile = i.shapefile_result;
    raster_download_warning = i.result.raster_skipped_reason;
  }

  -- The end of a run that has fetched: the data set and the job in one transaction.
  unfoldable pub complete_job :
      ℕ → ℕ → AcquisitionJob V → Imported V → Clock → Exec (Db V) (AcquisitionJob V)
  unfolding cataloguing complete save_dataset save_job append get_latest
  complete_job new_id tenant_id j i clock = do
    previous ← gets (λ (db : Db V). get_latest tenant_id j.request.source_reference db.datasets)
    let (d, event, before) = cataloguing new_id clock j i.metadata previous
    save_previous before
    save_dataset d
    append (dataset d.id) event (some tenant_id) (clock 2)
    (j', done) ← lift (complete j (completion_of d.id i) (later 3 clock))
    save_job j'
    append (acquisition_job j'.id) done (some tenant_id) (clock 5)
    commit
    pure j'

  -- `_fail`
  unfoldable pub fail_job : ℕ → AcquisitionJob V → String → Clock → Exec (Db V) (AcquisitionJob V)
  unfolding fail save_job append
  fail_job tenant_id j error clock = do
    (j', event) ← lift (fail j error clock)
    save_job j'
    append (acquisition_job j'.id) event (some tenant_id) (clock 2)
    commit
    pure j'

  -- What follows the start.
  unfoldable pub run :
      ℕ → ℕ → AcquisitionJob V → Progress (Imported V) → Clock → Exec (Db V) (AcquisitionJob V)
  unfolding complete_job fail_job
  run new_id tenant_id j (goes i) clock = complete_job new_id tenant_id j i clock
  run new_id tenant_id j (fails error) clock = fail_job tenant_id j error clock
  run new_id tenant_id j (raises e) clock = raise e

  unfoldable pub execute_acquisition_job :
      Env V → ℕ → ℕ → ℕ → Clock → Exec (Db V) (AcquisitionJob V)
  unfolding start save_job append import_content run
  execute_acquisition_job env new_id tenant_id k clock = do
    found ← gets (λ (db : Db V). find job_key k db.jobs)
    j ← lift (owned_job tenant_id found)
    (j', event) ← lift (start j clock)
    save_job j'
    append (acquisition_job j'.id) event (some tenant_id) (clock 2)
    commit
    run new_id tenant_id j' (import_content env j' (clock 3)) (later 4 clock)
