-- ===== src/Acquisition/Handlers.antt =====
-- The handlers of contexts/data_acquisition/application/handlers.py but for the execution of a job.
use novaapi.Common.{ℕ, String, not, Option, none, some, List, ◌==◌, if◌then◌else◌, nat_eq}
use novaapi.Common.Table.{find}
use novaapi.Errors.{
  Result, ok, err, dataset_source_not_found, dataset_not_found, variable_selection_not_found,
}
use novaapi.Session.{Exec, pure, lift, commit, gets, ◌>>=◌, ◌>>◌}
use novaapi.Acquisition.Types.{
  DataProvider, Readiness, DatasetMetadata, described, checked_metadata,
}
use novaapi.Acquisition.Catalog.{
  DatasetSource, register_source, Dataset, catalog, revise, mark_superseded, PredictorVariable,
  register_variable, VariableSelection, create_selection, confirm,
}
use novaapi.Acquisition.Job.{Request, AcquisitionJob, schedule}
use novaapi.Acquisition.Database.{
  Db, dataset_source, dataset, predictor_variable, variable_selection, acquisition_job, source_key,
  selection_key, get_latest, save_source, save_dataset, save_variable, save_selection, save_job,
  append,
}

abbrev pub Clock : Type 0
Clock = ℕ → ℕ

-- `_assert_dataset_source_visible_to_tenant` of the source that the table has.
abbrev pub visible : ℕ → Option DatasetSource → Result DatasetSource
visible tenant_id none = err dataset_source_not_found
visible tenant_id (some s) = elim s.tenant_id [
  | none ↦ ok s
  | some t ↦ if not (t == tenant_id) then err dataset_source_not_found else ok s
]

-- `if selection is None or selection.tenant_id != tenant_id: raise VariableSelectionNotFoundError`
abbrev owned_selection : ℕ → Option VariableSelection → Result VariableSelection
owned_selection tenant_id none = err variable_selection_not_found
owned_selection tenant_id (some s) =
    if not (s.tenant_id == tenant_id) then err variable_selection_not_found else ok s

module _ {V : Type 0} where
  unfoldable pub register_dataset_source :
      ℕ → Option ℕ → String → DataProvider → String → String → Clock → Exec (Db V) DatasetSource
  unfolding register_source save_source append
  register_dataset_source new_id tenant_id name provider description issued_by clock = do
    let (s, event) = register_source new_id (clock 0) tenant_id name provider description issued_by
    save_source s
    append (dataset_source s.id) event tenant_id (clock 1)
    commit
    pure s

  unfoldable pub catalog_dataset :
      ℕ → ℕ → ℕ → DatasetMetadata V → Readiness → String → Clock → Exec (Db V) (Dataset V)
  unfolding checked_metadata catalog save_dataset append
  catalog_dataset new_id tenant_id source_id metadata readiness issued_by clock = do
    found ← gets (λ (db : Db V). find source_key source_id db.sources)
    lift (visible tenant_id found)
    m ← lift (checked_metadata metadata)
    let (d, event) = catalog new_id clock tenant_id source_id m readiness issued_by
    save_dataset d
    append (dataset d.id) event (some tenant_id) (clock 2)
    commit
    pure d

  -- `if previous is None: raise DatasetNotFoundError`
  abbrev present : Option (Dataset V) → Result (Dataset V)
  present none = err dataset_not_found
  present (some d) = ok d

  -- The name of the metadata is the name of the command.
  unfoldable pub revise_dataset :
      ℕ → ℕ → DatasetMetadata V → Readiness → String → String → Clock → Exec (Db V) (Dataset V)
  unfolding checked_metadata revise mark_superseded save_dataset append get_latest
  revise_dataset new_id tenant_id metadata readiness description issued_by clock = do
    found ← gets (λ (db : Db V). get_latest tenant_id metadata.name db.datasets)
    previous ← lift (present found)
    m ← lift (checked_metadata metadata)
    let (d, event) = revise new_id clock previous m readiness (described description) issued_by
    save_dataset (mark_superseded previous)
    save_dataset d
    append (dataset d.id) event (some tenant_id) (clock 2)
    commit
    pure d

  unfoldable pub register_predictor_variable :
      ℕ → PredictorVariable V → Clock → Exec (Db V) (PredictorVariable V)
  unfolding register_variable save_variable append
  register_predictor_variable new_id command clock = do
    let (v, event) = register_variable new_id (clock 0) command
    save_variable v
    append (predictor_variable v.id) event v.tenant_id (clock 1)
    commit
    pure v

  unfoldable pub create_variable_selection :
      ℕ → ℕ → String → Option String → List ℕ → String → Clock → Exec (Db V) VariableSelection
  unfolding create_selection save_selection append
  create_variable_selection new_id tenant_id name hazard_type ids issued_by clock = do
    (s, event) ← lift (create_selection new_id (clock 0) tenant_id name hazard_type ids issued_by)
    save_selection s
    append (variable_selection s.id) event (some tenant_id) (clock 1)
    commit
    pure s

  unfoldable pub confirm_variable_selection : ℕ → ℕ → Clock → Exec (Db V) VariableSelection
  unfolding confirm save_selection append
  confirm_variable_selection tenant_id k clock = do
    found ← gets (λ (db : Db V). find selection_key k db.selections)
    s ← lift (owned_selection tenant_id found)
    let (s', event) = confirm s
    save_selection s'
    append (variable_selection s'.id) event (some tenant_id) (clock 0)
    commit
    pure s'

  unfoldable pub schedule_acquisition_job : ℕ → Request → Clock → Exec (Db V) (AcquisitionJob V)
  unfolding schedule save_job append
  schedule_acquisition_job new_id r clock = do
    found ← gets (λ (db : Db V). find source_key r.dataset_source_id db.sources)
    lift (visible r.tenant_id found)
    (j, event) ← lift (schedule new_id clock r)
    save_job j
    append (acquisition_job j.id) event (some r.tenant_id) (clock 2)
    commit
    pure j
