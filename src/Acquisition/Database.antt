-- ===== src/Acquisition/Database.antt =====
-- contexts/data_acquisition/infrastructure/repositories.py: the tables, a row and the object that the
-- mappers make of it being one record.
pub mod Current
use text.Mathlib.Text.{◌==◌ as str_eq}
use novaapi.Common.{
  ℕ, String, ◌≡◌, Bool, true, false, ◌&&◌, Option, none, some, List, [], ◌∷◌, ltb, if◌then◌else◌,
  Eq, ◌==◌, arith,
}
use novaapi.Common.Table.{put}
use novaapi.Session.{Exec, modify}
use novaapi.Outbox.{OutboxEvent, append_event}
use novaapi.Acquisition.Types.{DatasetStatus, catalogued, superseded, archived}
use novaapi.Acquisition.Catalog.{DatasetSource, Dataset, PredictorVariable, VariableSelection}
use novaapi.Acquisition.Job.{AcquisitionJob}
use novaapi.Acquisition.Events.{Event}

-- `aggregate_type` with `aggregate_id`.
pub data Aggregate : Type 0 where
  dataset_source dataset predictor_variable variable_selection acquisition_job : ℕ → Aggregate

abbrev pub same_aggregate : Aggregate → Aggregate → Bool
same_aggregate (dataset_source a) (dataset_source b) = a == b
same_aggregate (dataset a) (dataset b) = a == b
same_aggregate (predictor_variable a) (predictor_variable b) = a == b
same_aggregate (variable_selection a) (variable_selection b) = a == b
same_aggregate (acquisition_job a) (acquisition_job b) = a == b
same_aggregate _ _ = false

pub same_aggregate→≡ : (a b : Aggregate) → same_aggregate a b ≡ true → a ≡ b
same_aggregate→≡ (dataset_source a) (dataset_source b) h = ground arith
same_aggregate→≡ (dataset a) (dataset b) h = ground arith
same_aggregate→≡ (predictor_variable a) (predictor_variable b) h = ground arith
same_aggregate→≡ (variable_selection a) (variable_selection b) h = ground arith
same_aggregate→≡ (acquisition_job a) (acquisition_job b) h = ground arith
same_aggregate→≡ _ _ h = ground arith

pub ≡→same_aggregate : (a b : Aggregate) → a ≡ b → same_aggregate a b ≡ true
≡→same_aggregate (dataset_source a) (dataset_source b) h = ground arith
≡→same_aggregate (dataset a) (dataset b) h = ground arith
≡→same_aggregate (predictor_variable a) (predictor_variable b) h = ground arith
≡→same_aggregate (variable_selection a) (variable_selection b) h = ground arith
≡→same_aggregate (acquisition_job a) (acquisition_job b) h = ground arith
≡→same_aggregate _ _ h = ground arith

instance abbrev pub aggregate_eq : Eq Aggregate
aggregate_eq = record {
  beq = same_aggregate;
  beq_iff = λ a b. (same_aggregate→≡ a b, ≡→same_aggregate a b);
}

pub record Db (V : Type 0) : Type 0 where
  pub sources : List DatasetSource
  pub datasets : List (Dataset V)
  pub variables : List (PredictorVariable V)
  pub selections : List VariableSelection
  pub jobs : List (AcquisitionJob V)
  pub outbox : List (OutboxEvent Aggregate Event)

abbrev pub source_key : DatasetSource → ℕ
source_key s = s.id

abbrev pub selection_key : VariableSelection → ℕ
selection_key s = s.id

abbrev pub is_catalogued : DatasetStatus → Bool
is_catalogued catalogued = true
is_catalogued _ = false

module _ {V : Type 0} where
  abbrev pub dataset_key : Dataset V → ℕ
  dataset_key d = d.id

  abbrev pub variable_key : PredictorVariable V → ℕ
  variable_key v = v.id

  abbrev pub job_key : AcquisitionJob V → ℕ
  job_key j = j.id

  -- The `where` of `get_latest`.
  abbrev pub is_current : ℕ → String → Dataset V → Bool
  is_current tenant_id name d =
      d.tenant_id == tenant_id && str_eq d.metadata.name name && is_catalogued d.status

  -- `get_latest`: the catalogued version with the largest number, the first of those in the list
  -- where several have it.
  unfoldable pub get_latest : ℕ → String → List (Dataset V) → Option (Dataset V)
  get_latest tenant_id name [] = none
  get_latest tenant_id name (d ∷ ds) =
      let rest = get_latest tenant_id name ds in
      if is_current tenant_id name d
      then elim rest [ none ↦ some d | some x ↦ if ltb d.version x.version then some x else some d ]
      else rest

  unfoldable pub save_source : DatasetSource → Exec (Db V) (Unit {0})
  save_source s = modify (λ db. record db { sources = put source_key s db.sources })

  unfoldable pub save_dataset : Dataset V → Exec (Db V) (Unit {0})
  save_dataset d = modify (λ db. record db { datasets = put dataset_key d db.datasets })

  unfoldable pub save_variable : PredictorVariable V → Exec (Db V) (Unit {0})
  save_variable v = modify (λ db. record db { variables = put variable_key v db.variables })

  unfoldable pub save_selection : VariableSelection → Exec (Db V) (Unit {0})
  save_selection s = modify (λ db. record db { selections = put selection_key s db.selections })

  unfoldable pub save_job : AcquisitionJob V → Exec (Db V) (Unit {0})
  save_job j = modify (λ db. record db { jobs = put job_key j db.jobs })

  -- `append_event` in the transaction of the session.
  unfoldable pub append : Aggregate → Event → Option ℕ → ℕ → Exec (Db V) (Unit {0})
  append k e tenant_id now =
      modify (λ db. record db { outbox = append_event k e tenant_id now db.outbox })
