-- ===== src/Acquisition/Catalog.antt =====
-- `DatasetSource`, `Dataset`, `PredictorVariable` and `VariableSelection` of
-- contexts/data_acquisition/domain/entities.py.
use novaapi.Common.{
  ℕ, ◌+◌, String, Bool, true, false, Option, none, some, List, [], ◌∷◌, ◌++◌, length,
}
use novaapi.Errors.{Result, ok, err, invalid_variable_selection}
use novaapi.Acquisition.Types.{
  DataProvider, DatasetStatus, catalogued, superseded, Readiness, DatasetMetadata, ProvenanceEntry,
  initial_cataloguing, Description, dataset_reference, catalogued_action, revised_action, person,
  VariableCategory, VariableRole, VariableDataType, VariableSelectionStatus, draft, confirmed,
}
use novaapi.Acquisition.Events.{
  Event, dataset_source_registered, dataset_catalogued, dataset_revised,
  predictor_variable_registered, variable_selection_created, variable_selection_confirmed,
}

-- Without a tenant a source is there for all tenants.
pub record DatasetSource : Type 0 where
  pub id : ℕ
  pub tenant_id : Option ℕ
  pub name : String
  pub provider : DataProvider
  pub description : String
  pub is_active : Bool
  pub created_by : String
  pub created_at : ℕ

unfoldable pub register_source :
    ℕ → ℕ → Option ℕ → String → DataProvider → String → String → DatasetSource × Event
register_source new_id now tenant_id name provider description created_by = (
  record {
    id = new_id;
    tenant_id = tenant_id;
    name = name;
    provider = provider;
    description = description;
    is_active = true;
    created_by = created_by;
    created_at = now;
  },
  dataset_source_registered new_id tenant_id name provider,
)

-- `DatasetSource.deactivate`
unfoldable pub deactivate_source : DatasetSource → DatasetSource
deactivate_source s = record s { is_active = false }

pub record Dataset (V : Type 0) : Type 0 where
  pub id : ℕ
  pub tenant_id : ℕ
  pub dataset_source_id : ℕ
  pub version : ℕ
  pub status : DatasetStatus
  pub metadata : DatasetMetadata V
  pub provenance : List (ProvenanceEntry V)
  pub readiness : Readiness
  pub catalogued_by : String
  pub created_at : ℕ

module _ {V : Type 0} where
  -- `Dataset.catalog`, which reads the clock twice.
  unfoldable pub catalog :
      ℕ → (ℕ → ℕ) → ℕ → ℕ → DatasetMetadata V → Readiness → String → Dataset V × Event
  catalog new_id clock tenant_id dataset_source_id metadata readiness catalogued_by = (
    record {
      id = new_id;
      tenant_id = tenant_id;
      dataset_source_id = dataset_source_id;
      version = 1;
      status = catalogued;
      metadata = metadata;
      provenance =
          record {
            timestamp = clock 0;
            actor = person catalogued_by;
            action = catalogued_action;
            description = initial_cataloguing metadata.name;
            source_reference = none;
          }
          ∷ [];
      readiness = readiness;
      catalogued_by = catalogued_by;
      created_at = clock 1;
    },
    dataset_catalogued new_id tenant_id metadata.name 1,
  )

  -- `Dataset.revise`
  unfoldable pub revise :
      ℕ
      → (ℕ → ℕ)
      → Dataset V
      → DatasetMetadata V
      → Readiness
      → Description V
      → String
      → Dataset V × Event
  revise new_id clock previous metadata readiness description catalogued_by = (
    record {
      id = new_id;
      tenant_id = previous.tenant_id;
      dataset_source_id = previous.dataset_source_id;
      version = previous.version + 1;
      status = catalogued;
      metadata = metadata;
      provenance =
          previous.provenance
          ++ record {
            timestamp = clock 0;
            actor = person catalogued_by;
            action = revised_action;
            description = description;
            source_reference = some (dataset_reference previous.id);
          }
            ∷ [];
      readiness = readiness;
      catalogued_by = catalogued_by;
      created_at = clock 1;
    },
    dataset_revised new_id previous.tenant_id (previous.version + 1) previous.id,
  )

  -- `Dataset.mark_superseded`
  unfoldable pub mark_superseded : Dataset V → Dataset V
  mark_superseded d = record d { status = superseded }

pub record PredictorVariable (V : Type 0) : Type 0 where
  pub id : ℕ
  pub tenant_id : Option ℕ
  pub name : String
  pub code : String
  pub category : VariableCategory
  pub variable_role : VariableRole
  pub data_type : VariableDataType
  pub unit : String
  pub value_min : Option V
  pub value_max : Option V
  pub is_required_for_mlr : Bool
  pub linked_dataset_id : Option ℕ
  pub is_active : Bool
  pub created_by : String
  pub created_at : ℕ

module _ {V : Type 0} where
  -- `PredictorVariable.register`, on a variable with all fields but the three that it sets.
  unfoldable pub register_variable : ℕ → ℕ → PredictorVariable V → PredictorVariable V × Event
  register_variable new_id now v = (
    record v { id = new_id; is_active = true; created_at = now },
    predictor_variable_registered new_id v.tenant_id v.name v.category,
  )

  -- `PredictorVariable.deactivate`
  unfoldable pub deactivate_variable : PredictorVariable V → PredictorVariable V
  deactivate_variable v = record v { is_active = false }

pub record VariableSelection : Type 0 where
  pub id : ℕ
  pub tenant_id : ℕ
  pub name : String
  pub hazard_type : Option String
  pub selected_variable_ids : List ℕ
  pub status : VariableSelectionStatus
  pub created_by : String
  pub created_at : ℕ

-- `VariableSelection.create`
unfoldable pub create_selection :
    ℕ → ℕ → ℕ → String → Option String → List ℕ → String → Result (VariableSelection × Event)
create_selection new_id now tenant_id name hazard_type [] created_by =
    err invalid_variable_selection
create_selection new_id now tenant_id name hazard_type (v ∷ vs) created_by = ok (
  record {
    id = new_id;
    tenant_id = tenant_id;
    name = name;
    hazard_type = hazard_type;
    selected_variable_ids = v ∷ vs;
    status = draft;
    created_by = created_by;
    created_at = now;
  },
  variable_selection_created new_id tenant_id name (length (v ∷ vs)),
)

-- `VariableSelection.confirm`
unfoldable pub confirm : VariableSelection → VariableSelection × Event
confirm s = (record s { status = confirmed }, variable_selection_confirmed s.id s.tenant_id)
