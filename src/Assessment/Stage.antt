-- ===== src/Assessment/Stage.antt =====
-- contexts/assessment/domain/workflow_value_objects.py: the stages of a workflow and the progress
-- that an assessment keeps of them.
pub mod Laws
use novaapi.Common.{
  ℕ, ◌+◌, String, ◌≡◌, refl, Bool, true, false, not, Option, none, some, List, [], ◌∷◌, ◌++◌, map,
  ap, ◌↔◌, all, any, filter, ◌==◌, ==_iff, if◌then◌else◌, ltb,
}
use novaapi.Errors.{Result, ok, err, value_error}

pub data StageType : Type 0 where
  hazard exposure vulnerability risk resilience validation : StageType
  fire_regime burn_occurrence_probability burn_severity : StageType

-- The position of a stage in the order of its string value.
unfoldable pub stage_rank : StageType → ℕ
stage_rank burn_occurrence_probability = 0
stage_rank burn_severity = 1
stage_rank exposure = 2
stage_rank fire_regime = 3
stage_rank hazard = 4
stage_rank resilience = 5
stage_rank risk = 6
stage_rank validation = 7
stage_rank vulnerability = 8

-- `a == b` on stage types.
unfoldable pub same_stage : StageType → StageType → Bool
unfolding stage_rank
same_stage a b = stage_rank a == stage_rank b

-- All stages, sorted as strings.
abbrev pub stages_by_name : List StageType
stages_by_name =
    burn_occurrence_probability ∷ burn_severity ∷ exposure ∷ fire_regime ∷ hazard ∷ resilience
    ∷ risk ∷ validation ∷ vulnerability ∷ []

-- A `frozenset[StageType]` is a list that is only asked for its members.
abbrev pub StageSet : Type 0
StageSet = List StageType

-- `st in stage_types`
unfoldable pub contains : StageSet → StageType → Bool
contains s st = any (same_stage st) s

-- `sorted(stage_types, key=str)`
unfoldable pub sorted_stages : StageSet → List StageType
unfolding contains same_stage
sorted_stages s = filter (contains s) stages_by_name

pub data TriggerMode : Type 0 where
  automatic manual : TriggerMode

pub data StageExecutionStatus : Type 0 where
  not_started running complete failed : StageExecutionStatus

-- `_STAGE_LEGAL_TRANSITIONS`: whether the second status may follow the first.
unfoldable pub stage_legal : StageExecutionStatus → StageExecutionStatus → Bool
stage_legal not_started running = true
stage_legal running complete = true
stage_legal running failed = true
stage_legal failed running = true
stage_legal _ _ = false

pub record StageDefinition : Type 0 where
  pub stage_type : StageType
  pub required_predecessors : StageSet
  pub trigger_mode : TriggerMode
  pub max_attempts : ℕ

-- `StageDefinition.__post_init__`. The field is an `int`; the model has no negative ones, which the
-- second test rejects along with 0.
unfoldable pub define_stage : StageDefinition → Result StageDefinition
define_stage sd =
    if contains sd.required_predecessors sd.stage_type
    then err value_error
    else if ltb sd.max_attempts 1
    then err value_error
    else ok sd

pub record StageProgressEntry : Type 0 where
  pub stage_type : StageType
  pub status : StageExecutionStatus
  pub attempt_count : ℕ
  pub stage_result_ref : Option String
  pub started_at : Option ℕ
  pub completed_at : Option ℕ
  pub last_error : Option String

-- `StageProgressEntry(stage_type=st)`
unfoldable pub fresh_entry : StageType → StageProgressEntry
fresh_entry st = record {
  stage_type = st;
  status = not_started;
  attempt_count = 0;
  stage_result_ref = none;
  started_at = none;
  completed_at = none;
  last_error = none;
}

-- What `advance_to` builds once the transition is known to be legal.
replace_status :
    StageProgressEntry
    → StageExecutionStatus
    → ℕ
    → Option String
    → Option String
    → StageProgressEntry
replace_status e running now ref error = record e {
  status = running;
  attempt_count = e.attempt_count + 1;
  started_at = some now;
  last_error = none;
}
replace_status e complete now ref error = record e {
  status = complete;
  completed_at = some now;
  stage_result_ref = ref;
}
replace_status e new_status now ref error = record e { status = new_status; last_error = error }

unfoldable pub advance_to :
    StageProgressEntry
    → StageExecutionStatus
    → ℕ
    → Option String
    → Option String
    → Result StageProgressEntry
unfolding stage_legal replace_status
advance_to e new_status now ref error =
    if stage_legal e.status new_status
    then ok (replace_status e new_status now ref error)
    else err value_error

pub record WorkflowProgress : Type 0 where
  pub workflow_template_id : Option ℕ
  pub entries : List StageProgressEntry

abbrev pub no_progress : WorkflowProgress
no_progress = record { workflow_template_id = none; entries = [] }

-- The loop of `get`.
unfoldable pub get_entry : List StageProgressEntry → StageType → StageProgressEntry
unfolding fresh_entry
get_entry [] st = fresh_entry st
get_entry (e ∷ es) st = if same_stage e.stage_type st then e else get_entry es st

unfoldable pub get : WorkflowProgress → StageType → StageProgressEntry
unfolding get_entry same_stage
get p st = get_entry p.entries st

unfoldable pub with_entry : WorkflowProgress → StageProgressEntry → WorkflowProgress
unfolding same_stage
with_entry p entry = record p {
  entries = filter (λ e. not (same_stage e.stage_type entry.stage_type)) p.entries ++ entry ∷ [];
}

abbrev pub is_complete_status : StageExecutionStatus → Bool
is_complete_status complete = true
is_complete_status _ = false

unfoldable pub is_complete : WorkflowProgress → StageType → Bool
is_complete p st = is_complete_status (get p st).status

unfoldable pub all_complete : WorkflowProgress → StageSet → Bool
unfolding is_complete
all_complete p stage_types = all (is_complete p) stage_types

unfoldable pub initialize : ℕ → StageSet → WorkflowProgress
unfolding sorted_stages fresh_entry
initialize workflow_template_id stage_types = record {
  workflow_template_id = some workflow_template_id;
  entries = map fresh_entry (sorted_stages stage_types);
}
