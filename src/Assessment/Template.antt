-- ===== src/Assessment/Template.antt =====
-- contexts/assessment/domain/workflow_template.py: a workflow template, the check that its stages
-- form an acyclic graph, and the stages that may run next.
pub mod Dag
pub mod Cycle
pub mod Acyclic
pub mod Progress
use novaapi.Common.{
  ℕ, suc, zero, String, Bool, true, false, ◌&&◌, Option, none, some, List, [], ◌∷◌, map, all,
  filter, length, if◌then◌else◌,
}
use novaapi.Common.Text.{is_blank}
use novaapi.Errors.{
  Result, ok, err, value_error, unknown_stage_predecessor, cyclic_workflow_template,
  illegal_workflow_template_status_transition,
}
use novaapi.Assessment.Types.{HazardType}
use novaapi.Assessment.Stage.{
  StageType, same_stage, StageSet, contains, StageDefinition, StageExecutionStatus, not_started,
  failed, WorkflowProgress, get, all_complete,
}

pub data WorkflowTemplateStatus : Type 0 where
  draft published deprecated : WorkflowTemplateStatus

pub record WorkflowTemplate : Type 0 where
  pub id : ℕ
  pub hazard_type : HazardType
  pub name : String
  pub version : ℕ
  pub status : WorkflowTemplateStatus
  pub stage_definitions : List StageDefinition
  pub created_at : ℕ

abbrev pub stage_type_of : StageDefinition → StageType
stage_type_of sd = sd.stage_type

-- `WorkflowTemplate.required_stage_types`; also the set `known` of `_validate_dag`.
unfoldable pub required_stage_types : List StageDefinition → StageSet
required_stage_types sds = map stage_type_of sds

-- `a <= b` on sets.
unfoldable pub subset : StageSet → StageSet → Bool
subset a b = all (contains b) a

-- The first loop of `_validate_dag`: every predecessor is a stage of the template.
unfoldable pub predecessors_known : StageSet → List StageDefinition → Bool
unfolding subset
predecessors_known known [] = true
predecessors_known known (sd ∷ sds) =
    subset sd.required_predecessors known && predecessors_known known sds

-- The dict `remaining`: a stage and the predecessors that it waits for.
abbrev pub Remaining : Type 0
Remaining = List (StageType × StageSet)

-- `remaining[st] = preds`: a later definition of a stage takes the place of an earlier one.
unfoldable pub set_item : StageType → StageSet → Remaining → Remaining
set_item st preds [] = (st, preds) ∷ []
set_item st preds ((k, v) ∷ r) =
    if same_stage k st then (k, preds) ∷ r else (k, v) ∷ set_item st preds r

-- The dict comprehension that starts `remaining`.
unfoldable remaining_from : Remaining → List StageDefinition → Remaining
unfolding set_item
remaining_from r [] = r
remaining_from r (sd ∷ sds) = remaining_from (set_item sd.stage_type sd.required_predecessors r) sds

unfoldable pub remaining_of : List StageDefinition → Remaining
unfolding remaining_from
remaining_of sds = remaining_from [] sds

-- One run of the `for` loop: what remains, what is resolved, and whether anything was.
unfoldable pub resolve_pass : Remaining → StageSet → Remaining × StageSet × Bool
unfolding subset
resolve_pass [] resolved = ([], resolved, false)
resolve_pass ((st, preds) ∷ r) resolved =
    let now = subset preds resolved in
    let (rest, resolved', progressed) = resolve_pass r (if now then st ∷ resolved else resolved) in
    if now then (rest, resolved', true) else ((st, preds) ∷ rest, resolved', progressed)

-- The `while remaining and progressed` loop; what remains at its end.
unfoldable pub resolve_loop : ℕ → Remaining → StageSet → Option Remaining
unfolding resolve_pass
resolve_loop zero r resolved = none
resolve_loop (suc fuel) [] resolved = some []
resolve_loop (suc fuel) (x ∷ r) resolved =
    let (rest, resolved', progressed) = resolve_pass (x ∷ r) resolved in
    let more = resolve_loop fuel rest resolved' in if progressed then more else some rest

-- What `_validate_dag` concludes from the end of its loop.
abbrev pub dag_verdict : Option Remaining → Result (Unit {0})
dag_verdict (some []) = ok tt
dag_verdict _ = err cyclic_workflow_template

unfoldable pub validate_dag : List StageDefinition → Result (Unit {0})
unfolding predecessors_known required_stage_types
validate_dag sds =
    if predecessors_known (required_stage_types sds) sds
    then (let r = remaining_of sds in dag_verdict (resolve_loop (suc (length r)) r []))
    else err unknown_stage_predecessor

-- `not stage_definitions`
abbrev is_nil : List StageDefinition → Bool
is_nil [] = true
is_nil (sd ∷ sds) = false

abbrev and_then : {A : Type 0} → Result (Unit {0}) → A → Result A
and_then (ok u) a = ok a
and_then (err e) a = err e

-- `WorkflowTemplate.create`, with the new id and the time.
unfoldable pub create :
    ℕ → ℕ → HazardType → String → List StageDefinition → ℕ → Result WorkflowTemplate
create new_id now hazard_type name sds version =
    if is_blank name
    then err value_error
    else if is_nil sds
    then err value_error
    else and_then (validate_dag sds) (record {
      id = new_id;
      hazard_type = hazard_type;
      name = name;
      version = version;
      status = draft;
      stage_definitions = sds;
      created_at = now;
    })

-- The loop of `get_stage_definition`.
unfoldable pub get_stage_definition : List StageDefinition → StageType → Option StageDefinition
get_stage_definition [] st = none
get_stage_definition (sd ∷ sds) st =
    if same_stage sd.stage_type st then some sd else get_stage_definition sds st

-- `status in (NOT_STARTED, FAILED)`
unfoldable pub may_start : StageExecutionStatus → Bool
may_start not_started = true
may_start failed = true
may_start _ = false

-- The loop of `runnable_stages`.
unfoldable pub runnable_stages : List StageDefinition → WorkflowProgress → List StageDefinition
unfolding may_start
runnable_stages sds progress =
    filter
      (λ sd.
        may_start (get progress sd.stage_type).status
        && all_complete progress sd.required_predecessors)
      sds

-- `WorkflowTemplate.publish`
abbrev publish_from : WorkflowTemplateStatus → WorkflowTemplate → Result WorkflowTemplate
publish_from draft t = ok (record t { status = published })
publish_from _ t = err illegal_workflow_template_status_transition

unfoldable pub publish : WorkflowTemplate → Result WorkflowTemplate
publish t = publish_from t.status t
