-- ===== src/Assessment/Entity.antt =====
-- contexts/assessment/domain/entities.py: the Assessment aggregate. A method that mutates the
-- object returns the new record and its events; what `datetime.now` and `AssessmentId.new` return
-- is an argument.
pub mod Lifecycle
pub mod Workflow
pub mod History
use novaapi.Common.{ℕ, String, Bool, true, false, Option, none, some, if◌then◌else◌}
use novaapi.Common.Text.{is_blank}
use novaapi.Errors.{
  Result, ok, err, value_error, illegal_assessment_status_transition,
  illegal_stage_execution_transition, workflow_not_complete,
}
use novaapi.Assessment.Types.{
  AssessmentStatus, draft, ready, running, validated, reported, archived, cancelled, HazardType,
  legal, is_running,
}
use novaapi.Assessment.Stage.{
  StageType, StageSet, sorted_stages, StageExecutionStatus, StageProgressEntry, advance_to,
  WorkflowProgress, no_progress, get, with_entry, all_complete, initialize,
}
use novaapi.Assessment.Events.{
  Event, assessment_created, assessment_stage_advanced, assessment_archived, assessment_cancelled,
  workflow_started, stage_execution_started, stage_execution_completed, stage_execution_failed,
}

pub record Assessment : Type 0 where
  pub id : ℕ
  pub tenant_id : ℕ
  pub name : String
  pub hazard_type : HazardType
  pub status : AssessmentStatus
  pub created_by : ℕ
  pub created_at : ℕ
  pub updated_at : ℕ
  pub cancellation_reason : String
  pub version : ℕ
  pub workflow_template_id : Option ℕ
  pub workflow_progress : WorkflowProgress

unfoldable pub create : ℕ → ℕ → ℕ → String → HazardType → ℕ → Result (Assessment × Event)
create new_id now tenant_id name hazard_type created_by =
    if is_blank name
    then err value_error
    else ok (
      record {
        id = new_id;
        tenant_id = tenant_id;
        name = name;
        hazard_type = hazard_type;
        status = draft;
        created_by = created_by;
        created_at = now;
        updated_at = now;
        cancellation_reason = "";
        version = 0;
        workflow_template_id = none;
        workflow_progress = no_progress;
      },
      assessment_created new_id tenant_id hazard_type name created_by,
    )

-- `_transition`
unfoldable pub transition : Assessment → AssessmentStatus → String → ℕ → Result (Assessment × Event)
unfolding legal
transition a new_status changed_by now =
    if legal a.status new_status
    then ok (
      record a { status = new_status; updated_at = now },
      assessment_stage_advanced a.id a.tenant_id a.status new_status changed_by,
    )
    else err illegal_assessment_status_transition

unfoldable pub mark_ready : Assessment → String → ℕ → Result (Assessment × Event)
unfolding transition
mark_ready a changed_by now = transition a ready changed_by now

unfoldable pub start : Assessment → String → ℕ → Result (Assessment × Event)
unfolding transition
start a changed_by now = transition a running changed_by now

unfoldable pub mark_validated : Assessment → String → ℕ → Result (Assessment × Event)
unfolding transition
mark_validated a changed_by now = transition a validated changed_by now

unfoldable pub mark_reported : Assessment → String → ℕ → Result (Assessment × Event)
unfolding transition
mark_reported a changed_by now = transition a reported changed_by now

unfoldable pub archive : Assessment → String → ℕ → Result (Assessment × Event)
unfolding legal
archive a archived_by now =
    if legal a.status archived
    then ok (
      record a { status = archived; updated_at = now },
      assessment_archived a.id a.tenant_id archived_by,
    )
    else err illegal_assessment_status_transition

unfoldable pub cancel : Assessment → String → String → ℕ → Result (Assessment × Event)
unfolding legal
cancel a reason cancelled_by now =
    if legal a.status cancelled
    then (if is_blank reason
        then err value_error
        else ok (
          record a { status = cancelled; cancellation_reason = reason; updated_at = now },
          assessment_cancelled a.id a.tenant_id reason cancelled_by,
        ))
    else err illegal_assessment_status_transition

unfoldable pub is_terminal : Assessment → Bool
is_terminal a = elim a.status [ archived ↦ true | cancelled ↦ true | _ ↦ false ]

-- The two events of `start_workflow`, around the transition that it shares with `start`.
abbrev bind_workflow :
    ℕ → StageSet → String → Result (Assessment × Event) → Result (Assessment × Event × Event)
bind_workflow template_id stage_types changed_by (ok (a, transition_event)) = ok (
  record a {
    workflow_template_id = some template_id;
    workflow_progress = initialize template_id stage_types;
  },
  transition_event,
  workflow_started a.id a.tenant_id template_id (sorted_stages stage_types) changed_by,
)
bind_workflow template_id stage_types changed_by (err e) = err e

unfoldable pub start_workflow :
    Assessment → ℕ → StageSet → String → ℕ → Result (Assessment × Event × Event)
unfolding transition
start_workflow a template_id stage_types changed_by now =
    bind_workflow template_id stage_types changed_by (transition a running changed_by now)

-- `except ValueError`, and the assignments behind the `try`.
abbrev store_entry :
    Assessment
    → (StageProgressEntry → Event)
    → ℕ
    → Result StageProgressEntry
    → Result (Assessment × Event)
store_entry a event now (ok entry) = ok (
  record a { workflow_progress = with_entry a.workflow_progress entry; updated_at = now },
  event entry,
)
store_entry a event now (err e) = err illegal_stage_execution_transition

-- The two clock readings are the one of the entry and the one of `updated_at`.
unfoldable pub start_stage : Assessment → StageType → String → ℕ → ℕ → Result (Assessment × Event)
unfolding is_running
start_stage a stage_type triggered_by now later =
    if is_running a.status
    then store_entry a
        (λ e. stage_execution_started a.id a.tenant_id stage_type e.attempt_count triggered_by)
        later
        (advance_to (get a.workflow_progress stage_type) StageExecutionStatus.running now none none)
    else err illegal_assessment_status_transition

unfoldable pub complete_stage :
    Assessment → StageType → Option String → ℕ → ℕ → Result (Assessment × Event)
unfolding is_running
complete_stage a stage_type stage_result_ref now later =
    if is_running a.status
    then store_entry a (λ e. stage_execution_completed a.id a.tenant_id stage_type stage_result_ref)
        later
        (advance_to (get a.workflow_progress stage_type) StageExecutionStatus.complete now
          stage_result_ref none)
    else err illegal_assessment_status_transition

unfoldable pub fail_stage : Assessment → StageType → String → ℕ → ℕ → Result (Assessment × Event)
unfolding is_running
fail_stage a stage_type error now later =
    if is_running a.status
    then store_entry a
        (λ e. stage_execution_failed a.id a.tenant_id stage_type e.attempt_count error) later
        (advance_to (get a.workflow_progress stage_type) StageExecutionStatus.failed now none
          (some error))
    else err illegal_assessment_status_transition

unfoldable pub advance_past_running :
    Assessment → StageSet → String → ℕ → Result (Assessment × Event)
unfolding transition
advance_past_running a required_stage_types changed_by now =
    if all_complete a.workflow_progress required_stage_types
    then transition a validated changed_by now
    else err workflow_not_complete
