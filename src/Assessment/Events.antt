-- ===== src/Assessment/Events.antt =====
-- contexts/assessment/domain/events.py: an event is its payload; ids and enum members stand for
-- the strings that `payload()` has for them.
use novaapi.Common.{ℕ, String, Option, List}
use novaapi.Assessment.Types.{AssessmentStatus, HazardType}
use novaapi.Assessment.Stage.{StageType}

pub data Event : Type 0 where
  -- assessment, tenant, hazard type, name, created by
  assessment_created : ℕ → ℕ → HazardType → String → ℕ → Event
  -- assessment, tenant, from, to, changed by
  assessment_stage_advanced : ℕ → ℕ → AssessmentStatus → AssessmentStatus → String → Event
  -- assessment, tenant, archived by
  assessment_archived : ℕ → ℕ → String → Event
  -- assessment, tenant, reason, cancelled by
  assessment_cancelled : ℕ → ℕ → String → String → Event
  -- template, hazard type, name, version, stage types
  workflow_template_created : ℕ → HazardType → String → ℕ → List StageType → Event
  workflow_template_published : ℕ → Event
  -- assessment, tenant, template, stage types, started by
  workflow_started : ℕ → ℕ → ℕ → List StageType → String → Event
  -- assessment, tenant, stage, attempt, triggered by
  stage_execution_started : ℕ → ℕ → StageType → ℕ → String → Event
  -- assessment, tenant, stage, result
  stage_execution_completed : ℕ → ℕ → StageType → Option String → Event
  -- assessment, tenant, stage, attempt, error
  stage_execution_failed : ℕ → ℕ → StageType → ℕ → String → Event

-- `event_type`
unfoldable pub event_type : Event → String
event_type (assessment_created a t h n c) = "assessment.AssessmentCreated"
event_type (assessment_stage_advanced a t f s c) = "assessment.AssessmentStageAdvanced"
event_type (assessment_archived a t c) = "assessment.AssessmentArchived"
event_type (assessment_cancelled a t r c) = "assessment.AssessmentCancelled"
event_type (workflow_template_created w h n v s) = "assessment.WorkflowTemplateCreated"
event_type (workflow_template_published w) = "assessment.WorkflowTemplatePublished"
event_type (workflow_started a t w s c) = "assessment.WorkflowStarted"
event_type (stage_execution_started a t s n c) = "assessment.StageExecutionStarted"
event_type (stage_execution_completed a t s r) = "assessment.StageExecutionCompleted"
event_type (stage_execution_failed a t s n e) = "assessment.StageExecutionFailed"
