-- ===== src/Assessment/Handlers.antt =====
-- contexts/assessment/application/handlers.py and workflow_handlers.py: one transaction for each
-- command. The argument `clock` gives what `datetime.now` returns, reading by reading, in the
-- transaction; ids are parsed.
pub mod Atomic
pub mod Commands
pub mod Advance
pub mod Seen
mod Tests
pub mod Tenancy
use novaapi.Common.{
  ℕ, String, Bool, true, false, not, Option, none, some, List, [], ◌∷◌, map, ◌==◌, if◌then◌else◌,
}
use novaapi.Errors.{
  Error, Result, ok, err, assessment_not_found, workflow_template_not_found, guard_error,
}
use novaapi.Session.{Exec, Session, pure, raise, lift, commit, gets, modify, ◌>>=◌, ◌>>◌}
use novaapi.Assessment.Types.{HazardType, same_hazard}
use novaapi.Assessment.Stage.{StageType, StageDefinition, define_stage}
use novaapi.Assessment.Events.{Event, workflow_template_created, workflow_template_published}
use novaapi.Assessment.Entity.{
  Assessment, create, mark_ready, start, mark_validated, mark_reported, archive, cancel,
  start_workflow, start_stage, complete_stage, fail_stage, advance_past_running,
}
use novaapi.Assessment.Template.{
  WorkflowTemplate, WorkflowTemplateStatus, published, required_stage_types, publish, stage_type_of,
}
use novaapi.Assessment.Template
use novaapi.Assessment.Database.{
  Db, assessment, workflow_template, get_by_id, save, get_template, save_template, append,
}

abbrev pub Clock : Type 0
Clock = ℕ → ℕ

-- `_assert_same_tenant` on what was loaded: another tenant's assessment is not found.
abbrev visible : ℕ → Option Assessment → Result Assessment
visible tenant_id none = err assessment_not_found
visible tenant_id (some a) =
    if not (a.tenant_id == tenant_id) then err assessment_not_found else ok a

unfoldable pub load_or_404 : ℕ → ℕ → Exec Db Assessment
load_or_404 assessment_id tenant_id = do
  found ← get_by_id assessment_id
  lift (visible tenant_id found)

-- What every handler of a method with one event does around the call of the method.
unfoldable pub transact :
    ℕ → ℕ → (Assessment → Result (Assessment × Event)) → ℕ → Exec Db Assessment
unfolding load_or_404 save append
transact tenant_id assessment_id method appended = do
  a ← load_or_404 assessment_id tenant_id
  (b, event) ← lift (method a)
  save b (some b.version)
  append (assessment b.id) event (some tenant_id) appended
  commit
  pure b

unfoldable pub create_assessment : ℕ → ℕ → String → HazardType → ℕ → Clock → Exec Db Assessment
unfolding create save append
create_assessment new_id tenant_id name hazard_type created_by clock = do
  (a, event) ← lift (create new_id (clock 0) tenant_id name hazard_type created_by)
  save a none
  append (assessment a.id) event (some tenant_id) (clock 1)
  commit
  pure a

unfoldable pub mark_assessment_ready : ℕ → ℕ → String → Clock → Exec Db Assessment
unfolding transact
mark_assessment_ready tenant_id assessment_id changed_by clock =
    transact tenant_id assessment_id (λ a. mark_ready a changed_by (clock 0)) (clock 1)

unfoldable pub start_assessment : ℕ → ℕ → String → Clock → Exec Db Assessment
unfolding transact
start_assessment tenant_id assessment_id changed_by clock =
    transact tenant_id assessment_id (λ a. start a changed_by (clock 0)) (clock 1)

unfoldable pub validate_assessment : ℕ → ℕ → String → Clock → Exec Db Assessment
unfolding transact
validate_assessment tenant_id assessment_id changed_by clock =
    transact tenant_id assessment_id (λ a. mark_validated a changed_by (clock 0)) (clock 1)

unfoldable pub report_assessment : ℕ → ℕ → String → Clock → Exec Db Assessment
unfolding transact
report_assessment tenant_id assessment_id changed_by clock =
    transact tenant_id assessment_id (λ a. mark_reported a changed_by (clock 0)) (clock 1)

unfoldable pub archive_assessment : ℕ → ℕ → String → Clock → Exec Db Assessment
unfolding transact
archive_assessment tenant_id assessment_id archived_by clock =
    transact tenant_id assessment_id (λ a. archive a archived_by (clock 0)) (clock 1)

unfoldable pub cancel_assessment : ℕ → ℕ → String → String → Clock → Exec Db Assessment
unfolding transact
cancel_assessment tenant_id assessment_id reason cancelled_by clock =
    transact tenant_id assessment_id (λ a. cancel a reason cancelled_by (clock 0)) (clock 1)

-- `_stage_definitions_from_dicts`: the constructor of each definition may raise.
unfoldable pub define_stages : List StageDefinition → Result (List StageDefinition)
define_stages [] = ok []
define_stages (sd ∷ sds) =
    let rest = define_stages sds in
    elim (define_stage sd) [
      | ok d ↦ elim rest [ ok ds ↦ ok (d ∷ ds) | err e ↦ err e ]
      | err e ↦ err e
    ]

unfoldable pub create_workflow_template :
    ℕ → HazardType → String → List StageDefinition → Clock → Exec Db WorkflowTemplate
unfolding save_template append
create_workflow_template new_id hazard_type name raw clock = do
  sds ← lift (define_stages raw)
  t ← lift (Template.create new_id (clock 0) hazard_type name sds 1)
  save_template t
  append (workflow_template t.id)
      (workflow_template_created t.id hazard_type name t.version (map stage_type_of sds)) none
      (clock 1)
  commit
  pure t

-- `if template is None: raise WorkflowTemplateNotFoundError`
abbrev template_or_404 : Option WorkflowTemplate → Result WorkflowTemplate
template_or_404 none = err workflow_template_not_found
template_or_404 (some t) = ok t

unfoldable pub publish_workflow_template : ℕ → Clock → Exec Db WorkflowTemplate
unfolding publish save_template append
publish_workflow_template template_id clock = do
  found ← get_template template_id
  t ← lift (template_or_404 found)
  t' ← lift (publish t)
  save_template t'
  append (workflow_template t'.id) (workflow_template_published t'.id) none (clock 0)
  commit
  pure t'

abbrev is_published : WorkflowTemplateStatus → Bool
is_published published = true
is_published _ = false

-- The guards of `StartWorkflowHandler`.
abbrev startable : Assessment → WorkflowTemplate → Result WorkflowTemplate
startable a t =
    if not (is_published t.status)
    then err guard_error
    else if not (same_hazard t.hazard_type a.hazard_type)
    then err guard_error
    else ok t

unfoldable pub start_workflow_command : ℕ → ℕ → ℕ → String → Clock → Exec Db Assessment
unfolding load_or_404 save append
start_workflow_command tenant_id assessment_id template_id actor clock = do
  a ← load_or_404 assessment_id tenant_id
  found ← get_template template_id
  t ← lift (template_or_404 found)
  lift (startable a t)
  (b, transition_event, started_event) ←
      lift (start_workflow a t.id (required_stage_types t.stage_definitions) actor (clock 0))
  save b (some b.version)
  append (assessment b.id) transition_event (some tenant_id) (clock 1)
  append (assessment b.id) started_event (some tenant_id) (clock 2)
  commit
  pure b

unfoldable pub execute_stage_command : ℕ → ℕ → StageType → String → Clock → Exec Db Assessment
unfolding transact
execute_stage_command tenant_id assessment_id stage_type actor clock =
    transact tenant_id assessment_id (λ a. start_stage a stage_type actor (clock 0) (clock 1))
      (clock 2)

unfoldable pub record_stage_completion :
    ℕ → ℕ → StageType → Option String → Clock → Exec Db Assessment
unfolding transact
record_stage_completion tenant_id assessment_id stage_type ref clock =
    transact tenant_id assessment_id (λ a. complete_stage a stage_type ref (clock 0) (clock 1))
      (clock 2)

unfoldable pub record_stage_failure : ℕ → ℕ → StageType → String → Clock → Exec Db Assessment
unfolding transact
record_stage_failure tenant_id assessment_id stage_type error clock =
    transact tenant_id assessment_id (λ a. fail_stage a stage_type error (clock 0) (clock 1))
      (clock 2)

-- `if assessment.workflow_template_id is None: raise GuardRejectedError`
abbrev bound_template : Option ℕ → Result ℕ
bound_template none = err guard_error
bound_template (some t) = ok t

unfoldable pub advance_assessment : ℕ → ℕ → String → Clock → Exec Db Assessment
unfolding load_or_404 save append
advance_assessment tenant_id assessment_id actor clock = do
  a ← load_or_404 assessment_id tenant_id
  template_id ← lift (bound_template a.workflow_template_id)
  found ← get_template template_id
  t ← lift (template_or_404 found)
  (b, event) ←
      lift (advance_past_running a (required_stage_types t.stage_definitions) actor (clock 0))
  save b (some b.version)
  append (assessment b.id) event (some tenant_id) (clock 1)
  commit
  pure b
