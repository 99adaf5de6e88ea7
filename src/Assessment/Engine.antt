-- ===== src/Assessment/Engine.antt =====
-- contexts/assessment/application/workflow_engine.py. The engine opens one session for each command
-- and goes on from the tables that the command left. What the stage executor answers and what the
-- clock shows are a parameter. `execute_stage` calls itself through the reactions to its outcome,
-- so it takes fuel; the reactions take it as a function.
mod Tests
pub mod Budget
pub mod Moves
pub mod Ends
pub mod Dispatch
pub mod Termination
use novaapi.Common.{
  ℕ, zero, suc, String, Bool, true, false, Option, none, some, List, [], ◌∷◌, filter, ltb, ◌==◌,
  not, if◌then◌else◌,
}
use novaapi.Common.Table.{find}
use novaapi.Common.Text.{is_empty}
use novaapi.Errors.{Result, ok, err, assessment_not_found, out_of_fuel}
use novaapi.Session.{in_session}
use novaapi.Assessment.Stage.{StageType, StageDefinition, automatic, manual, get, all_complete}
use novaapi.Assessment.Entity.{Assessment}
use novaapi.Assessment.Template.{
  WorkflowTemplate, required_stage_types, runnable_stages, get_stage_definition, may_start,
}
use novaapi.Assessment.Database.{Db, assessment_key, template_key}
use novaapi.Assessment.Handlers.{
  Clock, start_workflow_command, execute_stage_command, record_stage_completion,
  record_stage_failure, advance_assessment,
}

pub record StageExecutionOutcome : Type 0 where
  pub success : Bool
  pub stage_result_ref : Option String
  pub error : Option String

-- The clock of a session that begins at the given tables, and `StageExecutor.execute`.
pub record Env : Type 0 where
  pub clock : Db → Clock
  pub execute : Db → StageType → ℕ → StageExecutionOutcome

abbrev pub system_actor : String
system_actor = "system:workflow-engine"

abbrev pub Outcome : Type 0
Outcome = Result (Unit {0}) × Db

-- `execute_stage` as the reactions call it.
abbrev pub Executor : Type 0
Executor = StageType → Db → Outcome

-- Goes on where the step before did not raise.
abbrev pub then_run : {A : Type 0} → Result A × Db → (Db → Outcome) → Outcome
then_run o k = let (r, db) = o in elim r [ ok u ↦ k db | err e ↦ (err e, db) ]

-- `outcome.error or "stage execution failed"`
abbrev pub error_text : Option String → String
error_text none = "stage execution failed"
error_text (some s) = if is_empty s then "stage execution failed" else s

-- `sd.trigger_mode is TriggerMode.AUTOMATIC`
unfoldable pub is_automatic : StageDefinition → Bool
is_automatic sd = elim sd.trigger_mode [ automatic ↦ true | manual ↦ false ]

module _ (env : Env) (tenant_id assessment_id : ℕ) where
  abbrev bound : Db → Option ℕ → Option WorkflowTemplate
  bound db none = none
  bound db (some t) = find template_key t db.templates

  abbrev loaded : Db → Option Assessment → Result (Assessment × Option WorkflowTemplate)
  loaded db none = err assessment_not_found
  loaded db (some a) =
      if not (a.tenant_id == tenant_id)
      then err assessment_not_found
      else ok (a, bound db a.workflow_template_id)

  -- `_load_assessment_and_template`
  unfoldable pub load_assessment_and_template : Db → Result (Assessment × Option WorkflowTemplate)
  load_assessment_and_template db = loaded db (find assessment_key assessment_id db.assessments)

  -- One round of the loop of `_dispatch_runnable_stages`: the status is read again.
  unfoldable pub dispatch_one : Executor → StageType → Db → Outcome
  unfolding may_start load_assessment_and_template
  dispatch_one exec st db = elim (load_assessment_and_template db) [
    | err e ↦ (err e, db)
    | ok (a, t) ↦ elim (may_start (get a.workflow_progress st).status) [
      | true ↦ exec st db
      | false ↦ (ok tt, db)
    ]
  ]

  unfoldable pub dispatch_each : Executor → List StageDefinition → Db → Outcome
  unfolding dispatch_one
  dispatch_each exec [] db = (ok tt, db)
  dispatch_each exec (sd ∷ sds) db =
      then_run (dispatch_one exec sd.stage_type db) (dispatch_each exec sds)

  unfoldable pub dispatch_runnable_stages : Executor → Db → Outcome
  unfolding dispatch_each load_assessment_and_template runnable_stages is_automatic
  dispatch_runnable_stages exec db = elim (load_assessment_and_template db) [
    | err e ↦ (err e, db)
    | ok (a, none) ↦ (ok tt, db)
    | ok (a, some t) ↦
        dispatch_each exec
          (filter is_automatic (runnable_stages t.stage_definitions a.workflow_progress)) db
  ]

  unfoldable pub on_stage_completed : Executor → Db → Outcome
  unfolding dispatch_runnable_stages load_assessment_and_template
  on_stage_completed exec db = elim (load_assessment_and_template db) [
    | err e ↦ (err e, db)
    | ok (a, none) ↦ (ok tt, db)
    | ok (a, some t) ↦
        elim (all_complete a.workflow_progress (required_stage_types t.stage_definitions)) [
          | true ↦
              then_run
                (in_session (advance_assessment tenant_id assessment_id system_actor (env.clock db))
                  db)
                (λ db'. (ok tt, db'))
          | false ↦ dispatch_runnable_stages exec db
        ]
  ]

  -- `stage_def is not None and entry.attempt_count < stage_def.max_attempts`
  unfoldable pub may_retry : Option StageDefinition → ℕ → Bool
  may_retry none attempts = false
  may_retry (some sd) attempts = ltb attempts sd.max_attempts

  unfoldable pub on_stage_failed : Executor → StageType → Db → Outcome
  unfolding load_assessment_and_template may_retry
  on_stage_failed exec st db = elim (load_assessment_and_template db) [
    | err e ↦ (err e, db)
    | ok (a, none) ↦ (ok tt, db)
    | ok (a, some t) ↦
        elim (may_retry (get_stage_definition t.stage_definitions st)
          (get a.workflow_progress st).attempt_count) [ true ↦ exec st db | false ↦ (ok tt, db) ]
  ]

  -- The second half of `execute_stage`: the outcome is recorded, and reacted to.
  unfoldable pub record_outcome : Executor → StageType → StageExecutionOutcome → Db → Outcome
  unfolding on_stage_completed on_stage_failed
  record_outcome exec st outcome db = elim outcome.success [
    | true ↦
        then_run
          (in_session
            (record_stage_completion tenant_id assessment_id st outcome.stage_result_ref
              (env.clock db))
            db)
          (on_stage_completed exec)
    | false ↦
        then_run
          (in_session
            (record_stage_failure tenant_id assessment_id st (error_text outcome.error)
              (env.clock db))
            db)
          (on_stage_failed exec st)
  ]

  unfoldable pub execute_stage : ℕ → String → Executor
  unfolding record_outcome
  execute_stage zero actor st db = (err out_of_fuel, db)
  execute_stage (suc fuel) actor st db =
      then_run
        (in_session (execute_stage_command tenant_id assessment_id st actor (env.clock db)) db)
        (λ db'.
          record_outcome (execute_stage fuel system_actor) st (env.execute db' st assessment_id)
            db')

  unfoldable pub start_workflow : ℕ → ℕ → String → Db → Outcome
  unfolding execute_stage dispatch_runnable_stages
  start_workflow fuel template_id actor db =
      then_run
        (in_session
          (start_workflow_command tenant_id assessment_id template_id actor (env.clock db)) db)
        (dispatch_runnable_stages (execute_stage fuel system_actor))
