-- ===== src/Assessment/Engine/Tests.antt =====
-- Runs of the workflow engine and of the check of the stage graph.
use novaapi.Assessment.Tests.{in_status}
use novaapi.Common.{
  ◌≡◌, refl, ◌↔◌, true, false, Option, none, some, List, [], ◌∷◌, if◌then◌else◌, ltb, length,
}
use novaapi.Common.{◌≢◌, ◌≤◌, arith}
use novaapi.Errors.{out_of_fuel}
use novaapi.Assessment.Stage.{WorkflowProgress, fresh_entry, complete}
use novaapi.Assessment.Template.{may_start, runnable_stages}
use novaapi.Assessment.Template.Progress.{runnable_stages_live}
use novaapi.Assessment.Engine.{execute_stage}
use novaapi.Assessment.Engine.Ends.{left}
use novaapi.Assessment.Engine.Termination.{start_workflow_terminates, execute_stage_terminates}
use novaapi.Common.Table.{find, put}
use novaapi.Errors.{ok, err, cyclic_workflow_template}
use novaapi.Outbox.{append_event}
use novaapi.Assessment.Types.{
  AssessmentStatus, draft, ready, running, validated, reported, archived, cancelled, flood,
}
use novaapi.Assessment.Stage.{
  StageType, StageSet, contains, hazard, exposure, risk, StageDefinition, automatic, get,
  with_entry, same_stage, all_complete, initialize, advance_to,
}
use novaapi.Assessment.Entity.{
  Assessment, create, cancel, is_terminal, start_stage, complete_stage, fail_stage,
  advance_past_running, mark_ready, start,
}
use novaapi.Assessment.Database.{Db, aggregate_eq}
use novaapi.Assessment.Template.{
  WorkflowTemplate, published, validate_dag, remaining_of, resolve_loop, predecessors_known,
  required_stage_types,
}
use novaapi.Assessment.Template.Cycle.{IsCycle}
use novaapi.Assessment.Template.Acyclic.{validate_dag_iff}
use novaapi.Assessment.Engine.{Env, start_workflow}
use novaapi.Assessment.Handlers.{
  start_workflow_command, execute_stage_command, record_stage_completion, record_stage_failure,
  advance_assessment,
}

-- Two parallel stages and one that waits for both; the second stage fails once.
abbrev stage : StageType → List StageType → StageDefinition
stage st preds = record {
  stage_type = st;
  required_predecessors = preds;
  trigger_mode = automatic;
  max_attempts = 2;
}

abbrev diamond : WorkflowTemplate
diamond = record {
  id = 3;
  hazard_type = flood;
  name = "flood";
  version = 1;
  status = published;
  stage_definitions =
      stage hazard [] ∷ stage exposure [] ∷ stage risk (hazard ∷ exposure ∷ []) ∷ [];
  created_at = 1;
}

-- An executor that fails while the outbox is short, and so by the state of the tables.
abbrev env : Env
env = record {
  clock = λ db k. k;
  execute = λ db st id.
      if ltb (length db.outbox) 6
      then record { success = false; stage_result_ref = none; error = none }
      else record { success = true; stage_result_ref = some "done"; error = none };
}

abbrev bound_db : Db
bound_db = record { assessments = in_status ready ∷ []; templates = diamond ∷ []; outbox = [] }

abbrev final_status : List Assessment → Option AssessmentStatus
final_status [] = none
final_status (a ∷ rest) = some a.status

engine_run :
    let (r, db) = start_workflow env 1 7 12 3 "ana" bound_db in
    (r ≡ ok tt) × (final_status db.assessments ≡ some validated)
unfolding start_workflow start_workflow_command execute_stage_command record_stage_completion
    record_stage_failure advance_assessment find novaapi.Assessment.Types.same_hazard
    novaapi.Assessment.Entity.start_workflow put get initialize
    novaapi.Assessment.Template.required_stage_types all_complete start_stage advance_to
    append_event fail_stage with_entry novaapi.Assessment.Template.get_stage_definition
    complete_stage advance_past_running
engine_run = (refl, refl)

-- Two stages that wait for each other.
abbrev circle : List StageDefinition
circle = stage hazard (exposure ∷ []) ∷ stage exposure (hazard ∷ []) ∷ []

validate_dag_iff_example :
    (validate_dag circle ≡ ok tt)
    ↔ ((c : StageSet) (first : StageType) → ¬ IsCycle c first (remaining_of circle))
unfolding predecessors_known required_stage_types contains same_stage
validate_dag_iff_example = validate_dag_iff circle refl

circle_refused : validate_dag circle ≡ err cyclic_workflow_template
unfolding validate_dag contains same_stage resolve_loop remaining_of
circle_refused = refl

start_workflow_terminates_example : (start_workflow env 1 7 30 3 "ana" bound_db).0 ≢ err out_of_fuel
start_workflow_terminates_example =
    start_workflow_terminates 7 2 env 1 30 3 "ana" bound_db refl (omega arith)

-- The hazard stage is complete, the others are not started.
abbrev half_done : WorkflowProgress
half_done = record {
  workflow_template_id = some 3;
  entries = record (fresh_entry hazard) { status = complete } ∷ [];
}

-- The workflow runs and its first stage is complete.
abbrev under_way : Db
under_way = record bound_db {
  assessments =
      record (in_status running) { workflow_template_id = some 3; workflow_progress = half_done }
      ∷ [];
}

execute_stage_terminates_example :
    ((execute_stage env 1 7 30 "ana" exposure under_way).0 ≢ err out_of_fuel)
    × ((execute_stage env 1 7 30 "ana" exposure under_way).1.templates ≡ under_way.templates)
    × (left 7 (execute_stage env 1 7 30 "ana" exposure under_way).1 ≤ left 7 under_way)
execute_stage_terminates_example =
    execute_stage_terminates 7 2 env 1 30 "ana" exposure under_way refl (omega arith)

runnable_stages_live_example : runnable_stages diamond.stage_definitions half_done ≢ []
unfolding validate_dag contains same_stage resolve_loop remaining_of may_start get all_complete
    required_stage_types
runnable_stages_live_example =
    runnable_stages_live half_done diamond.stage_definitions refl refl refl
