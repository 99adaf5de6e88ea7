-- ===== src/Assessment/Tests.antt =====
-- Runs of the assessment model, and its theorems at concrete inputs.
use novaapi.Common.{◌≡◌, refl, false, none, some, List, [], ◌∷◌, arith, ◌+◌}
use novaapi.Common.Table.{find, put}
use novaapi.Common.Text.{is_blank}
use novaapi.Errors.{ok}
use novaapi.Outbox.{OutboxEvent, append_event}
use novaapi.Outbox.Order.{IsSequenced, append_event-IsSequenced}
use novaapi.Assessment.Types.{AssessmentStatus, draft, ready, running, reported, archived, flood}
use novaapi.Assessment.Stage.{
  hazard, exposure, StageExecutionStatus, complete, failed, no_progress, with_entry, initialize,
  fresh_entry,
}
use novaapi.Assessment.Events.{Event, assessment_archived, assessment_stage_advanced}
use novaapi.Assessment.Entity.{Assessment, create, is_terminal, mark_ready}
use novaapi.Assessment.Entity.Lifecycle.{
  to_ready, to_cancelled, begin_stage, call, run, Keeps, call-Keeps, run_terminal, IsConsistent,
  create-run-IsConsistent, to_archived, StaysReported, run-reported,
}
use novaapi.Assessment.Entity.Workflow.{entry}
use novaapi.Assessment.Entity.History.{Retains, run-Retains}
use novaapi.Assessment.Database.{Db, Aggregate, assessment, assessment_key, aggregate_eq}
use novaapi.Assessment.Handlers.Atomic.{committed, outcome, transact_lem, methods-KeepsKey}

abbrev pub plain : Assessment
plain = record {
  id = 7;
  tenant_id = 1;
  name = "delta";
  hazard_type = flood;
  status = draft;
  created_by = 5;
  created_at = 100;
  updated_at = 100;
  cancellation_reason = "";
  version = 0;
  workflow_template_id = none;
  workflow_progress = no_progress;
}

abbrev pub in_status : AssessmentStatus → Assessment
in_status s = record plain { status = s }

abbrev at_work : Assessment
at_work = record plain {
  status = running;
  workflow_template_id = some 3;
  workflow_progress = initialize 3 (exposure ∷ hazard ∷ []);
}

abbrev started : Assessment
started = record at_work {
  workflow_progress = with_entry at_work.workflow_progress (record (fresh_entry hazard) {
    status = StageExecutionStatus.running;
    attempt_count = 1;
    started_at = some 8;
  });
}

plain-IsConsistent : IsConsistent plain
plain-IsConsistent = ground arith

call-Keeps_example : Keeps plain (record plain { status = ready; updated_at = 9 })
unfolding call
call-Keeps_example = call-Keeps plain _ (to_ready "ana" 9) refl

run_terminal_example : run (in_status archived) (to_ready "ana" 9 ∷ []) ≡ in_status archived
unfolding is_terminal
run_terminal_example = run_terminal (in_status archived) (to_ready "ana" 9 ∷ []) refl

create-run-IsConsistent_example :
    IsConsistent (run plain (to_ready "ana" 9 ∷ to_cancelled "no data" "ana" 10 ∷ []))
unfolding create is_blank
create-run-IsConsistent_example =
    create-run-IsConsistent 7 100 1 "delta" flood 5 plain
      (to_ready "ana" 9 ∷ to_cancelled "no data" "ana" 10 ∷ []) refl

run-reported_example :
    (is_terminal (in_status reported) ≡ false)
    × StaysReported
        (in_status reported)
        (run (in_status reported) (to_cancelled "late" "ana" 9 ∷ to_archived "ana" 10 ∷ []))
run-reported_example =
    run-reported (in_status reported) (to_cancelled "late" "ana" 9 ∷ to_archived "ana" 10 ∷ []) refl

abbrev started_later : Assessment
started_later = record started { updated_at = 9 }

abbrev pub completed : Assessment
completed = record started {
  updated_at = 9;
  workflow_progress = with_entry started.workflow_progress (record (fresh_entry hazard) {
    status = complete;
    attempt_count = 1;
    started_at = some 8;
    completed_at = some 8;
    stage_result_ref = some "r";
  });
}

abbrev broken : Assessment
broken = record started {
  updated_at = 9;
  workflow_progress = with_entry started.workflow_progress (record (fresh_entry hazard) {
    status = failed;
    attempt_count = 1;
    started_at = some 8;
    last_error = some "no data";
  });
}

completed-IsConsistent : IsConsistent completed
completed-IsConsistent = ground arith

run-Retains_example :
    Retains
      (entry completed hazard)
      (entry (run completed (begin_stage hazard "ana" 10 11 ∷ [])) hazard)
run-Retains_example =
    run-Retains completed (begin_stage hazard "ana" 10 11 ∷ []) hazard completed-IsConsistent

abbrev pub one_row : Db
one_row = record { assessments = plain ∷ []; templates = []; outbox = [] }

abbrev ready_later : Assessment
ready_later = record plain { status = ready; updated_at = 9 }

transact_lem_example :
    (outcome 1 7 (λ a. mark_ready a "ana" 9) 10 one_row ≡ ok ready_later)
    × (committed 1 7 (λ a. mark_ready a "ana" 9) 10 one_row ≡ record {
      assessments = put assessment_key (record ready_later { version = 0 + 1 }) (plain ∷ []);
      templates = [];
      outbox =
          append_event
            (assessment 7)
            (assessment_stage_advanced 7 1 draft ready "ana")
            (some 1)
            10
            [];
    })
unfolding find mark_ready
transact_lem_example =
    transact_lem 1 7 (λ a. mark_ready a "ana" 9) 10 one_row plain ready_later
      (assessment_stage_advanced 7 1 draft ready "ana") refl refl refl
      (methods-KeepsKey "ana" "" hazard none 9 9).0

abbrev no_events : List (OutboxEvent Aggregate Event)
no_events = []

append_event-IsSequenced_example :
    IsSequenced (append_event (assessment 7) (assessment_archived 7 1 "ana") (some 1) 10 no_events)
append_event-IsSequenced_example =
    append_event-IsSequenced (assessment 7) (assessment_archived 7 1 "ana") (some 1) 10 no_events
      (λ k. tt)
