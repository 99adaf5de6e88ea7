-- ===== src/Assessment/Handlers/Tests.antt =====
-- The theorems on the command handlers of contexts/assessment at concrete inputs.
use novaapi.Common.{◌≡◌, ◌⊎◌, ◌↔◌, refl, some, [], ◌∷◌, arith}
use novaapi.Common.Table.{find}
use novaapi.Errors.{Error, ok, err}
use novaapi.Session.{in_session}
use novaapi.Assessment.Types.{running, flood}
use novaapi.Assessment.Stage.{hazard, automatic, with_entry, initialize, get}
use novaapi.Assessment.Entity.{Assessment}
use novaapi.Assessment.Template.{WorkflowTemplate, published}
use novaapi.Assessment.Database.{Db, assessment_key, aggregate_eq}
use novaapi.Assessment.Tests.{plain, completed, one_row}
use novaapi.Assessment.Handlers.{Clock}
use novaapi.Assessment.Handlers.Commands.{readying, handle}
use novaapi.Assessment.Handlers.Seen.{OkOrUntouched}
use novaapi.Assessment.Handlers.Tenancy.{handle-apart}
use novaapi.Assessment.Handlers.Advance.{AllComplete, handled, passed_on, advance_assessment_iff}

abbrev clock : Clock
clock k = k

abbrev no_rows : Db
no_rows = record { assessments = []; templates = []; outbox = [] }

-- Tenant 2 asks for the assessment of tenant 1, and for one that is not there.
handle-apart_example :
    ((in_session (handle 2 7 (readying "bo") clock) one_row).0
      ≡ (in_session (handle 2 7 (readying "bo") clock) no_rows).0)
    × (find assessment_key 7 (in_session (handle 2 7 (readying "bo") clock) one_row).1.assessments
        ≡ some plain)
    × OkOrUntouched one_row (in_session (handle 2 7 (readying "bo") clock) one_row)
unfolding find
handle-apart_example =
    handle-apart 2 7 one_row no_rows 7 plain refl refl refl (ground arith) (readying "bo") clock

abbrev hazard_only : WorkflowTemplate
hazard_only = record {
  id = 3;
  hazard_type = flood;
  name = "flood";
  version = 1;
  status = published;
  stage_definitions =
      record {
        stage_type = hazard;
        required_predecessors = [];
        trigger_mode = automatic;
        max_attempts = 1;
      }
      ∷ [];
  created_at = 1;
}

abbrev at_end : Db
at_end = record { assessments = completed ∷ []; templates = hazard_only ∷ []; outbox = [] }

-- The only stage is complete.
hazard_done : AllComplete completed hazard_only.stage_definitions
unfolding get initialize with_entry
hazard_done = (refl, tt)

advance_assessment_iff_example :
    (((b : Assessment) × ((handled 1 7 "ana" clock at_end).0 ≡ ok b))
      ↔ ((completed.status ≡ running) × AllComplete completed hazard_only.stage_definitions))
    × ((handled 1 7 "ana" clock at_end ≡ passed_on 1 7 "ana" clock at_end completed)
        ⊎ ((e : Error) × (handled 1 7 "ana" clock at_end ≡ (err e, at_end))))
unfolding find
advance_assessment_iff_example =
    advance_assessment_iff 1 7 "ana" clock at_end 3 completed hazard_only refl refl refl refl
