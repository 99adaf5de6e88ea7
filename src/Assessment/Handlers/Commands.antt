-- ===== src/Assessment/Handlers/Commands.antt =====
-- The commands on one assessment, each with its handler (application/handlers.py and
-- workflow_handlers.py of contexts/assessment).
use novaapi.Common.{ℕ, String, Option}
use novaapi.Session.{Exec}
use novaapi.Assessment.Stage.{StageType}
use novaapi.Assessment.Entity.{Assessment}
use novaapi.Assessment.Database.{Db}
use novaapi.Assessment.Handlers.{
  Clock, mark_assessment_ready, start_assessment, validate_assessment, report_assessment,
  archive_assessment, cancel_assessment, start_workflow_command, execute_stage_command,
  record_stage_completion, record_stage_failure, advance_assessment,
}

-- The commands on an assessment that is there, with their arguments.
pub data Command : Type 0 where
  readying starting validating reporting archiving : String → Command
  cancelling : String → String → Command
  starting_workflow : ℕ → String → Command
  executing_stage : StageType → String → Command
  completing_stage : StageType → Option String → Command
  failing_stage : StageType → String → Command
  advancing : String → Command

-- The handler that takes the command.
unfoldable pub handle : ℕ → ℕ → Command → Clock → Exec Db Assessment
handle t k (readying who) clock = mark_assessment_ready t k who clock
handle t k (starting who) clock = start_assessment t k who clock
handle t k (validating who) clock = validate_assessment t k who clock
handle t k (reporting who) clock = report_assessment t k who clock
handle t k (archiving who) clock = archive_assessment t k who clock
handle t k (cancelling why who) clock = cancel_assessment t k why who clock
handle t k (starting_workflow template_id who) clock =
    start_workflow_command t k template_id who clock
handle t k (executing_stage st who) clock = execute_stage_command t k st who clock
handle t k (completing_stage st ref) clock = record_stage_completion t k st ref clock
handle t k (failing_stage st why) clock = record_stage_failure t k st why clock
handle t k (advancing who) clock = advance_assessment t k who clock
