-- ===== src/Assessment/Handlers/Tenancy.antt =====
-- Tenants apart: what a command of one tenant learns of the assessments of the others, and what it
-- does to them (application/handlers.py and workflow_handlers.py of contexts/assessment).
use mathlib.Core.Path.{subst}
use novaapi.Common.{ℕ, String, ◌≡◌, ◌≢◌, ap, sym, ◌∙◌, none, some, List}
use novaapi.Common.Table.{find}
use novaapi.Errors.{Result}
use novaapi.Session.{in_session}
use novaapi.Assessment.Stage.{hazard}
use novaapi.Assessment.Entity.{Assessment}
use novaapi.Assessment.Template.{WorkflowTemplate}
use novaapi.Assessment.Database.{Db, assessment_key}
use novaapi.Assessment.Handlers.{
  Clock, transact, mark_assessment_ready, start_assessment, validate_assessment, report_assessment,
  archive_assessment, cancel_assessment, start_workflow_command, execute_stage_command,
  record_stage_completion, record_stage_failure, advance_assessment,
}
use novaapi.Assessment.Handlers.Atomic.{Method, KeepsKey, methods-KeepsKey}
use novaapi.Assessment.Handlers.Advance.{advance_by, advance_by-KeepsKey, advance-transact}
use novaapi.Assessment.Handlers.Commands.{
  Command, readying, starting, validating, reporting, archiving, cancelling, starting_workflow,
  executing_stage, completing_stage, failing_stage, advancing, handle,
}
use novaapi.Assessment.Handlers.Seen.{
  own, answer, OkOrUntouched, transact-OkOrUntouched, begin-OkOrUntouched, transact-answer,
  transact-others, begin_answer, begin-answer, begin-others,
}

-- What a tenant learns from two tables is the same, a row of another tenant is kept, and a command that
-- raises has written nothing.
abbrev Apart : (Db → Result Assessment × Db) → Db → Db → ℕ → Assessment → Type 0
Apart command db db' j a =
    ((command db).0 ≡ (command db').0)
    × (find assessment_key j (command db).1.assessments ≡ some a)
    × OkOrUntouched db (command db)

module _ (t k : ℕ) (db db' : Db) (j : ℕ) (a : Assessment) (same : own t k db ≡ own t k db')
    (templates : db.templates ≡ db'.templates) (f : find assessment_key j db.assessments ≡ some a)
    (ne : a.tenant_id ≢ t) where
  transact-Apart :
      (m : Method) (appended : ℕ)
      → KeepsKey m
      → Apart (in_session (transact t k m appended)) db db' j a
  transact-Apart m appended keeps = (
    transact-answer t k m appended keeps db
        ∙ ap (answer m) same
        ∙ sym (transact-answer t k m appended keeps db'),
    transact-others t k m appended keeps db j a f ne,
    transact-OkOrUntouched t k m appended db,
  )

  begin-Apart :
      (template_id : ℕ) (who : String) (clock : Clock)
      → Apart (in_session (start_workflow_command t k template_id who clock)) db db' j a
  begin-Apart template_id who clock = (
    begin-answer t k template_id who clock db
        ∙ ap (begin_answer t k template_id who clock db.templates) same
        ∙ ap (λ ts. begin_answer t k template_id who clock ts (own t k db')) templates
        ∙ sym (begin-answer t k template_id who clock db'),
    begin-others t k template_id who clock db j a f ne,
    begin-OkOrUntouched t k template_id who clock db,
  )

  advance-Apart :
      (who : String) (clock : Clock)
      → Apart (in_session (advance_assessment t k who clock)) db db' j a
  advance-Apart who clock =
      let by = λ (ts : List WorkflowTemplate).
        in_session (transact t k (advance_by ts who (clock 0)) (clock 1)) in
      let p =
        transact-Apart (advance_by db.templates who (clock 0)) (clock 1)
          (advance_by-KeepsKey db.templates who (clock 0)) in
      let here = advance-transact t k who clock db in
      let there = advance-transact t k who clock db' in
      (
        ap (λ o. o.0) here ∙ p.0 ∙ ap (λ ts. (by ts db').0) templates ∙ sym (ap (λ o. o.0) there),
        ap (λ o. find assessment_key j o.1.assessments) here ∙ p.1,
        subst (OkOrUntouched db) (sym here) p.2,
      )

  -- Tenants are kept apart by every command on an assessment. The answer to a command depends on
  -- no more than the tenant's own assessment under the id and the templates: an assessment of
  -- another tenant under it is answered exactly as none at all, with any other rows about.
  -- The assessments of other tenants are left as they are, and a command that raises has written
  -- nothing at all.
  pub handle-apart :
      (c : Command) (clock : Clock)
      → ((in_session (handle t k c clock) db).0 ≡ (in_session (handle t k c clock) db').0)
        × (find assessment_key j (in_session (handle t k c clock) db).1.assessments ≡ some a)
        × OkOrUntouched db (in_session (handle t k c clock) db)
  unfolding handle mark_assessment_ready start_assessment validate_assessment report_assessment
      archive_assessment cancel_assessment execute_stage_command record_stage_completion
      record_stage_failure
  handle-apart (readying who) clock =
      transact-Apart _ (clock 1) (methods-KeepsKey who "" hazard none (clock 0) 0).0
  handle-apart (starting who) clock =
      transact-Apart _ (clock 1) (methods-KeepsKey who "" hazard none (clock 0) 0).1
  handle-apart (validating who) clock =
      transact-Apart _ (clock 1) (methods-KeepsKey who "" hazard none (clock 0) 0).2
  handle-apart (reporting who) clock =
      transact-Apart _ (clock 1) (methods-KeepsKey who "" hazard none (clock 0) 0).3
  handle-apart (archiving who) clock =
      transact-Apart _ (clock 1) (methods-KeepsKey who "" hazard none (clock 0) 0).4
  handle-apart (cancelling why who) clock =
      transact-Apart _ (clock 1) (methods-KeepsKey who why hazard none (clock 0) 0).5
  handle-apart (starting_workflow template_id who) clock = begin-Apart template_id who clock
  handle-apart (executing_stage st who) clock =
      transact-Apart _ (clock 2) (methods-KeepsKey who "" st none (clock 0) (clock 1)).6
  handle-apart (completing_stage st ref) clock =
      transact-Apart _ (clock 2) (methods-KeepsKey "" "" st ref (clock 0) (clock 1)).7
  handle-apart (failing_stage st why) clock =
      transact-Apart _ (clock 2) (methods-KeepsKey "" why st none (clock 0) (clock 1)).8
  handle-apart (advancing who) clock = advance-Apart who clock
