-- ===== src/Assessment/Handlers/Advance.antt =====
-- `AdvanceAssessmentHandler` of contexts/assessment/application/workflow_handlers.py.
use novaapi.Common.{
  ℕ, ◌+◌, String, ◌≡◌, refl, ◌↔◌, true, some, List, [], ◌∷◌, arith, ap, ◌⊎◌, inl, inr, Bool-cases,
}
use novaapi.Common.Table.{find, put, find-key}
use novaapi.Errors.{
  Error, Result, ok, err, illegal_assessment_status_transition, workflow_not_complete,
}
use novaapi.Session.{in_session}
use novaapi.Outbox.{append_event}
use novaapi.Assessment.Types.{running, validated, legal}
use novaapi.Assessment.Stage.{
  StageExecutionStatus, complete, is_complete_status, StageDefinition, all_complete,
}
use novaapi.Assessment.Events.{assessment_stage_advanced}
use novaapi.Assessment.Entity.{Assessment, advance_past_running}
use novaapi.Assessment.Entity.Workflow.{entry}
use novaapi.Assessment.Template.{WorkflowTemplate, required_stage_types}
use novaapi.Assessment.Database.{Db, assessment, assessment_key, template_key, aggregate_eq}
use novaapi.Assessment.Handlers.{
  Clock, bound_template, template_or_404, transact, advance_assessment,
}
use novaapi.Assessment.Handlers.Atomic.{Method, KeepsKey}

abbrev pub chain : {A B : Type 0} → Result A → (A → Result B) → Result B
chain (ok a) f = f a
chain (err e) f = err e

-- What `AdvanceAssessment` does with the assessment, where the templates are these.
abbrev pub advance_by : List WorkflowTemplate → String → ℕ → Method
advance_by templates who now a = chain (bound_template a.workflow_template_id) λ k.
    chain (template_or_404 (find template_key k templates))
      λ t. advance_past_running a (required_stage_types t.stage_definitions) who now

pub advance_by-KeepsKey :
    (templates : List WorkflowTemplate) (who : String) (now : ℕ)
    → KeepsKey (advance_by templates who now)
unfolding advance_past_running
advance_by-KeepsKey templates who now a b e h = ground arith

-- The handler of `AdvanceAssessment` is the transaction of that method.
pub advance-transact :
    (t k : ℕ) (who : String) (clock : Clock) (db : Db)
    → in_session (advance_assessment t k who clock) db
      ≡ in_session (transact t k (advance_by db.templates who (clock 0)) (clock 1)) db
unfolding advance_assessment transact
advance-transact t k who clock db = ground arith

-- Every stage of the definitions has an entry that is complete.
abbrev pub AllComplete : Assessment → List StageDefinition → Type 0
AllComplete a [] = Unit
AllComplete a (sd ∷ sds) = ((entry a sd.stage_type).status ≡ complete) × AllComplete a sds

complete_status_iff : (s : StageExecutionStatus) → (is_complete_status s ≡ true) ↔ (s ≡ complete)
complete_status_iff complete = (λ h. refl, λ h. refl)
complete_status_iff _ = (λ h. ground arith, λ h. ground arith)

all_complete_iff :
    (a : Assessment) (sds : List StageDefinition)
    → (all_complete a.workflow_progress (required_stage_types sds) ≡ true) ↔ AllComplete a sds
unfolding all_complete required_stage_types
all_complete_iff a [] = (λ h. tt, λ h. refl)
all_complete_iff a (sd ∷ sds) = (
  λ h. ground (arith, complete_status_iff (entry a sd.stage_type).status, all_complete_iff a sds),
  λ h. ground (arith, complete_status_iff (entry a sd.stage_type).status, all_complete_iff a sds),
)

-- The assessment that has passed its stages.
abbrev pub advanced : Assessment → Clock → Assessment
advanced a clock = record a { status = validated; updated_at = clock 0 }

-- The two ways of `advance_past_running`.
advance_past_running_cases :
    (a : Assessment) (sds : List StageDefinition) (who : String) (clock : Clock)
    → let r = advance_past_running a (required_stage_types sds) who (clock 0) in
      ((a.status ≡ running)
        × AllComplete a sds
        × (r
            ≡ ok (
              advanced a clock,
              assessment_stage_advanced a.id a.tenant_id running validated who,
            )))
      ⊎ ((e : Error) × (r ≡ err e) × ((a.status ≡ running) × AllComplete a sds → ⊥))
unfolding advance_past_running
advance_past_running_cases a sds who clock =
    elim (Bool-cases (all_complete a.workflow_progress (required_stage_types sds))) [
      | inl all ↦ elim (Bool-cases (legal a.status validated)) [
        | inl goes ↦ inl (ground arith, (all_complete_iff a sds).0 all, ground arith)
        | inr stays ↦ inr (illegal_assessment_status_transition, ground arith, λ h. ground arith)
      ]
      | inr some_left ↦
          inr (
            workflow_not_complete,
            ground arith,
            λ h. ground (arith, (all_complete_iff a sds).1 h.1),
          )
    ]

module _ (t k : ℕ) (who : String) (clock : Clock) (db : Db) where
  -- What the command answers, and the tables after it.
  abbrev pub handled : Result Assessment × Db
  handled = in_session (advance_assessment t k who clock) db

  -- The answer and the tables where the assessment advances.
  abbrev pub passed_on : Assessment → Result Assessment × Db
  passed_on a = (
    ok (advanced a clock),
    record {
      assessments =
          put assessment_key (record (advanced a clock) { version = a.version + 1 }) db.assessments;
      templates = db.templates;
      outbox =
          append_event (assessment k) (assessment_stage_advanced k t running validated who) (some t)
            (clock 1) db.outbox;
    },
  )

  -- On an assessment of the tenant whose workflow is bound to a template that is stored,
  -- `AdvanceAssessment` succeeds exactly when the assessment is RUNNING and each stage of the template
  -- has an entry that is COMPLETE. Then the assessment is returned and stored as VALIDATED, under
  -- the next version, with its event in the outbox and nothing else changed; else the command
  -- raises and has written nothing.
  pub advance_assessment_iff :
      (template_id : ℕ) (a : Assessment) (template : WorkflowTemplate)
      → find assessment_key k db.assessments ≡ some a
      → a.tenant_id ≡ t
      → a.workflow_template_id ≡ some template_id
      → find template_key template_id db.templates ≡ some template
      → (((b : Assessment) × (handled.0 ≡ ok b))
          ↔ ((a.status ≡ running) × AllComplete a template.stage_definitions))
        × ((handled ≡ passed_on a) ⊎ ((e : Error) × (handled ≡ (err e, db))))
  unfolding transact
  advance_assessment_iff template_id a template f own bound ft =
      let same = advance-transact t k who clock db in
      let i : a.id ≡ k = find-key assessment_key k db.assessments a f in
      elim (advance_past_running_cases a template.stage_definitions who clock) [
        | inl (r, all, e) ↦
            let p : handled ≡ passed_on a = ground (arith, e, i) in
            ((λ w. (r, all), λ h. (advanced a clock, ap (λ o. o.0) p)), inl p)
        | inr (x, e, never) ↦
            let p : handled ≡ (err x, db) = ground (arith, e, i) in
            ((λ w. absurd (ground (arith, w.1)), λ h. absurd (never h)), inr (x, p))
      ]
