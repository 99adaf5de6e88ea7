-- ===== src/Assessment/Entity/History.antt =====
-- Completed stages and counted attempts over the method calls of an assessment.
use novaapi.Common.{
  ℕ, ◌≤◌, String, ◌≡◌, refl, ◌≢◌, inl, inr, Option, none, some, List, [], ◌∷◌, arith, ap, ◌∙◌,
  Bool-cases,
}
use novaapi.Errors.{Result, ok, err}
use novaapi.Assessment.Types.{ready}
use novaapi.Assessment.Stage.{
  StageType, StageExecutionStatus, complete, StageProgressEntry, same_stage, no_progress,
  advance_to, get,
}
use novaapi.Assessment.Stage.Laws.{same_stage_iff}
use novaapi.Assessment.Entity.{Assessment}
use novaapi.Assessment.Entity.Lifecycle.{
  Method, to_ready, to_running, to_validated, to_reported, to_archived, to_cancelled,
  begin_workflow, begin_stage, end_stage, break_stage, advance, call, IsConsistent, run,
  settle-IsConsistent, settle,
}
use novaapi.Assessment.Entity.Workflow.{
  entry, StageMoved, start_stage-StageMoved, complete_stage-StageMoved, fail_stage-StageMoved,
}

-- Between two states a stage has lost nothing: it stays complete with its result, and its attempts
-- do not fall.
pub record Retains (e e' : StageProgressEntry) : Type 0 where
  pub final : e.status ≡ complete → e' ≡ e
  pub attempts : e.attempt_count ≤ e'.attempt_count

Retains-refl : (e e' : StageProgressEntry) → e' ≡ e → Retains e e'
Retains-refl e e' h = record { final = λ c. h; attempts = ground arith }

advance_to-Retains :
    (e e' : StageProgressEntry) (s : StageExecutionStatus) (now : ℕ) (ref why : Option String)
    → advance_to e s now ref why ≡ ok e'
    → Retains e e'
unfolding advance_to
advance_to-Retains e e' s now ref why h = ground arith

StageMoved-Retains :
    (a b : Assessment) (st st' : StageType) (s : StageExecutionStatus) (now : ℕ)
    (ref why : Option String)
    → StageMoved a b st s now ref why
    → Retains (entry a st') (entry b st')
StageMoved-Retains a b st st' s now ref why m = elim (Bool-cases (same_stage st st')) [
  | inl e ↦
      let p : st ≡ st' = (same_stage_iff st st').0 e in
      rw (← p) (advance_to-Retains (entry a st) (entry b st) s now ref why m.moved)
  | inr ne ↦ Retains-refl (entry a st') (entry b st') (m.others st' ne)
]

-- The calls that are no stage calls leave the progress alone, or bind a workflow to a ready
-- assessment, which has no progress yet.
same_progress :
    (a b : Assessment) (st : StageType)
    → b.workflow_progress ≡ a.workflow_progress
    → Retains (entry a st) (entry b st)
same_progress a b st h = Retains-refl (entry a st) (entry b st) (ap (λ p. get p st) h)

nothing_lost :
    (e e' : StageProgressEntry) → e.status ≢ complete → e.attempt_count ≡ 0 → Retains e e'
nothing_lost e e' h k = record { final = λ c. absurd (h c); attempts = omega arith }

unstarted-Retains :
    (a b : Assessment) (st : StageType)
    → IsConsistent a
    → a.status ≡ ready
    → Retains (entry a st) (entry b st)
unfolding get
unstarted-Retains a b st c r =
    let p : a.workflow_progress ≡ no_progress = c.unstarted (inr r) in
    nothing_lost (entry a st) (entry b st) (rw p (λ e. cc)) (rw p)

-- Every call, on a consistent assessment.
pub call-Retains :
    (a b : Assessment) (m : Method) (st : StageType)
    → IsConsistent a
    → call a m ≡ ok b
    → Retains (entry a st) (entry b st)
unfolding call
call-Retains a b (to_ready who now) st c h = same_progress a b st (ground arith)
call-Retains a b (to_running who now) st c h = same_progress a b st (ground arith)
call-Retains a b (to_validated who now) st c h = same_progress a b st (ground arith)
call-Retains a b (to_reported who now) st c h = same_progress a b st (ground arith)
call-Retains a b (to_archived who now) st c h = same_progress a b st (ground arith)
call-Retains a b (to_cancelled why who now) st c h = same_progress a b st (ground arith)
call-Retains a b (begin_workflow t sts who now) st c h = unstarted-Retains a b st c (ground arith)
call-Retains a b (begin_stage st' who now later) st c h =
    StageMoved-Retains a b st' st _ now none none (start_stage-StageMoved a b st' who now later h)
call-Retains a b (end_stage st' ref now later) st c h =
    StageMoved-Retains a b st' st _ now ref none (complete_stage-StageMoved a b st' ref now later h)
call-Retains a b (break_stage st' why now later) st c h =
    StageMoved-Retains a b st' st _ now none (some why)
      (fail_stage-StageMoved a b st' why now later h)
call-Retains a b (advance sts who now) st c h = same_progress a b st (ground arith)

Retains-trans : (e f g : StageProgressEntry) → Retains e f → Retains f g → Retains e g
Retains-trans e f g p q = record {
  final = λ c. q.final (ap (λ x. x.status) (p.final c) ∙ c) ∙ p.final c;
  attempts = omega arith;
}

settle-Retains :
    (a : Assessment) (m : Method) (st : StageType) (r : Result Assessment)
    → IsConsistent a
    → call a m ≡ r
    → Retains (entry a st) (entry (settle a r) st)
settle-Retains a m st (ok b) c h = call-Retains a b m st c h
settle-Retains a m st (err e) c h = Retains-refl (entry a st) (entry a st) refl

-- Over any method calls on a consistent assessment a completed stage keeps its entry, result
-- included, and no stage loses an attempt.
pub run-Retains :
    (a : Assessment) (ms : List Method) (st : StageType)
    → IsConsistent a
    → Retains (entry a st) (entry (run a ms) st)
unfolding run
run-Retains a [] st c = Retains-refl (entry a st) (entry a st) refl
run-Retains a (m ∷ ms) st c =
    let b = settle a (call a m) in
    Retains-trans (entry a st) (entry b st) (entry (run b ms) st)
      (settle-Retains a m st (call a m) c refl)
      (run-Retains b ms st (settle-IsConsistent a m (call a m) c refl))
