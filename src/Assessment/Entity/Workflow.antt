-- ===== src/Assessment/Entity/Workflow.antt =====
-- The stages of an assessment under its methods.
use novaapi.Common.{
  ℕ, String, ◌≡◌, refl, inl, inr, true, false, Option, none, some, arith, if◌then◌else◌, ap, ◌∙◌,
  Bool-cases,
}
use novaapi.Errors.{Result, ok, err}
use novaapi.Assessment.Types.{AssessmentStatus, running, is_running}
use novaapi.Assessment.Stage.{
  StageType, StageExecutionStatus, StageProgressEntry, same_stage, advance_to, get, with_entry,
}
use novaapi.Assessment.Stage.Laws.{get-with_entry, get-stage_type, same_stage_refl}
use novaapi.Assessment.Events.{Event}
use novaapi.Assessment.Entity.{Assessment, start_stage, complete_stage, fail_stage, store_entry}
use novaapi.Assessment.Entity.Lifecycle.{object}

-- The entry of a stage.
abbrev pub entry : Assessment → StageType → StageProgressEntry
entry a st = get a.workflow_progress st

-- A stored entry is the entry of its stage, and of no other.
entry-store :
    (a b : Assessment) (event : StageProgressEntry → Event) (later : ℕ) (e : StageProgressEntry)
    (st : StageType)
    → object (store_entry a event later (ok e)) ≡ ok b
    → entry b st ≡ (if same_stage e.stage_type st then e else entry a st)
entry-store a b event later e st h =
    let w : b.workflow_progress ≡ with_entry a.workflow_progress e = ground arith in
    rw w (get-with_entry a.workflow_progress e st)

-- `advance_to` keeps the stage.
pub advance_to-stage_type :
    (e e' : StageProgressEntry) (s : StageExecutionStatus) (now : ℕ) (ref why : Option String)
    → advance_to e s now ref why ≡ ok e'
    → e'.stage_type ≡ e.stage_type
unfolding advance_to
advance_to-stage_type e e' s now ref why h = ground arith

-- What a successful stage call has done: the entry of its stage has moved, the others are as before.
pub record StageMoved (a b : Assessment) (st : StageType) (s : StageExecutionStatus) (now : ℕ)
    (ref why : Option String) : Type 0 where
  pub was_running : a.status ≡ running
  pub is_still : b.status ≡ running
  pub moved : advance_to (entry a st) s now ref why ≡ ok (entry b st)
  pub others : (st' : StageType) → same_stage st st' ≡ false → entry b st' ≡ entry a st'

store-StageMoved :
    (a b : Assessment) (event : StageProgressEntry → Event) (later : ℕ) (st : StageType)
    (s : StageExecutionStatus) (now : ℕ) (ref why : Option String) (r : Result StageProgressEntry)
    → a.status ≡ running
    → advance_to (entry a st) s now ref why ≡ r
    → object (store_entry a event later r) ≡ ok b
    → StageMoved a b st s now ref why
store-StageMoved a b event later st s now ref why (ok e) run adv h =
    let est : e.stage_type ≡ st =
      advance_to-stage_type (entry a st) e s now ref why adv
      ∙ get-stage_type a.workflow_progress st in
    let own : entry b st ≡ e =
      entry-store a b event later e st h
      ∙ (rw (ap (λ x. same_stage x st) est ∙ same_stage_refl st)) in
    record {
      was_running = run;
      is_still = ground arith;
      moved = rw own adv;
      others = λ st' ne.
          entry-store a b event later e st' h ∙ (rw (ap (λ x. same_stage x st') est ∙ ne));
    }
store-StageMoved a b event later st s now ref why (err x) run adv h = ground arith

is_running_iff : (s : AssessmentStatus) → is_running s ≡ true → s ≡ running
unfolding is_running
is_running_iff running h = refl
is_running_iff _ h = ground arith

-- Starting a stage succeeds only on a running assessment, which stays RUNNING, moves the entry of
-- that stage to RUNNING as `advance_to` does, and leaves the other entries as they were.
pub start_stage-StageMoved :
    (a b : Assessment) (st : StageType) (who : String) (now later : ℕ)
    → object (start_stage a st who now later) ≡ ok b
    → StageMoved a b st StageExecutionStatus.running now none none
unfolding start_stage
start_stage-StageMoved a b st who now later h = elim (Bool-cases (is_running a.status)) [
  | inl t ↦ store-StageMoved a b _ later st _ now none none _ (is_running_iff _ t) refl (rw t at h)
  | inr f ↦ ground arith
]

-- Recording a completion succeeds only on a running assessment, which stays RUNNING, moves the entry
-- of that stage to COMPLETE with its result, and leaves the other entries as they were.
pub complete_stage-StageMoved :
    (a b : Assessment) (st : StageType) (ref : Option String) (now later : ℕ)
    → object (complete_stage a st ref now later) ≡ ok b
    → StageMoved a b st StageExecutionStatus.complete now ref none
unfolding complete_stage
complete_stage-StageMoved a b st ref now later h = elim (Bool-cases (is_running a.status)) [
  | inl t ↦ store-StageMoved a b _ later st _ now ref none _ (is_running_iff _ t) refl (rw t at h)
  | inr f ↦ ground arith
]

-- Recording a failure succeeds only on a running assessment, which stays RUNNING, moves the entry of
-- that stage to FAILED with its error, and leaves the other entries as they were.
pub fail_stage-StageMoved :
    (a b : Assessment) (st : StageType) (why : String) (now later : ℕ)
    → object (fail_stage a st why now later) ≡ ok b
    → StageMoved a b st StageExecutionStatus.failed now none (some why)
unfolding fail_stage
fail_stage-StageMoved a b st why now later h = elim (Bool-cases (is_running a.status)) [
  | inl t ↦
      store-StageMoved a b _ later st _ now none (some why) _ (is_running_iff _ t) refl (rw t at h)
  | inr f ↦ ground arith
]
