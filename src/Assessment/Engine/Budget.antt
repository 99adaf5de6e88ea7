-- ===== src/Assessment/Engine/Budget.antt =====
-- How much of a workflow is left: the stages that are not complete, and the attempts of one stage.
use novaapi.Common.{
  ℕ, suc, ◌+◌, ◌≤◌, ◌≡◌, refl, true, false, not, Option, List, [], ◌∷◌, filter, length, arith, ap,
  String,
}
use novaapi.Assessment.Stage.{
  StageType, StageExecutionStatus, same_stage, stages_by_name, contains, advance_to,
  is_complete_status,
}
use novaapi.Assessment.Stage.Laws.{same_stage_iff}
use novaapi.Assessment.Entity.{Assessment}
use novaapi.Assessment.Entity.Workflow.{entry, StageMoved}

-- The stages of a list that an assessment has not completed.
abbrev open_stages : Assessment → List StageType → ℕ
open_stages a sts = length (filter (λ st. not (is_complete_status (entry a st).status)) sts)

-- The stages of all that an assessment has not completed.
unfoldable pub stages_left : Assessment → ℕ
stages_left a = open_stages a stages_by_name

pub stages_left-le : (a : Assessment) → stages_left a ≤ 9
unfolding stages_left
stages_left-le a = open_stages-le a stages_by_name
  where
    open_stages-le : (a : Assessment) (sts : List StageType) → open_stages a sts ≤ length sts
    open_stages-le a [] = omega arith
    open_stages-le a (st ∷ sts) = ground (arith, open_stages-le a sts)

is_stage : (st : StageType) → contains stages_by_name st ≡ true
unfolding contains same_stage
is_stage st = ground arith

open_stages-same :
    (a b : Assessment) (sts : List StageType)
    → ((st : StageType)
        → is_complete_status (entry b st).status ≡ is_complete_status (entry a st).status)
    → open_stages b sts ≡ open_stages a sts
open_stages-same a b [] h = refl
open_stages-same a b (st ∷ sts) h = ground (arith, h st, open_stages-same a b sts h)

same_entry : (a : Assessment) (x y : StageType) → same_stage x y ≡ true → entry a x ≡ entry a y
same_entry a x y h = ap (entry a) ((same_stage_iff x y).0 h)

open_stages-fewer :
    (a b : Assessment) (done : StageType) (sts : List StageType)
    → ((st : StageType)
        → is_complete_status (entry a st).status ≡ true
        → is_complete_status (entry b st).status ≡ true)
    → is_complete_status (entry a done).status ≡ false
    → is_complete_status (entry b done).status ≡ true
    → (open_stages b sts ≤ open_stages a sts)
      × (contains sts done ≡ true → suc (open_stages b sts) ≤ open_stages a sts)
unfolding contains
open_stages-fewer a b done [] h f t = (omega arith, λ m. ground arith)
open_stages-fewer a b done (st ∷ sts) h f t =
    let ih = open_stages-fewer a b done sts h f t in
    ground (arith, ih, h st, same_entry a done st, same_entry b done st)

module _ (a b : Assessment) (st : StageType) (now : ℕ) (ref why : Option String) where
  -- A start uses up an attempt and completes nothing.
  pub started :
      StageMoved a b st StageExecutionStatus.running now ref why
      → (stages_left b ≡ stages_left a)
        × ((entry b st).attempt_count ≡ (entry a st).attempt_count + 1)
        × ((entry b st).status ≡ StageExecutionStatus.running)
  unfolding advance_to stages_left
  started m = (
    open_stages-same a b stages_by_name
        (λ x. ground (arith, m.moved, m.others x, same_entry b st x, same_entry a st x)),
    ground (arith, m.moved),
    ground (arith, m.moved),
  )

  -- A failure completes nothing and leaves the attempts.
  pub broken :
      StageMoved a b st StageExecutionStatus.failed now ref why
      → (stages_left b ≡ stages_left a) × ((entry b st).attempt_count ≡ (entry a st).attempt_count)
  unfolding advance_to stages_left
  broken m = (
    open_stages-same a b stages_by_name
        (λ x. ground (arith, m.moved, m.others x, same_entry b st x, same_entry a st x)),
    ground (arith, m.moved),
  )

  -- A completion leaves a stage fewer.
  pub completed :
      StageMoved a b st StageExecutionStatus.complete now ref why
      → suc (stages_left b) ≤ stages_left a
  unfolding advance_to stages_left
  completed m =
      (open_stages-fewer a b st stages_by_name
          (λ x. ground (arith, m.moved, m.others x, same_entry b st x, same_entry a st x))
          (ground (arith, m.moved)) (ground (arith, m.moved))).1
        (is_stage st)
