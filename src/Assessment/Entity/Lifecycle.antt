-- ===== src/Assessment/Entity/Lifecycle.antt =====
-- The life of an assessment under every sequence of method calls.
use mathlib.Core.Path.{subst}
use novaapi.Common.{
  inl, inr, sym, ℕ, String, ◌≡◌, refl, ◌≢◌, ◌⊎◌, true, false, Option, none, List, [], ◌∷◌, arith,
}
use novaapi.Common.Text.{is_blank}
use novaapi.Errors.{Result, ok, err}
use novaapi.Assessment.Types.{
  draft, ready, running, reported, archived, cancelled, HazardType, legal,
}
use novaapi.Assessment.Stage.{StageType, StageSet, no_progress}
use novaapi.Assessment.Events.{Event}
use novaapi.Assessment.Entity.{
  Assessment, create, mark_ready, start, mark_validated, mark_reported, archive, cancel,
  is_terminal, start_workflow, start_stage, complete_stage, fail_stage, advance_past_running,
}

-- The methods that change an assessment, with their arguments.
pub data Method : Type 0 where
  to_ready to_running to_validated to_reported to_archived : String → ℕ → Method
  to_cancelled : String → String → ℕ → Method
  begin_workflow : ℕ → StageSet → String → ℕ → Method
  begin_stage : StageType → String → ℕ → ℕ → Method
  end_stage : StageType → Option String → ℕ → ℕ → Method
  break_stage : StageType → String → ℕ → ℕ → Method
  advance : StageSet → String → ℕ → Method

abbrev pub object : Result (Assessment × Event) → Result Assessment
object (ok (a, e)) = ok a
object (err x) = err x

abbrev pub object₂ : Result (Assessment × Event × Event) → Result Assessment
object₂ (ok (a, e, e')) = ok a
object₂ (err x) = err x

unfoldable pub call : Assessment → Method → Result Assessment
unfolding mark_ready start mark_validated mark_reported archive cancel start_workflow start_stage
    complete_stage fail_stage advance_past_running
call a (to_ready who now) = object (mark_ready a who now)
call a (to_running who now) = object (start a who now)
call a (to_validated who now) = object (mark_validated a who now)
call a (to_reported who now) = object (mark_reported a who now)
call a (to_archived who now) = object (archive a who now)
call a (to_cancelled why who now) = object (cancel a why who now)
call a (begin_workflow t sts who now) = object₂ (start_workflow a t sts who now)
call a (begin_stage st who now later) = object (start_stage a st who now later)
call a (end_stage st ref now later) = object (complete_stage a st ref now later)
call a (break_stage st why now later) = object (fail_stage a st why now later)
call a (advance sts who now) = object (advance_past_running a sts who now)

-- A call that raises leaves the object as it was.
abbrev pub settle : Assessment → Result Assessment → Assessment
settle a (ok b) = b
settle a (err e) = a

unfoldable pub run : Assessment → List Method → Assessment
unfolding call
run a [] = a
run a (m ∷ ms) = run (settle a (call a m)) ms

-- What every call keeps: who the assessment is, and what is true of its status.
pub record Keeps (a b : Assessment) : Type 0 where
  pub same_id : b.id ≡ a.id
  pub same_tenant : b.tenant_id ≡ a.tenant_id
  pub same_name : b.name ≡ a.name
  pub same_hazard_type : b.hazard_type ≡ a.hazard_type
  pub same_creator : b.created_by ≡ a.created_by
  pub same_birth : b.created_at ≡ a.created_at
  pub same_version : b.version ≡ a.version
  -- The status moves along a legal transition, or stays RUNNING.
  pub moves : (legal a.status b.status ≡ true) ⊎ ((a.status ≡ running) × (b.status ≡ running))

-- A method call that succeeds keeps the identity, name, hazard type, origin and version of the
-- assessment, and moves the status along a legal transition or leaves it RUNNING.
pub call-Keeps : (a b : Assessment) (m : Method) → call a m ≡ ok b → Keeps a b
unfolding call
call-Keeps a b (to_ready who now) h = ground arith
call-Keeps a b _ h = ground arith

-- No call succeeds on an archived or cancelled assessment.
terminal_refuses : (a b : Assessment) (m : Method) → is_terminal a ≡ true → call a m ≢ ok b
unfolding call is_terminal
terminal_refuses a b (to_ready who now) h = ground arith
terminal_refuses a b _ h = ground arith

terminal_settles :
    (a : Assessment) (r : Result Assessment) → ((b : Assessment) → r ≢ ok b) → settle a r ≡ a
terminal_settles a (ok b) h = absurd (h b refl)
terminal_settles a (err e) h = refl

-- An archived or cancelled assessment is left alone by every sequence of method calls.
pub run_terminal : (a : Assessment) (ms : List Method) → is_terminal a ≡ true → run a ms ≡ a
unfolding run
run_terminal a [] h = refl
run_terminal a (m ∷ ms) h =
    rw (terminal_settles a (call a m) (λ b. terminal_refuses a b m h)) (run_terminal a ms h)

-- What holds of every assessment: a reason belongs to a cancelled one, and before RUNNING no
-- workflow is bound and no stage has an entry.
pub record IsConsistent (a : Assessment) : Type 0 where
  pub reason_given : a.status ≡ cancelled → is_blank a.cancellation_reason ≡ false
  pub reason_only_then : a.status ≢ cancelled → a.cancellation_reason ≡ ""
  pub unbound : (a.status ≡ draft) ⊎ (a.status ≡ ready) → a.workflow_template_id ≡ none
  pub unstarted : (a.status ≡ draft) ⊎ (a.status ≡ ready) → a.workflow_progress ≡ no_progress

create-IsConsistent :
    (new_id now tenant_id : ℕ) (name : String) (hazard_type : HazardType) (by : ℕ) (a : Assessment)
    → object (create new_id now tenant_id name hazard_type by) ≡ ok a
    → IsConsistent a
unfolding create
create-IsConsistent new_id now tenant_id name hazard_type by a h = ground arith

call-IsConsistent :
    (a b : Assessment) (m : Method) → IsConsistent a → call a m ≡ ok b → IsConsistent b
unfolding call
call-IsConsistent a b (to_ready who now) c h = ground arith
call-IsConsistent a b _ c h = ground arith

pub settle-IsConsistent :
    (a : Assessment) (m : Method) (r : Result Assessment)
    → IsConsistent a
    → call a m ≡ r
    → IsConsistent (settle a r)
settle-IsConsistent a m (ok b) c h = call-IsConsistent a b m c h
settle-IsConsistent a m (err e) c h = c

run-IsConsistent : (a : Assessment) (ms : List Method) → IsConsistent a → IsConsistent (run a ms)
unfolding run
run-IsConsistent a [] c = c
run-IsConsistent a (m ∷ ms) c =
    run-IsConsistent (settle a (call a m)) ms (settle-IsConsistent a m (call a m) c refl)

-- An assessment that `create` returns is, after any method calls at all, cancelled with a reason that
-- is not blank or not cancelled and without one, and while it is a draft or ready it has no workflow
-- and no progress.
pub create-run-IsConsistent :
    (new_id now tenant_id : ℕ) (name : String) (hazard_type : HazardType) (by : ℕ) (a : Assessment)
    (ms : List Method)
    → object (create new_id now tenant_id name hazard_type by) ≡ ok a
    → IsConsistent (run a ms)
create-run-IsConsistent new_id now tenant_id name hazard_type by a ms h =
    run-IsConsistent a ms (create-IsConsistent new_id now tenant_id name hazard_type by a h)

-- What may become of a reported assessment: nothing, or an archived one that differs in its status and
-- the time of its change.
abbrev pub StaysReported : Assessment → Assessment → Type 0
StaysReported a b = (b ≡ a) ⊎ ((now : ℕ) × (b ≡ record a { status = archived; updated_at = now }))

settle-StaysReported :
    (a : Assessment) (m : Method) → a.status ≡ reported → StaysReported a (settle a (call a m))
unfolding call
settle-StaysReported a (to_archived who now) h = inr (now, ground arith)
settle-StaysReported a (to_ready who now) h = inl (ground arith)
settle-StaysReported a _ h = inl (ground arith)

-- A reported assessment is not terminal, and yet is never cancelled: whatever methods are called, it
-- is as it was, or archived with no more than its status and the time of its change replaced.
pub run-reported :
    (a : Assessment) (ms : List Method)
    → a.status ≡ reported
    → (is_terminal a ≡ false) × StaysReported a (run a ms)
unfolding is_terminal run
run-reported a [] h = (ground arith, inl refl)
run-reported a (m ∷ ms) h = (
  ground arith,
  elim (settle-StaysReported a m h) [
    | inl e ↦ subst (λ b. StaysReported a (run b ms)) (sym e) (run-reported a ms h).1
    | inr (now, e) ↦
        subst (λ b. StaysReported a (run b ms)) (sym e)
          (inr (now, run_terminal (record a { status = archived; updated_at = now }) ms refl))
  ],
)
