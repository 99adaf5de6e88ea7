-- ===== src/Assessment/Engine/Moves.antt =====
-- What a stage command of contexts/assessment/application/workflow_handlers.py makes of the tables,
-- as the engine sees it.
use novaapi.Common.{
  ℕ, ◌+◌, ◌≡◌, ◌≢◌, ◌⊎◌, inl, inr, refl, Option, none, some, ◌==◌, arith, String, Option-cases,
  Bool-cases, ap, sym, ◌∙◌,
}
use novaapi.Common.Table.{find, find-key, find-put_self}
use novaapi.Errors.{Error, Result, ok, err, out_of_fuel, assessment_not_found}
use novaapi.Session.{in_session}
use novaapi.Assessment.Stage.{StageType, StageExecutionStatus}
use novaapi.Assessment.Events.{Event}
use novaapi.Assessment.Entity.{Assessment, start_stage, complete_stage, fail_stage}
use novaapi.Assessment.Entity.Lifecycle.{object}
use novaapi.Assessment.Entity.Workflow.{
  StageMoved, start_stage-StageMoved, complete_stage-StageMoved, fail_stage-StageMoved,
}
use novaapi.Assessment.Database.{Db, assessment_key}
use novaapi.Assessment.Handlers.{
  Clock, transact, execute_stage_command, record_stage_completion, record_stage_failure,
}
use novaapi.Assessment.Handlers.Atomic.{Method, KeepsKey, transact_atomic, transact_lem}

-- A run that raised, with no fuel missing, and changed nothing.
pub record Raised (db : Db) (o : Result Assessment × Db) : Type 0 where
  pub error : Error
  pub raised : o.0 ≡ err error
  pub no_fuel_needed : error ≢ out_of_fuel
  pub unchanged : o.1 ≡ db

-- A run that stored a new version of the assessment.
pub record Stored (k : ℕ) (m : Method) (db : Db) (o : Result Assessment × Db) : Type 0 where
  pub old : Assessment
  pub new : Assessment
  pub event : Event
  pub was : find assessment_key k db.assessments ≡ some old
  pub called : m old ≡ ok (new, event)
  pub returned : o.0 ≡ ok new
  pub is_now :
      find assessment_key k o.1.assessments ≡ some (record new { version = old.version + 1 })
  pub same_templates : o.1.templates ≡ db.templates

module _ (tenant_id k : ℕ) (m : Method) (appended : ℕ) (db : Db) (keeps : KeepsKey m)
    (no_fuel : (a : Assessment) → m a ≢ err out_of_fuel) where
  abbrev run_of : Result Assessment × Db
  run_of = in_session (transact tenant_id k m appended) db

  stored :
      (a b : Assessment) (e : Event)
      → find assessment_key k db.assessments ≡ some a
      → a.tenant_id ≡ tenant_id
      → m a ≡ ok (b, e)
      → Stored k m db run_of
  stored a b e f t h =
      let w = transact_lem tenant_id k m appended db a b e f t h keeps in
      let key : b.id ≡ k = (keeps a b e h).0 ∙ find-key assessment_key k db.assessments a f in
      let v : Assessment = record b { version = a.version + 1 } in
      record {
        old = a;
        new = b;
        event = e;
        was = f;
        called = h;
        returned = w.0;
        is_now = rw w.1 (rw (← key) (find-put_self assessment_key v db.assessments));
        same_templates = ap (λ (d : Db). d.templates) w.1;
      }

  raises : (e : Error) → run_of.0 ≡ err e → e ≢ out_of_fuel → Raised db run_of
  raises e h n = record {
    error = e;
    raised = h;
    no_fuel_needed = n;
    unchanged = transact_atomic tenant_id k m appended db e h;
  }

  called_on :
      (a : Assessment) (r : Result (Assessment × Event))
      → find assessment_key k db.assessments ≡ some a
      → a.tenant_id ≡ tenant_id
      → m a ≡ r
      → Raised db run_of ⊎ Stored k m db run_of
  unfolding transact
  called_on a (ok (b, e)) f t h = inr (stored a b e f t h)
  called_on a (err e) f t h = inl (raises e (ground arith) (λ p. no_fuel a (h ∙ ap (λ x. err x) p)))

  pub transact-cases : Raised db run_of ⊎ Stored k m db run_of
  unfolding transact
  transact-cases = elim (Option-cases (find assessment_key k db.assessments)) [
    | inl missing ↦ inl (raises assessment_not_found (ground arith) (λ p. cc))
    | inr (a, f) ↦ elim (Bool-cases (a.tenant_id == tenant_id)) [
      | inl t ↦ called_on a (m a) f (ground arith) refl
      | inr t ↦ inl (raises assessment_not_found (ground arith) (λ p. cc))
    ]
  ]

-- A run that moved the entry of a stage and stored the assessment.
pub record StageStored (k : ℕ) (st : StageType) (s : StageExecutionStatus) (now : ℕ)
    (ref why : Option String) (db : Db) (o : Result Assessment × Db) : Type 0 where
  pub old : Assessment
  pub new : Assessment
  pub was : find assessment_key k db.assessments ≡ some old
  pub is_now : find assessment_key k o.1.assessments ≡ some new
  pub moved : StageMoved old new st s now ref why
  pub succeeded : o.0 ≢ err out_of_fuel
  pub same_templates : o.1.templates ≡ db.templates

Stored-StageStored :
    (k : ℕ) (m : Method) (st : StageType) (s : StageExecutionStatus) (now : ℕ)
    (ref why : Option String) (db : Db) (o : Result Assessment × Db)
    → ((a b : Assessment) → object (m a) ≡ ok b → StageMoved a b st s now ref why)
    → Stored k m db o
    → StageStored k st s now ref why db o
Stored-StageStored k m st s now ref why db o move w =
    let h = move w.old w.new (ap object w.called) in
    record {
      old = w.old;
      new = record w.new { version = w.old.version + 1 };
      was = w.was;
      is_now = w.is_now;
      moved = record {
        was_running = h.was_running;
        is_still = h.is_still;
        moved = h.moved;
        others = h.others;
      };
      succeeded = λ p. cc (sym w.returned ∙ p);
      same_templates = w.same_templates;
    }

module _ (tenant_id k : ℕ) (st : StageType) (clock : Clock) (db : Db) where
  pub execute_stage_command-cases :
      (actor : String)
      → let o = in_session (execute_stage_command tenant_id k st actor clock) db in
        Raised db o ⊎ StageStored k st StageExecutionStatus.running (clock 0) none none db o
  unfolding execute_stage_command
  execute_stage_command-cases actor =
      let m = λ (a : Assessment). start_stage a st actor (clock 0) (clock 1) in
      elim (transact-cases tenant_id k m (clock 2) db
        (λ a b e h. unfold start_stage in ground arith) (λ a. unfold start_stage in ground arith)) [
          | inl r ↦ inl r
          | inr w ↦ inr (
              Stored-StageStored k m st _ _ _ _ db _
                (λ a b h. start_stage-StageMoved a b st actor (clock 0) (clock 1) h) w)
        ]

  pub record_stage_completion-cases :
      (ref : Option String)
      → let o = in_session (record_stage_completion tenant_id k st ref clock) db in
        Raised db o ⊎ StageStored k st StageExecutionStatus.complete (clock 0) ref none db o
  unfolding record_stage_completion
  record_stage_completion-cases ref =
      let m = λ (a : Assessment). complete_stage a st ref (clock 0) (clock 1) in
      elim (transact-cases tenant_id k m (clock 2) db
        (λ a b e h. unfold complete_stage in ground arith)
        (λ a. unfold complete_stage in ground arith)) [
          | inl r ↦ inl r
          | inr w ↦ inr (
              Stored-StageStored k m st _ _ _ _ db _
                (λ a b h. complete_stage-StageMoved a b st ref (clock 0) (clock 1) h) w)
        ]

  pub record_stage_failure-cases :
      (why : String)
      → let o = in_session (record_stage_failure tenant_id k st why clock) db in
        Raised db o ⊎ StageStored k st StageExecutionStatus.failed (clock 0) none (some why) db o
  unfolding record_stage_failure
  record_stage_failure-cases why =
      let m = λ (a : Assessment). fail_stage a st why (clock 0) (clock 1) in
      elim (transact-cases tenant_id k m (clock 2) db (λ a b e h. unfold fail_stage in ground arith)
        (λ a. unfold fail_stage in ground arith)) [
          | inl r ↦ inl r
          | inr w ↦ inr (
              Stored-StageStored k m st _ _ _ _ db _
                (λ a b h. fail_stage-StageMoved a b st why (clock 0) (clock 1) h) w)
        ]
