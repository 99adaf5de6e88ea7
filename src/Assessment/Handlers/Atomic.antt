-- ===== src/Assessment/Handlers/Atomic.antt =====
-- What a command does to the tables (application/handlers.py of contexts/assessment).
use novaapi.Common.{ℕ, ◌+◌, String, ◌≡◌, Option, some, arith}
use novaapi.Common.Table.{find, put, find-key}
use novaapi.Errors.{Error, Result, ok, err}
use novaapi.Session.{in_session}
use novaapi.Outbox.{append_event}
use novaapi.Assessment.Events.{Event}
use novaapi.Assessment.Stage.{StageType}
use novaapi.Assessment.Entity.{
  Assessment, mark_ready, start, mark_validated, mark_reported, archive, cancel, start_stage,
  complete_stage, fail_stage,
}
use novaapi.Assessment.Database.{Db, assessment, assessment_key, aggregate_eq}
use novaapi.Assessment.Handlers.{transact}

abbrev pub Method : Type 0
Method = Assessment → Result (Assessment × Event)

-- A method that keeps the primary key and the version of its object.
abbrev pub KeepsKey : Method → Type 0
KeepsKey m =
    (a b : Assessment) (e : Event) → m a ≡ ok (b, e) → (b.id ≡ a.id) × (b.version ≡ a.version)

module _ (tenant_id assessment_id : ℕ) (m : Method) (appended : ℕ) (db : Db) where
  -- The tables after the command.
  abbrev pub committed : Db
  committed = (in_session (transact tenant_id assessment_id m appended) db).1

  abbrev pub outcome : Result Assessment
  outcome = (in_session (transact tenant_id assessment_id m appended) db).0

  -- A command that raises has written nothing.
  pub transact_atomic : (e : Error) → outcome ≡ err e → committed ≡ db
  unfolding transact
  transact_atomic e h = ground arith

  -- On an assessment of the tenant, a command whose method succeeds and keeps the key and the version
  -- stores the new object under the next version, appends its event, and touches nothing else; the
  -- check of the version never fails.
  pub transact_lem :
      (a b : Assessment) (e : Event)
      → find assessment_key assessment_id db.assessments ≡ some a
      → a.tenant_id ≡ tenant_id
      → m a ≡ ok (b, e)
      → KeepsKey m
      → (outcome ≡ ok b)
        × (committed ≡ record {
          assessments = put assessment_key (record b { version = a.version + 1 }) db.assessments;
          templates = db.templates;
          outbox = append_event (assessment assessment_id) e (some tenant_id) appended db.outbox;
        })
  unfolding transact
  transact_lem a b e f t h k =
      let same : a.id ≡ assessment_id = find-key assessment_key assessment_id db.assessments a f in
      ground (arith, k a b e h)

-- The methods of the handlers that share `transact` keep the key and the version.
pub methods-KeepsKey :
    (who why : String) (st : StageType) (ref : Option String) (now later : ℕ)
    → KeepsKey (λ a. mark_ready a who now)
      × KeepsKey (λ a. start a who now)
      × KeepsKey (λ a. mark_validated a who now)
      × KeepsKey (λ a. mark_reported a who now)
      × KeepsKey (λ a. archive a who now)
      × KeepsKey (λ a. cancel a why who now)
      × KeepsKey (λ a. start_stage a st who now later)
      × KeepsKey (λ a. complete_stage a st ref now later)
      × KeepsKey (λ a. fail_stage a st why now later)
unfolding mark_ready start mark_validated mark_reported archive cancel start_stage complete_stage
    fail_stage
methods-KeepsKey who why st ref now later = (
  λ a b e h. ground arith,
  λ a b e h. ground arith,
  λ a b e h. ground arith,
  λ a b e h. ground arith,
  λ a b e h. ground arith,
  λ a b e h. ground arith,
  λ a b e h. ground arith,
  λ a b e h. ground arith,
  λ a b e h. ground arith,
)
