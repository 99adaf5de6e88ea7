-- ===== src/Assessment/Database.antt =====
-- contexts/assessment/infrastructure: the tables, and the repositories over them. A row and the
-- object that the mappers make of it are one record; `version` is the column.
use novaapi.Common.{
  ℕ, ◌+◌, ◌≡◌, Bool, true, false, Option, none, some, List, Eq, ◌==◌, if◌then◌else◌, arith, not,
}
use novaapi.Common.Table.{find, put}
use novaapi.Errors.{Result, ok, err, assessment_concurrency}
use novaapi.Session.{Exec, Session, gets, modify}
use novaapi.Outbox.{OutboxEvent, append_event}
use novaapi.Assessment.Events.{Event}
use novaapi.Assessment.Entity.{Assessment}
use novaapi.Assessment.Template.{WorkflowTemplate}

-- `aggregate_type` with `aggregate_id`.
pub data Aggregate : Type 0 where
  assessment : ℕ → Aggregate
  workflow_template : ℕ → Aggregate

abbrev pub same_aggregate : Aggregate → Aggregate → Bool
same_aggregate (assessment a) (assessment b) = a == b
same_aggregate (workflow_template a) (workflow_template b) = a == b
same_aggregate _ _ = false

pub same_aggregate→≡ : (a b : Aggregate) → same_aggregate a b ≡ true → a ≡ b
same_aggregate→≡ (assessment a) (assessment b) h = ground arith
same_aggregate→≡ _ _ h = ground arith

pub ≡→same_aggregate : (a b : Aggregate) → a ≡ b → same_aggregate a b ≡ true
≡→same_aggregate (assessment a) (assessment b) h = ground arith
≡→same_aggregate _ _ h = ground arith

instance abbrev pub aggregate_eq : Eq Aggregate
aggregate_eq = record {
  beq = same_aggregate;
  beq_iff = λ a b. (same_aggregate→≡ a b, ≡→same_aggregate a b);
}

pub record Db : Type 0 where
  pub assessments : List Assessment
  pub templates : List WorkflowTemplate
  pub outbox : List (OutboxEvent Aggregate Event)

abbrev pub assessment_key : Assessment → ℕ
assessment_key a = a.id

abbrev pub template_key : WorkflowTemplate → ℕ
template_key t = t.id

-- `SqlAlchemyAssessmentRepository.get_by_id`
abbrev pub get_by_id : ℕ → Exec Db (Option Assessment)
get_by_id k = gets (λ db. find assessment_key k db.assessments)

-- The row that `save` leaves: a new one has version 0, an old one counts up.
abbrev save_row : Assessment → Option ℕ → Option Assessment → Db → Result Db
save_row a expected none db =
    ok (record db { assessments = put assessment_key (record a { version = 0 }) db.assessments })
save_row a none (some row) db = ok (record db {
  assessments = put assessment_key (record a { version = row.version + 1 }) db.assessments;
})
save_row a (some v) (some row) db =
    if not (row.version == v)
    then err assessment_concurrency
    else ok (record db {
      assessments = put assessment_key (record a { version = row.version + 1 }) db.assessments;
    })

abbrev write : Session Db → Result Db → Result (Unit {0}) × Session Db
write s (ok db) = (ok tt, record s { work = db })
write s (err e) = (err e, s)

-- `SqlAlchemyAssessmentRepository.save`
unfoldable pub save : Assessment → Option ℕ → Exec Db (Unit {0})
save a expected s =
    write s (save_row a expected (find assessment_key a.id s.work.assessments) s.work)

-- `SqlAlchemyWorkflowTemplateRepository.get_by_id` and `save`
abbrev pub get_template : ℕ → Exec Db (Option WorkflowTemplate)
get_template k = gets (λ db. find template_key k db.templates)

unfoldable pub save_template : WorkflowTemplate → Exec Db (Unit {0})
save_template t = modify (λ db. record db { templates = put template_key t db.templates })

-- `append_event` in the transaction of the session.
unfoldable pub append : Aggregate → Event → Option ℕ → ℕ → Exec Db (Unit {0})
append k e tenant_id now =
    modify (λ db. record db { outbox = append_event k e tenant_id now db.outbox })
