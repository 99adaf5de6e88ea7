-- ===== src/Assessment/Handlers/Seen.antt =====
-- What a command on an assessment makes of the tenant's own row, and of the other rows
-- (application/handlers.py and workflow_handlers.py of contexts/assessment).
use novaapi.Common.{
  ℕ, ◌+◌, String, ◌≡◌, ◌≢◌, ◌⊎◌, inl, inr, Option, none, some, List, ◌==◌, if◌then◌else◌, arith,
  Option-cases, Bool-cases,
}
use novaapi.Common.Table.{find, find-put_ne, find-key}
use novaapi.Errors.{Error, Result, ok, err, Result-cases, assessment_not_found}
use novaapi.Session.{in_session}
use novaapi.Assessment.Events.{Event}
use novaapi.Assessment.Entity.{Assessment, start_workflow}
use novaapi.Assessment.Entity.Lifecycle.{object, object₂}
use novaapi.Assessment.Template.{WorkflowTemplate, required_stage_types}
use novaapi.Assessment.Database.{Db, assessment_key, template_key, aggregate_eq}
use novaapi.Assessment.Handlers.{
  Clock, template_or_404, startable, transact, start_workflow_command,
}
use novaapi.Assessment.Handlers.Atomic.{Method, KeepsKey, committed, outcome, transact_atomic}
use novaapi.Assessment.Handlers.Advance.{chain}

-- The assessment that a tenant has under an id: none, where there is none or another tenant's.
abbrev pub own : ℕ → ℕ → Db → Option Assessment
own t k db = elim (find assessment_key k db.assessments) [
  | none ↦ none
  | some a ↦ if a.tenant_id == t then some a else none
]

-- What a method makes of the tenant's own assessment.
abbrev pub answer : Method → Option Assessment → Result Assessment
answer m none = err assessment_not_found
answer m (some a) = object (m a)

own_cases :
    (t k : ℕ) (db : Db)
    → ((find assessment_key k db.assessments ≡ none) × (own t k db ≡ none))
      ⊎ ((a : Assessment) × (find assessment_key k db.assessments ≡ some a)
          × (a.id ≡ k)
          × (((a.tenant_id ≡ t) × (own t k db ≡ some a))
              ⊎ ((a.tenant_id ≢ t) × (own t k db ≡ none))))
own_cases t k db = elim (Option-cases (find assessment_key k db.assessments)) [
  | inl e ↦ inl (e, ground arith)
  | inr (a, e) ↦ inr (
    a,
    e,
    find-key assessment_key k db.assessments a e,
    elim (Bool-cases (a.tenant_id == t)) [
      | inl same ↦ inl (ground arith, ground arith)
      | inr other ↦ inr (ground arith, ground arith)
    ],
  )
]

-- A command returns an assessment, or raises and has written nothing.
abbrev pub OkOrUntouched : Db → Result Assessment × Db → Type 0
OkOrUntouched db o = ((b : Assessment) × (o.0 ≡ ok b)) ⊎ ((e : Error) × (o.0 ≡ err e) × (o.1 ≡ db))

pub transact-OkOrUntouched :
    (t k : ℕ) (m : Method) (appended : ℕ) (db : Db)
    → OkOrUntouched db (in_session (transact t k m appended) db)
transact-OkOrUntouched t k m appended db = elim (Result-cases (outcome t k m appended db)) [
  | inl done ↦ inl done
  | inr (e, h) ↦ inr (e, h, transact_atomic t k m appended db e h)
]

module _ (t k : ℕ) (m : Method) (appended : ℕ) (keeps : KeepsKey m) where
  pub transact-answer : (db : Db) → outcome t k m appended db ≡ answer m (own t k db)
  unfolding transact
  transact-answer db = elim (own_cases t k db) [
    | inl (f, o) ↦ ground arith
    | inr (a, f, i, inr (ne, o)) ↦ ground arith
    | inr (a, f, i, inl (e, o)) ↦ elim (Result-cases (m a)) [
      | inl ((b, event), r) ↦ ground (arith, keeps a b event r)
      | inr (x, r) ↦ ground arith
    ]
  ]

  pub transact-others :
      (db : Db) (j : ℕ) (a : Assessment)
      → find assessment_key j db.assessments ≡ some a
      → a.tenant_id ≢ t
      → find assessment_key j (committed t k m appended db).assessments ≡ some a
  unfolding transact
  transact-others db j a f ne = elim (own_cases t k db) [
    | inl (g, o) ↦ ground arith
    | inr (c, g, i, inr (d, o)) ↦ ground arith
    | inr (c, g, i, inl (e, o)) ↦ elim (Result-cases (m c)) [
      | inl ((b, event), r) ↦ ground (
        arith,
        keeps c b event r,
        find-put_ne assessment_key (record b { version = c.version + 1 }) j db.assessments,
      )
      | inr (x, r) ↦ ground arith
    ]
  ]

-- What `StartWorkflow` does with the assessment, where the templates are these.
abbrev pub begin_by :
    List WorkflowTemplate → ℕ → String → ℕ → Assessment → Result (Assessment × Event × Event)
begin_by templates template_id who now a =
    chain (template_or_404 (find template_key template_id templates)) λ t.
      chain (startable a t)
        λ s. start_workflow a t.id (required_stage_types t.stage_definitions) who now

begin_by-keeps :
    (templates : List WorkflowTemplate) (template_id : ℕ) (who : String) (now : ℕ)
    (a b : Assessment) (moved begun : Event)
    → begin_by templates template_id who now a ≡ ok (b, moved, begun)
    → (b.id ≡ a.id) × (b.version ≡ a.version)
unfolding start_workflow
begin_by-keeps templates template_id who now a b moved begun h = ground arith

module _ (t k template_id : ℕ) (who : String) (clock : Clock) where
  abbrev pub begun : Db → Result Assessment × Db
  begun db = in_session (start_workflow_command t k template_id who clock) db

  abbrev pub begin_answer : List WorkflowTemplate → Option Assessment → Result Assessment
  begin_answer templates none = err assessment_not_found
  begin_answer templates (some a) = object₂ (begin_by templates template_id who (clock 0) a)

  pub begin-answer : (db : Db) → (begun db).0 ≡ begin_answer db.templates (own t k db)
  unfolding start_workflow_command
  begin-answer db = elim (own_cases t k db) [
    | inl (f, o) ↦ ground arith
    | inr (a, f, i, inr (ne, o)) ↦ ground arith
    | inr (a, f, i, inl (e, o)) ↦
        elim (Result-cases (begin_by db.templates template_id who (clock 0) a)) [
          | inl ((b, moved, start), r) ↦
              ground
                (arith, begin_by-keeps db.templates template_id who (clock 0) a b moved start r)
          | inr (x, r) ↦ ground arith
        ]
  ]

  pub begin-others :
      (db : Db) (j : ℕ) (a : Assessment)
      → find assessment_key j db.assessments ≡ some a
      → a.tenant_id ≢ t
      → find assessment_key j (begun db).1.assessments ≡ some a
  unfolding start_workflow_command
  begin-others db j a f ne = elim (own_cases t k db) [
    | inl (g, o) ↦ ground arith
    | inr (c, g, i, inr (d, o)) ↦ ground arith
    | inr (c, g, i, inl (e, o)) ↦
        elim (Result-cases (begin_by db.templates template_id who (clock 0) c)) [
          | inl ((b, moved, start), r) ↦ ground (
            arith,
            begin_by-keeps db.templates template_id who (clock 0) c b moved start r,
            find-put_ne assessment_key (record b { version = c.version + 1 }) j db.assessments,
          )
          | inr (x, r) ↦ ground arith
        ]
  ]

  pub begin-OkOrUntouched : (db : Db) → OkOrUntouched db (begun db)
  unfolding start_workflow_command
  begin-OkOrUntouched db = elim (Result-cases (begun db).0) [
    | inl done ↦ inl done
    | inr (e, h) ↦ inr (e, h, ground (arith, h))
  ]
