-- ===== src/Assessment/Engine/Dispatch.antt =====
-- The engine's reactions end where the executor that they call does.
use novaapi.Common.{
  ℕ, ◌+◌, ◌≤◌, ◌<◌, ◌≡◌, inl, inr, Bool, true, some, List, [], ◌∷◌, all, leb, arith, String,
  Option-cases, ap, ◌∙◌,
}
use novaapi.Common.Table.{find, find-key, find-put_self, find-all}
use novaapi.Errors.{ok}
use novaapi.Session.{in_session}
use novaapi.Assessment.Types.{validated}
use novaapi.Assessment.Stage.{StageType, StageDefinition}
use novaapi.Assessment.Entity.{Assessment, advance_past_running}
use novaapi.Assessment.Entity.Workflow.{entry}
use novaapi.Assessment.Template.{WorkflowTemplate, get_stage_definition, required_stage_types}
use novaapi.Assessment.Database.{Db, assessment_key, template_key}
use novaapi.Assessment.Handlers.{advance_assessment}
use novaapi.Assessment.Engine.{
  Env, system_actor, Executor, load_assessment_and_template, dispatch_one, dispatch_each,
  dispatch_runnable_stages, on_stage_completed, may_retry, on_stage_failed,
}
use novaapi.Assessment.Engine.Budget.{stages_left}
use novaapi.Assessment.Stage.{all_complete}
use novaapi.Assessment.Engine.Ends.{
  Ends, still, Ends-then_run, Ends-load, Ends-if, Ends-bound, load-fuel, left, attempts,
}

-- No stage of a template may be attempted more often than `limit` by retries.
abbrev pub within_limit : ℕ → WorkflowTemplate → Bool
within_limit limit t = all (λ sd. leb sd.max_attempts limit) t.stage_definitions

module _ (k : ℕ) where
  module _ (limit : ℕ) where
    abbrev pub Bounded : Db → Type 0
    Bounded db = all (within_limit limit) db.templates ≡ true

    -- An executor that ends wherever at most so many stages are left.
    abbrev pub EndsBelow : ℕ → Executor → Type 0
    EndsBelow n exec =
        (st : StageType) (db : Db) → Bounded db → left k db ≤ n → Ends k db (exec st db)

    module _ (env : Env) (tenant_id n : ℕ) (exec : Executor) (ends : EndsBelow n exec) where
      dispatch_one-Ends :
          (st : StageType) (db : Db)
          → Bounded db
          → left k db ≤ n
          → Ends k db (dispatch_one env tenant_id k exec st db)
      unfolding dispatch_one
      dispatch_one-Ends st db b l =
          Ends-load k db (load_assessment_and_template env tenant_id k db) _
            (load-fuel k env tenant_id db)
            (λ x h. Ends-if k db _ _ _ (λ t. ends st db b l) (λ f. still k db))

      dispatch_each-Ends :
          (sds : List StageDefinition) (db : Db)
          → Bounded db
          → left k db ≤ n
          → Ends k db (dispatch_each env tenant_id k exec sds db)
      unfolding dispatch_each
      dispatch_each-Ends [] db b l = still k db
      dispatch_each-Ends (sd ∷ sds) db b l =
          let e = dispatch_one-Ends sd.stage_type db b l in
          Ends-then_run k db (dispatch_one env tenant_id k exec sd.stage_type db)
            (dispatch_each env tenant_id k exec sds) e
            (λ u h. dispatch_each-Ends sds _ (rw e.same_templates b) (omega (arith, e.no_more)))

      pub dispatch_runnable_stages-Ends :
          (db : Db)
          → Bounded db
          → left k db ≤ n
          → Ends k db (dispatch_runnable_stages env tenant_id k exec db)
      unfolding dispatch_runnable_stages
      dispatch_runnable_stages-Ends db b l =
          Ends-load k db (load_assessment_and_template env tenant_id k db) _
            (load-fuel k env tenant_id db)
            (λ x h. Ends-bound k db x.1 _ (λ t g. dispatch_each-Ends _ db b l))

      advance_assessment-Ends :
          (actor : String) (clock : ℕ → ℕ) (db : Db)
          → Ends k db (in_session (advance_assessment tenant_id k actor clock) db)
      unfolding advance_assessment advance_past_running stages_left
      advance_assessment-Ends actor clock db =
          elim (Option-cases (find assessment_key k db.assessments)) [
            | inl missing ↦ record {
              enough = ground arith;
              same_templates = ground arith;
              no_more = ground arith;
            }
            | inr (a, f) ↦
                let same : a.id ≡ k = find-key assessment_key k db.assessments a f in
                let v : Assessment = record a {
                  status = validated;
                  updated_at = clock 0;
                  version = a.version + 1;
                } in
                record {
                  enough = ground arith;
                  same_templates = ground arith;
                  no_more =
                      rw (← same) (ground (arith, find-put_self assessment_key v db.assessments));
                }
          ]

      pub on_stage_completed-Ends :
          (db : Db)
          → Bounded db
          → left k db ≤ n
          → Ends k db (on_stage_completed env tenant_id k exec db)
      unfolding on_stage_completed
      on_stage_completed-Ends db b l =
          Ends-load k db (load_assessment_and_template env tenant_id k db) _
            (load-fuel k env tenant_id db)
            (λ x h. Ends-bound k db x.1 _ (λ t g.
              Ends-if k db
                (all_complete x.0.workflow_progress (required_stage_types t.stage_definitions)) _ _
                (λ c.
                  Ends-then_run k db _ (λ db'. (ok tt, db'))
                    (advance_assessment-Ends system_actor (env.clock db) db) (λ u e. still k _))
                (λ c. dispatch_runnable_stages-Ends db b l)))

    module _ (env : Env) (tenant_id : ℕ) where
      get_stage_definition-limit :
          (sds : List StageDefinition) (st : StageType) (tried : ℕ)
          → all (λ sd. leb sd.max_attempts limit) sds ≡ true
          → may_retry env tenant_id k (get_stage_definition sds st) tried ≡ true
          → tried < limit
      unfolding get_stage_definition may_retry
      get_stage_definition-limit [] st tried h r = ground arith
      get_stage_definition-limit (sd ∷ sds) st tried h r =
          ground (arith, get_stage_definition-limit sds st tried)

      -- What is loaded is the assessment, with a template of the table.
      loaded_is :
          (db : Db) (a : Assessment) (t : WorkflowTemplate)
          → Bounded db
          → load_assessment_and_template env tenant_id k db ≡ ok (a, some t)
          → (find assessment_key k db.assessments ≡ some a) × (within_limit limit t ≡ true)
      unfolding load_assessment_and_template
      loaded_is db a t b h = elim (Option-cases (find assessment_key k db.assessments)) [
        | inl missing ↦ ground arith
        | inr (x, f) ↦ elim (Option-cases x.workflow_template_id) [
          | inl none_bound ↦ ground arith
          | inr (i, g) ↦ (
            ground arith,
            ground (arith, find-all template_key (within_limit limit) i db.templates t b),
          )
        ]
      ]

      pub on_stage_failed-Ends :
          (exec : Executor) (st : StageType) (db : Db)
          → Bounded db
          → (attempts k st db < limit → Ends k db (exec st db))
          → Ends k db (on_stage_failed env tenant_id k exec st db)
      unfolding on_stage_failed
      on_stage_failed-Ends exec st db b again =
          Ends-load k db (load_assessment_and_template env tenant_id k db) _
            (load-fuel k env tenant_id db)
            (λ x h. Ends-bound k db x.1 _ (λ t g.
              let w = loaded_is db x.0 t b (h ∙ ap (λ y. ok (x.0, y)) g) in
              Ends-if k db
                (may_retry env tenant_id k (get_stage_definition t.stage_definitions st)
                  (entry x.0 st).attempt_count)
                _ _
                (λ r. again (
                  rw w.0 (
                    get_stage_definition-limit t.stage_definitions st (entry x.0 st).attempt_count
                      w.1 r)))
                (λ r. still k db)))
