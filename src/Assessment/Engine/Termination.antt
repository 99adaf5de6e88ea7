-- ===== src/Assessment/Engine/Termination.antt =====
-- How much fuel the engine of contexts/assessment/application/workflow_engine.py takes.
use novaapi.Common.{
  ℕ, suc, zero, ◌+◌, ◌*◌, ◌-◌, ◌≤◌, ◌<◌, ◌≡◌, ◌≢◌, inl, inr, true, Option, all, arith, String,
  Option-cases, ap,
}
use novaapi.Common.Table.{find}
use novaapi.Errors.{Result, ok, err, out_of_fuel}
use novaapi.Session.{in_session}
use novaapi.Assessment.Stage.{StageType}
use novaapi.Assessment.Entity.{Assessment}
use novaapi.Assessment.Entity
use novaapi.Assessment.Database.{Db, assessment_key}
use novaapi.Assessment.Handlers.{
  execute_stage_command, record_stage_completion, record_stage_failure, start_workflow_command,
}
use novaapi.Assessment.Engine.{
  StageExecutionOutcome, Env, system_actor, Outcome, Executor, then_run, error_text,
  on_stage_completed, on_stage_failed, record_outcome, execute_stage, start_workflow,
  dispatch_runnable_stages,
}
use novaapi.Assessment.Engine.Budget.{stages_left-le, started, broken, completed}
use novaapi.Assessment.Engine.Moves.{
  Raised, execute_stage_command-cases, record_stage_completion-cases, record_stage_failure-cases,
}
use novaapi.Assessment.Engine.Ends.{Ends, Ends-if, Ends-then_run, Raised-Ends, left, attempts}
use novaapi.Assessment.Engine.Dispatch.{
  within_limit, Bounded, EndsBelow, on_stage_completed-Ends, on_stage_failed-Ends,
  dispatch_runnable_stages-Ends,
}

module _ (k limit : ℕ) (env : Env) (tenant_id : ℕ) where
  -- A command that raised is the end of the run.
  Raised-then_run :
      (db : Db) (o : Result Assessment × Db) (f : Db → Outcome)
      → Raised db o
      → Ends k db (then_run o f)
  Raised-then_run db o f r =
      Ends-then_run k db o f (Raised-Ends k db o r) (λ u e. absurd (ground (arith, r.raised)))

  -- A failed attempt ends where a retry with an attempt left does.
  Retries : Executor → StageType → Db → Type 0
  Retries exec st db =
      (db' : Db)
      → Bounded k limit db'
      → left k db' ≡ left k db
      → attempts k st db' ≡ attempts k st db
      → attempts k st db' < limit
      → Ends k db' (exec st db')

  completion-Ends :
      (exec : Executor) (st : StageType) (ref : Option String) (db : Db)
      → Bounded k limit db
      → ((n : ℕ) → suc n ≤ left k db → EndsBelow k limit n exec)
      → Ends k db (
          then_run
            (in_session (record_stage_completion tenant_id k st ref (env.clock db)) db)
            (on_stage_completed env tenant_id k exec))
  completion-Ends exec st ref db b ends =
      let o = in_session (record_stage_completion tenant_id k st ref (env.clock db)) db in
      elim (record_stage_completion-cases tenant_id k st (env.clock db) db ref) [
        | inl r ↦ Raised-then_run db o (on_stage_completed env tenant_id k exec) r
        | inr w ↦
            let c = completed w.old w.new st _ _ _ w.moved in
            let fewer : suc (left k o.1) ≤ left k db = rw (w.was, w.is_now) c in
            Ends-then_run k db o (on_stage_completed env tenant_id k exec)
              (record {
                enough = w.succeeded;
                same_templates = w.same_templates;
                no_more = omega arith;
              })
              (λ u e.
                on_stage_completed-Ends k limit env tenant_id (left k o.1) exec
                  (ends (left k o.1) fewer) o.1 (rw w.same_templates b) (omega arith))
      ]

  failure-Ends :
      (exec : Executor) (st : StageType) (why : String) (db : Db)
      → Bounded k limit db
      → Retries exec st db
      → Ends k db (
          then_run
            (in_session (record_stage_failure tenant_id k st why (env.clock db)) db)
            (on_stage_failed env tenant_id k exec st))
  unfolding Retries
  failure-Ends exec st why db b again =
      let o = in_session (record_stage_failure tenant_id k st why (env.clock db)) db in
      elim (record_stage_failure-cases tenant_id k st (env.clock db) db why) [
        | inl r ↦ Raised-then_run db o (on_stage_failed env tenant_id k exec st) r
        | inr w ↦
            let c = broken w.old w.new st _ _ _ w.moved in
            let same : left k o.1 ≡ left k db = rw (w.was, w.is_now) c.0 in
            let tried : attempts k st o.1 ≡ attempts k st db = rw (w.was, w.is_now) c.1 in
            let b' : Bounded k limit o.1 = rw w.same_templates b in
            Ends-then_run k db o (on_stage_failed env tenant_id k exec st)
              (record {
                enough = w.succeeded;
                same_templates = w.same_templates;
                no_more = omega arith;
              })
              (λ u e.
                on_stage_failed-Ends k limit env tenant_id exec st o.1 b'
                  (λ r. again o.1 b' same tried r))
      ]

  record_outcome-Ends :
      (exec : Executor) (st : StageType) (outcome : StageExecutionOutcome) (db : Db)
      → Bounded k limit db
      → ((n : ℕ) → suc n ≤ left k db → EndsBelow k limit n exec)
      → Retries exec st db
      → Ends k db (record_outcome env tenant_id k exec st outcome db)
  unfolding record_outcome
  record_outcome-Ends exec st outcome db b ends again =
      Ends-if k db outcome.success _ _
        (λ s. completion-Ends exec st outcome.stage_result_ref db b ends)
        (λ f. failure-Ends exec st (error_text outcome.error) db b again)

  -- What an execution may still take.
  abbrev budget : StageType → Db → ℕ
  budget st db = left k db * (limit + 1) + (limit - attempts k st db)

  budget_falls : (m n l : ℕ) → suc m ≤ n → m * (l + 1) + l < n * (l + 1)
  budget_falls m n l h = grind arith

  times_le : (m n l : ℕ) → m ≤ n → m * l ≤ n * l
  times_le m n l h = grind arith

  -- Fuel above the budget is enough, for every executor and every state of the tables.
  execute_stage-Ends :
      (fuel : ℕ) (actor : String) (st : StageType) (db : Db)
      → Bounded k limit db
      → budget st db < fuel
      → Ends k db (execute_stage env tenant_id k fuel actor st db)
  unfolding execute_stage Retries
  execute_stage-Ends zero actor st db b f = absurd (omega arith)
  execute_stage-Ends (suc fuel) actor st db b f =
      let o = in_session (execute_stage_command tenant_id k st actor (env.clock db)) db in
      let after : Db → Outcome = λ db'.
        record_outcome env tenant_id k (execute_stage env tenant_id k fuel system_actor) st
          (env.execute db' st k) db' in
      elim (execute_stage_command-cases tenant_id k st (env.clock db) db actor) [
        | inl r ↦ Raised-then_run db o after r
        | inr w ↦
            let c = started w.old w.new st _ _ _ w.moved in
            let same : left k o.1 ≡ left k db = rw (w.was, w.is_now) c.0 in
            let tried : attempts k st o.1 ≡ attempts k st db + 1 = rw (w.was, w.is_now) c.1 in
            Ends-then_run k db o after
              (record {
                enough = w.succeeded;
                same_templates = w.same_templates;
                no_more = omega arith;
              })
              (λ u e.
                record_outcome-Ends (execute_stage env tenant_id k fuel system_actor) st
                  (env.execute o.1 st k) o.1 (rw w.same_templates b)
                  (λ n m st' db' b' l. execute_stage-Ends fuel system_actor st' db' b' (
                    omega (
                      arith,
                      times_le (left k db') n (limit + 1) l,
                      budget_falls n (left k o.1) limit m,
                      ap (λ (t : ℕ). t * (limit + 1)) same,
                    )))
                  (λ db' b' l' t' r. execute_stage-Ends fuel system_actor st db' b' (
                    omega (
                      arith,
                      ap (λ (t : ℕ). t * (limit + 1)) l',
                      ap (λ (t : ℕ). t * (limit + 1)) same,
                    ))))
      ]

  left-le : (db : Db) → left k db ≤ 9
  left-le db = elim (Option-cases (find assessment_key k db.assessments)) [
    | inl missing ↦ rw missing (omega arith)
    | inr (a, f) ↦ rw f (stages_left-le a)
  ]

  then_run-enough :
      {A : Type 0} (o : Result A × Db) (f : Db → Outcome)
      → o.0 ≢ err out_of_fuel
      → (f o.1).0 ≢ err out_of_fuel
      → (then_run o f).0 ≢ err out_of_fuel
  then_run-enough (ok u, db) f n h = h
  then_run-enough (err x, db) f n h = λ p. let q : x ≡ out_of_fuel = cc in n (ap (λ y. err y) q)

  start_workflow_command-fuel :
      (template_id : ℕ) (actor : String) (db : Db)
      → let o =
          in_session (start_workflow_command tenant_id k template_id actor (env.clock db)) db in
        (o.0 ≢ err out_of_fuel) × (o.1.templates ≡ db.templates)
  unfolding start_workflow_command Entity.start_workflow
  start_workflow_command-fuel template_id actor db = (ground arith, ground arith)

  -- Where no template of the tables allows a stage more than `limit` attempts, starting a workflow
  -- runs to its end on fuel 10 * (limit + 1), whatever the stages answer: it returns, or raises an
  -- error of the program.
  pub start_workflow_terminates :
      (fuel template_id : ℕ) (actor : String) (db : Db)
      → all (within_limit limit) db.templates ≡ true
      → 10 * (limit + 1) ≤ fuel
      → (start_workflow env tenant_id k fuel template_id actor db).0 ≢ err out_of_fuel
  unfolding start_workflow
  start_workflow_terminates fuel template_id actor db b h =
      let o = in_session (start_workflow_command tenant_id k template_id actor (env.clock db)) db in
      let c = start_workflow_command-fuel template_id actor db in
      let exec = execute_stage env tenant_id k fuel system_actor in
      then_run-enough o (dispatch_runnable_stages env tenant_id k exec) c.0
        (dispatch_runnable_stages-Ends k limit env tenant_id 9 exec
          (λ st db' b' l.
            execute_stage-Ends fuel system_actor st db' b'
              (omega (arith, times_le (left k db') 9 (limit + 1) l)))
          o.1 (rw c.1 b) (left-le o.1)).enough

  -- Where no template of the tables allows a stage more than `limit` attempts, the execution of a
  -- stage runs to its end on fuel 10 * (limit + 1), keeps the templates, and leaves no more stages
  -- to complete than before.
  pub execute_stage_terminates :
      (fuel : ℕ) (actor : String) (st : StageType) (db : Db)
      → all (within_limit limit) db.templates ≡ true
      → 10 * (limit + 1) ≤ fuel
      → ((execute_stage env tenant_id k fuel actor st db).0 ≢ err out_of_fuel)
        × ((execute_stage env tenant_id k fuel actor st db).1.templates ≡ db.templates)
        × (left k (execute_stage env tenant_id k fuel actor st db).1 ≤ left k db)
  execute_stage_terminates fuel actor st db b h =
      let e =
        execute_stage-Ends fuel actor st db b
          (omega (arith, times_le (left k db) 9 (limit + 1) (left-le db))) in
      (e.enough, e.same_templates, e.no_more)
