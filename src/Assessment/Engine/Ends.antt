-- ===== src/Assessment/Engine/Ends.antt =====
-- Runs of the engine that end with fuel to spare.
use novaapi.Common.{ℕ, ◌≤◌, ◌≡◌, ◌≢◌, refl, Bool, true, false, Option, none, some, arith, ap, ◌∙◌}
use novaapi.Common.Table.{find}
use novaapi.Errors.{Result, ok, err, out_of_fuel}
use novaapi.Assessment.Stage.{StageType}
use novaapi.Assessment.Entity.{Assessment}
use novaapi.Assessment.Entity.Workflow.{entry}
use novaapi.Assessment.Template.{WorkflowTemplate}
use novaapi.Assessment.Database.{Db, assessment_key}
use novaapi.Assessment.Engine.{Env, Outcome, then_run, load_assessment_and_template}
use novaapi.Assessment.Engine.Budget.{stages_left}
use novaapi.Assessment.Engine.Moves.{Raised}

abbrev pub left_of : Option Assessment → ℕ
left_of none = 0
left_of (some a) = stages_left a

abbrev pub attempts_of : StageType → Option Assessment → ℕ
attempts_of st none = 0
attempts_of st (some a) = (entry a st).attempt_count

module _ (k : ℕ) where
  abbrev pub left : Db → ℕ
  left db = left_of (find assessment_key k db.assessments)

  abbrev pub attempts : StageType → Db → ℕ
  attempts st db = attempts_of st (find assessment_key k db.assessments)

  -- A run that ends with fuel to spare, keeps the templates, and leaves no more to do.
  pub record Ends {A : Type 0} (db : Db) (o : Result A × Db) : Type 0 where
    pub enough : o.0 ≢ err out_of_fuel
    pub same_templates : o.1.templates ≡ db.templates
    pub no_more : left o.1 ≤ left db

  pub still : (db : Db) → Ends {A = Unit {0}} db (ok tt, db)
  still db = record { enough = λ p. cc; same_templates = refl; no_more = omega arith }

  pub Ends-then_run :
      {A : Type 0} (db : Db) (o : Result A × Db) (f : Db → Outcome)
      → Ends db o
      → ((u : A) → o.0 ≡ ok u → Ends o.1 (f o.1))
      → Ends db (then_run o f)
  Ends-then_run db (ok u, db') f e h =
      let w = h u refl in
      record {
        enough = w.enough;
        same_templates = w.same_templates ∙ e.same_templates;
        no_more = omega (arith, w.no_more, e.no_more);
      }
  Ends-then_run db (err x, db') f e h = record {
    enough = λ p. let q : x ≡ out_of_fuel = cc in e.enough (ap (λ y. err y) q);
    same_templates = e.same_templates;
    no_more = e.no_more;
  }

  pub Raised-Ends : (db : Db) (o : Result Assessment × Db) → Raised db o → Ends db o
  Raised-Ends db o r = record {
    enough = λ p. ground (arith, r.raised, r.no_fuel_needed);
    same_templates = ap (λ (d : Db). d.templates) r.unchanged;
    no_more = rw r.unchanged (omega arith);
  }

  -- A reaction that first loads the assessment with its template.
  pub Ends-load :
      (db : Db) (r : Result (Assessment × Option WorkflowTemplate))
      (f : Assessment × Option WorkflowTemplate → Outcome)
      → r ≢ err out_of_fuel
      → ((x : Assessment × Option WorkflowTemplate) → r ≡ ok x → Ends db (f x))
      → Ends {A = Unit {0}} db (elim r [ err e ↦ (err e, db) | ok x ↦ f x ])
  Ends-load db (ok x) f n h = h x refl
  Ends-load db (err e) f n h = record {
    enough = λ p. let q : e ≡ out_of_fuel = cc in n (ap (λ y. err y) q);
    same_templates = refl;
    no_more = omega arith;
  }

  pub Ends-if :
      (db : Db) (b : Bool) (x y : Outcome)
      → (b ≡ true → Ends db x)
      → (b ≡ false → Ends db y)
      → Ends {A = Unit {0}} db (elim b [ true ↦ x | false ↦ y ])
  Ends-if db true x y h g = h refl
  Ends-if db false x y h g = g refl

  pub Ends-bound :
      (db : Db) (t : Option WorkflowTemplate) (f : WorkflowTemplate → Outcome)
      → ((u : WorkflowTemplate) → t ≡ some u → Ends db (f u))
      → Ends {A = Unit {0}} db (elim t [ none ↦ (ok tt, db) | some u ↦ f u ])
  Ends-bound db none f h = still db
  Ends-bound db (some u) f h = h u refl

  pub load-fuel :
      (env : Env) (tenant_id : ℕ) (db : Db)
      → load_assessment_and_template env tenant_id k db ≢ err out_of_fuel
  unfolding load_assessment_and_template
  load-fuel env tenant_id db = ground arith
