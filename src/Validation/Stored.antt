-- ===== src/Validation/Stored.antt =====
-- What the two handlers leave in the tables: every stored run is sound, and was announced.
use novaapi.Common.{ℕ, ◌≡◌, refl, String, Option, none, some, [], ◌∷◌, ◌++◌}
use novaapi.Errors.{Error, Result, ok, err}
use novaapi.Session.{in_session}
use novaapi.Outbox.{append_event}
use novaapi.Validation.Types.{
  Floats, SubjectType, ValidationMode, classification, regression, ValidationRunStatus, completed,
  failed, ValidationDataset, ValidationThresholds, Verdict, pass, fail, MetricSet,
  RegressionMetricSet,
}
use novaapi.Validation.Metrics.{compute_verdict, compute_metric_set, default_validation_thresholds}
use novaapi.Validation.Regression.{
  compute_regression_verdict, default_regression_validation_thresholds,
}
use novaapi.Validation.Run.{
  ValidationRun, Event, Built, validation_run_started, validation_completed, validation_failed,
  regression_validation_completed, regression_validation_failed, validation_run_errored,
  outcome_event, regression_outcome_event, complete, complete_regression, errored,
}
use novaapi.Validation.Handlers.{
  Db, Resolution, resolved, raised, RegressionValidationSubject, save, append, store, judge,
  judge_regression, run_id_eq, run_validation, run_regression_validation, subject_type_of,
}

module _ {V : Type 0} (fl : Floats V) where
  -- What a run must hold, by its status, its mode, its metrics, its verdict and its error.
  abbrev pub Sound :
      ValidationThresholds V
      → ValidationRunStatus
      → ValidationMode
      → Option (MetricSet V)
      → Option (RegressionMetricSet V)
      → Option Verdict
      → Option String
      → Type 0
  Sound t completed classification (some m) none (some v) none = v ≡ compute_verdict fl m t
  Sound t completed regression none (some m) (some v) none = v ≡ compute_regression_verdict fl m t
  Sound t failed mode none none none (some text) = Unit {0}
  Sound _ _ _ _ _ _ _ = ⊥

  abbrev pub IsSound : ValidationRun V → Type 0
  IsSound r = Sound r.thresholds r.status r.mode r.metrics r.regression_metrics r.verdict r.error

  -- The event that tells a run's outcome.
  abbrev outcome :
      ℕ
      → ℕ
      → ℕ
      → Option (MetricSet V)
      → Option (RegressionMetricSet V)
      → Option Verdict
      → Option String
      → Option (Event V)
  outcome k t a (some m) none (some pass) none =
      some (validation_completed k t a m.overall_accuracy m.f1_score m.auc)
  outcome k t a (some m) none (some fail) none =
      some (validation_failed k t a m.overall_accuracy m.f1_score m.auc)
  outcome k t a none (some m) (some pass) none =
      some (regression_validation_completed k t a m.rmse m.mae m.r_squared m.adjusted_r_squared)
  outcome k t a none (some m) (some fail) none =
      some (regression_validation_failed k t a m.rmse m.mae m.r_squared m.adjusted_r_squared)
  outcome k t a none none none (some text) = some (validation_run_errored k t a text)
  outcome _ _ _ _ _ _ _ = none

  abbrev pub outcome_of : ValidationRun V → Option (Event V)
  outcome_of r =
      outcome r.id r.tenant_id r.assessment_id r.metrics r.regression_metrics r.verdict r.error

  abbrev pub started_of : ValidationRun V → Event V
  started_of r =
      validation_run_started r.id r.tenant_id r.assessment_id r.subject_id r.subject_type
        r.issued_by

  -- A run is sound, and its two events tell of it.
  abbrev pub Announced : ℕ → ℕ → ℕ → String → Built V → Type 0
  Announced k t a subject (r, e, f) =
      IsSound r
      × (r.id ≡ k)
      × (r.tenant_id ≡ t)
      × (r.assessment_id ≡ a)
      × (r.subject_id ≡ subject)
      × (e ≡ started_of r)
      × (outcome_of r ≡ some f)

  outcome-event :
      (v : Verdict) (k t a : ℕ) (m : MetricSet V)
      → outcome k t a (some m) none (some v) none ≡ some (outcome_event k t a v m)
  outcome-event pass k t a m = refl
  outcome-event fail k t a m = refl

  outcome-regression_event :
      (v : Verdict) (k t a : ℕ) (m : RegressionMetricSet V)
      → outcome k t a none (some m) (some v) none ≡ some (regression_outcome_event k t a v m)
  outcome-regression_event pass k t a m = refl
  outcome-regression_event fail k t a m = refl

  module _ (k : ℕ) (clock : ℕ → ℕ) (t a : ℕ) (subject : String) where
    judge-Announced :
        (answer : Resolution (ValidationDataset V)) (st : SubjectType) (by : String)
        → Announced k t a subject (judge fl k clock t a subject answer st by)
    unfolding judge complete errored
    judge-Announced (resolved d) st by = (
      refl,
      refl,
      refl,
      refl,
      refl,
      refl,
      outcome-event
          (compute_verdict fl (compute_metric_set fl d) (default_validation_thresholds fl)) k t a
          (compute_metric_set fl d),
    )
    judge-Announced (raised text) st by = (tt, refl, refl, refl, refl, refl, refl)

    judge_regression-Announced :
        (answer : Resolution (RegressionValidationSubject V)) (by : String)
        → Announced k t a subject (judge_regression fl k clock t a subject answer by)
    unfolding judge_regression complete_regression errored
    judge_regression-Announced (resolved s) by = (
      refl,
      refl,
      refl,
      refl,
      refl,
      refl,
      outcome-regression_event
          (compute_regression_verdict fl s.metrics (default_regression_validation_thresholds fl)) k
          t a s.metrics,
    )
    judge_regression-Announced (raised text) by = (tt, refl, refl, refl, refl, refl, refl)

-- What a handler leaves behind: its run at the end of the table, and the two events.
abbrev pub Leaves :
    {V : Type 0} → Built V → (ℕ → ℕ) → ℕ → Db V → Result (ValidationRun V) × Db V → Type 0
Leaves (r, e, f) clock t db (result, after) =
    (result ≡ ok r)
    × (after.runs ≡ db.runs ++ r ∷ [])
    × (after.outbox
        ≡ append_event r.id f (some t) (clock 2) (append_event r.id e (some t) (clock 1) db.outbox))

module _ {V : Type 0} (fl : Floats V) (k : ℕ) (clock : ℕ → ℕ) (t a : ℕ) (subject : String)
    (db : Db V) where
  store-Leaves : (b : Built V) → Leaves b clock t db (in_session (store t b clock) db)
  unfolding store save append
  store-Leaves (r, e, f) = (refl, refl, refl)

  -- Where the subject type is known, RunValidation returns a run and leaves it at the end of the table,
  -- whatever the resolver answers or raises: a sound run of the command's tenant, assessment and
  -- subject. Its start and its outcome are appended to the outbox, in this order.
  pub run_validation-Leaves :
      (resolve : String → SubjectType → ℕ → Resolution (ValidationDataset V)) (text by : String)
      (st : SubjectType)
      → subject_type_of text ≡ ok st
      → (b : Built V) × Announced fl k t a subject b
        × Leaves b clock t db
            (in_session (run_validation fl k clock t a subject resolve text by) db)
  unfolding run_validation
  run_validation-Leaves resolve text by st known = rw known (
    judge fl k clock t a subject (resolve subject st a) st by,
    judge-Announced fl k clock t a subject (resolve subject st a) st by,
    store-Leaves (judge fl k clock t a subject (resolve subject st a) st by),
  )

  pub run_regression_validation-Leaves :
      (resolve : String → ℕ → ℕ → Resolution (RegressionValidationSubject V)) (by : String)
      → (b : Built V) × Announced fl k t a subject b
        × Leaves b clock t db
            (in_session (run_regression_validation fl k clock t a subject resolve by) db)
  unfolding run_regression_validation
  run_regression_validation-Leaves resolve by = (
    judge_regression fl k clock t a subject (resolve subject a t) by,
    judge_regression-Announced fl k clock t a subject (resolve subject a t) by,
    store-Leaves (judge_regression fl k clock t a subject (resolve subject a t) by),
  )

  -- An unknown subject type raises before the resolver is asked, and nothing is written.
  pub run_validation-unknown :
      (resolve : String → SubjectType → ℕ → Resolution (ValidationDataset V)) (text by : String)
      (e : Error)
      → subject_type_of text ≡ err e
      → in_session (run_validation fl k clock t a subject resolve text by) db ≡ (err e, db)
  unfolding run_validation
  run_validation-unknown resolve text by e known = rw known refl
