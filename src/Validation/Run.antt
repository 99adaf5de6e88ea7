-- ===== src/Validation/Run.antt =====
-- The `ValidationRun` aggregate of contexts/validation/domain/entities.py, with its events.
use novaapi.Common.{ℕ, String, Option, none, some}
use novaapi.Validation.Types.{
  Floats, SubjectType, prediction, ValidationMode, classification, regression, ValidationRunStatus,
  completed, failed, Verdict, pass, fail, ValidationThresholds, MetricSet, RegressionMetricSet,
  RegressionModelMetadata,
}
use novaapi.Validation.Metrics.{compute_verdict}
use novaapi.Validation.Regression.{compute_regression_verdict}

pub record ValidationRun (V : Type 0) : Type 0 where
  pub id : ℕ
  pub tenant_id : ℕ
  pub assessment_id : ℕ
  pub subject_id : String
  pub subject_type : SubjectType
  pub mode : ValidationMode
  pub status : ValidationRunStatus
  pub thresholds : ValidationThresholds V
  pub metrics : Option (MetricSet V)
  pub verdict : Option Verdict
  pub error : Option String
  pub issued_by : String
  pub created_at : ℕ
  pub regression_metrics : Option (RegressionMetricSet V)
  pub model_metadata : Option RegressionModelMetadata
  pub version : ℕ

pub data Event (V : Type 0) : Type 0 where
  validation_run_started : ℕ → ℕ → ℕ → String → SubjectType → String → Event V
  validation_completed validation_failed : ℕ → ℕ → ℕ → Option V → Option V → Option V → Event V
  regression_validation_completed regression_validation_failed : ℕ → ℕ → ℕ → V → V → V → V → Event V
  validation_run_errored : ℕ → ℕ → ℕ → String → Event V

-- What a construction returns: the run, its first event and its outcome.
abbrev pub Built : Type 0 → Type 0
Built V = ValidationRun V × Event V × Event V

module _ {V : Type 0} (new_id tenant_id assessment_id : ℕ) where
  -- `ValidationCompleted if verdict is Verdict.PASS else ValidationFailed`
  abbrev pub outcome_event : Verdict → MetricSet V → Event V
  outcome_event pass m =
      validation_completed new_id tenant_id assessment_id m.overall_accuracy m.f1_score m.auc
  outcome_event fail m =
      validation_failed new_id tenant_id assessment_id m.overall_accuracy m.f1_score m.auc

  abbrev pub regression_outcome_event : Verdict → RegressionMetricSet V → Event V
  regression_outcome_event pass m =
      regression_validation_completed new_id tenant_id assessment_id m.rmse m.mae m.r_squared
        m.adjusted_r_squared
  regression_outcome_event fail m =
      regression_validation_failed new_id tenant_id assessment_id m.rmse m.mae m.r_squared
        m.adjusted_r_squared

module _ {V : Type 0} (fl : Floats V) (new_id now tenant_id assessment_id : ℕ)
    (subject_id : String) where
  -- `ValidationRun.complete`
  unfoldable pub complete : SubjectType → ValidationThresholds V → MetricSet V → String → Built V
  complete subject_type thresholds metrics issued_by = (
    record {
      id = new_id;
      tenant_id = tenant_id;
      assessment_id = assessment_id;
      subject_id = subject_id;
      subject_type = subject_type;
      mode = classification;
      status = completed;
      thresholds = thresholds;
      metrics = some metrics;
      verdict = some (compute_verdict fl metrics thresholds);
      error = none;
      issued_by = issued_by;
      created_at = now;
      regression_metrics = none;
      model_metadata = none;
      version = 0;
    },
    validation_run_started new_id tenant_id assessment_id subject_id subject_type issued_by,
    outcome_event new_id tenant_id assessment_id (compute_verdict fl metrics thresholds) metrics,
  )

  -- `ValidationRun.complete_regression`
  unfoldable pub complete_regression :
      ValidationThresholds V
      → RegressionMetricSet V
      → Option RegressionModelMetadata
      → String
      → Built V
  complete_regression thresholds metrics model_metadata issued_by = (
    record {
      id = new_id;
      tenant_id = tenant_id;
      assessment_id = assessment_id;
      subject_id = subject_id;
      subject_type = prediction;
      mode = regression;
      status = completed;
      thresholds = thresholds;
      metrics = none;
      verdict = some (compute_regression_verdict fl metrics thresholds);
      error = none;
      issued_by = issued_by;
      created_at = now;
      regression_metrics = some metrics;
      model_metadata = model_metadata;
      version = 0;
    },
    validation_run_started new_id tenant_id assessment_id subject_id prediction issued_by,
    regression_outcome_event new_id tenant_id assessment_id
        (compute_regression_verdict fl metrics thresholds) metrics,
  )

  -- `ValidationRun.errored`
  unfoldable pub errored :
      SubjectType → ValidationThresholds V → String → String → ValidationMode → Built V
  errored subject_type thresholds error issued_by mode = (
    record {
      id = new_id;
      tenant_id = tenant_id;
      assessment_id = assessment_id;
      subject_id = subject_id;
      subject_type = subject_type;
      mode = mode;
      status = failed;
      thresholds = thresholds;
      metrics = none;
      verdict = none;
      error = some error;
      issued_by = issued_by;
      created_at = now;
      regression_metrics = none;
      model_metadata = none;
      version = 0;
    },
    validation_run_started new_id tenant_id assessment_id subject_id subject_type issued_by,
    validation_run_errored new_id tenant_id assessment_id error,
  )
