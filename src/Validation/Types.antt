-- ===== src/Validation/Types.antt =====
-- contexts/validation/domain/value_objects.py. `V` stands for `float`.
use novaapi.Common.{
  ℕ, String, Bool, false, Option, none, some, List, length, ltb, ◌==◌, not, ◌||◌, if◌then◌else◌,
}
use novaapi.Errors.{Result, ok, err, value_error}

pub data SubjectType : Type 0 where
  stage_result prediction : SubjectType

pub data ValidationMode : Type 0 where
  classification regression : ValidationMode

pub data ValidationRunStatus : Type 0 where
  completed failed : ValidationRunStatus

pub data Verdict : Type 0 where
  pass fail : Verdict

-- What the context does with a `float`: `literal "0.5"` is the number that the source writes so,
-- `ratio` divides two integers, `sum` adds a list from the integer 0 on, `round_6` is `round(x, 6)`, and
-- `square` is `x**2`, which may raise an `OverflowError`.
pub record Floats (V : Type 0) : Type 0 where
  pub literal : String → V
  pub of_nat : ℕ → V
  pub ratio : ℕ → ℕ → V
  pub sum : List V → V
  pub square : V → Result V
  pub add : V → V → V
  pub sub : V → V → V
  pub mul : V → V → V
  pub div : V → V → V
  pub sqrt : V → V
  pub abs : V → V
  pub round_6 : V → V
  pub lt : V → V → Bool
  pub gt : V → V → Bool
  pub ge : V → V → Bool
  pub eq : V → V → Bool

pub record ValidationThresholds (V : Type 0) : Type 0 where
  pub min_overall_accuracy : Option V
  pub min_precision : Option V
  pub min_recall : Option V
  pub min_f1_score : Option V
  pub min_auc : Option V
  pub max_rmse : Option V
  pub max_mae : Option V
  pub min_r_squared : Option V
  pub min_adjusted_r_squared : Option V

pub record ConfusionMatrix : Type 0 where
  pub labels : List String
  pub matrix : List (List ℕ)

pub record RocPoint (V : Type 0) : Type 0 where
  pub fpr : V
  pub tpr : V
  pub threshold : V

pub record MetricSet (V : Type 0) : Type 0 where
  pub confusion_matrix : ConfusionMatrix
  pub sample_size : ℕ
  pub overall_accuracy : Option V
  pub precision : Option V
  pub recall : Option V
  pub specificity : Option V
  pub f1_score : Option V
  pub kappa : Option V
  pub auc : Option V
  pub optimal_threshold : Option V
  pub roc_points : List (RocPoint V)

pub record RegressionMetricSet (V : Type 0) : Type 0 where
  pub sample_size : ℕ
  pub rmse : V
  pub mae : V
  pub mse : V
  pub r_squared : V
  pub adjusted_r_squared : V

pub record RegressionModelMetadata : Type 0 where
  pub prediction_run_id : ℕ
  pub method : String
  pub formula_version : String
  pub predictor_variable_codes : List String
  pub dependent_variable_code : Option String
  pub sample_size : ℕ
  pub computed_at : ℕ

pub record RegressionValidationDataset (V : Type 0) : Type 0 where
  pub y_true : List V
  pub y_pred : List V
  pub num_predictors : ℕ

-- `RegressionValidationDataset.__post_init__`
unfoldable pub checked_regression_dataset :
    {V : Type 0} → RegressionValidationDataset V → Result (RegressionValidationDataset V)
checked_regression_dataset d =
    if ltb (length d.y_true) 2 || not (length d.y_true == length d.y_pred) || ltb d.num_predictors 1
    then err value_error
    else ok d

pub record ValidationDataset (V : Type 0) : Type 0 where
  pub y_true : List String
  pub y_pred : List String
  pub y_scores : Option (List V)
  pub labels : Option (List String)

abbrev bad_scores : {V : Type 0} → Option (List V) → List String → Bool
bad_scores none y_true = false
bad_scores (some scores) y_true = not (length scores == length y_true)

-- `ValidationDataset.__post_init__`
unfoldable pub checked_dataset : {V : Type 0} → ValidationDataset V → Result (ValidationDataset V)
checked_dataset d =
    if length d.y_true == 0
      || not (length d.y_true == length d.y_pred)
      || bad_scores d.y_scores d.y_true
    then err value_error
    else ok d
