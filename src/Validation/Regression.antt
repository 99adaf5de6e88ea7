-- ===== src/Validation/Regression.antt =====
-- contexts/validation/domain/regression_metrics.py
use novaapi.Common.{
  ℕ, ◌+◌, ◌-◌, Bool, false, Option, none, some, List, [], ◌∷◌, map, length, ltb, if◌then◌else◌,
}
use novaapi.Errors.{Result, ok, err}
use novaapi.Validation.Types.{
  Floats, RegressionMetricSet, RegressionValidationDataset, ValidationThresholds, Verdict, pass,
  fail,
}
use novaapi.Validation.Metrics.{mean}

module _ {V : Type 0} (fl : Floats V) where
  unfoldable pub default_regression_validation_thresholds : ValidationThresholds V
  default_regression_validation_thresholds = record {
    min_overall_accuracy = none;
    min_precision = none;
    min_recall = none;
    min_f1_score = none;
    min_auc = none;
    max_rmse = some (fl.literal "10.0");
    max_mae = none;
    min_r_squared = some (fl.literal "0.5");
    min_adjusted_r_squared = none;
  }

  -- `dataset.y_true[i] - dataset.y_pred[i]`; the lists of a dataset are equally long.
  unfoldable pub residuals : List V → List V → List V
  residuals (y ∷ ys) (p ∷ ps) = fl.sub y p ∷ residuals ys ps
  residuals _ _ = []

  -- `[x**2 for x in xs]`
  unfoldable pub squares : List V → Result (List V)
  squares [] = ok []
  squares (x ∷ xs) = elim (fl.square x) [
    | err e ↦ err e
    | ok v ↦ elim (squares xs) [ err e ↦ err e | ok vs ↦ ok (v ∷ vs) ]
  ]

  -- What is computed of the residuals and of the squares of the residuals and of the deviations.
  unfoldable pub regression_metrics_of : ℕ → ℕ → List V → List V → List V → RegressionMetricSet V
  unfolding mean
  regression_metrics_of n k rs squared totals =
      let mse = mean fl squared in
      let ss_tot = fl.sum totals in
      let r_squared =
        if fl.gt ss_tot (fl.literal "0.0")
        then fl.sub (fl.literal "1.0") (fl.div (fl.sum squared) ss_tot)
        else fl.literal "0.0" in
      let adjusted =
        if ltb (k + 1) n
        then fl.sub (fl.literal "1.0") (
            fl.div (fl.mul (fl.sub (fl.literal "1.0") r_squared) (fl.of_nat (n - 1)))
              (fl.of_nat (n - k - 1)))
        else fl.literal "0.0" in
      record {
        sample_size = n;
        rmse = fl.round_6 (fl.sqrt mse);
        mae = fl.round_6 (mean fl (map fl.abs rs));
        mse = fl.round_6 mse;
        r_squared = fl.round_6 r_squared;
        adjusted_r_squared = fl.round_6 adjusted;
      }

  unfoldable pub compute_regression_metric_set :
      RegressionValidationDataset V → Result (RegressionMetricSet V)
  unfolding residuals squares mean regression_metrics_of
  compute_regression_metric_set d =
      let rs = residuals d.y_true d.y_pred in
      let y_mean = mean fl d.y_true in
      elim (squares rs) [
        | err e ↦ err e
        | ok squared ↦ elim (squares (map (λ y. fl.sub y y_mean) d.y_true)) [
          | err e ↦ err e
          | ok totals ↦
              ok (regression_metrics_of (length d.y_true) d.num_predictors rs squared totals)
        ]
      ]

  -- `threshold is not None and value > threshold`
  abbrev pub exceeds : Option V → V → Bool
  exceeds none v = false
  exceeds (some t) v = fl.gt v t

  -- `threshold is not None and value < threshold`
  abbrev pub falls_short : Option V → V → Bool
  falls_short none v = false
  falls_short (some t) v = fl.lt v t

  unfoldable pub compute_regression_verdict :
      RegressionMetricSet V → ValidationThresholds V → Verdict
  compute_regression_verdict m t =
      if exceeds t.max_rmse m.rmse
      then fail
      else if exceeds t.max_mae m.mae
      then fail
      else if falls_short t.min_r_squared m.r_squared
      then fail
      else if falls_short t.min_adjusted_r_squared m.adjusted_r_squared
      then fail
      else pass
