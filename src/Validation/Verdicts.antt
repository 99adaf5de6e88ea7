-- ===== src/Validation/Verdicts.antt =====
-- When a verdict is `pass`: `compute_verdict` and `compute_regression_verdict` against the thresholds
-- that were declared.
use novaapi.Common.{◌≡◌, ◌↔◌, refl, false, Option, none, some, arith}
use novaapi.Validation.Types.{Floats, ValidationThresholds, MetricSet, RegressionMetricSet, pass}
use novaapi.Validation.Metrics.{misses, checks, verdict_of, compute_verdict}
use novaapi.Validation.Regression.{exceeds, falls_short, compute_regression_verdict}

module _ {V : Type 0} (fl : Floats V) where
  -- An undeclared threshold asks nothing; a declared one asks for a metric that is not below it.
  abbrev pub Meets : Option V → Option V → Type 0
  Meets none v = Unit {0}
  Meets (some t) none = ⊥
  Meets (some t) (some v) = fl.lt v t ≡ false

  -- The same for a bound from above.
  abbrev pub StaysBelow : Option V → V → Type 0
  StaysBelow none v = Unit {0}
  StaysBelow (some t) v = fl.gt v t ≡ false

  pub misses-Meets : (t v : Option V) → misses fl t v ≡ false ↔ Meets t v
  misses-Meets none v = (λ e. tt, λ u. refl)
  misses-Meets (some t) none = ground arith
  misses-Meets (some t) (some v) = (λ e. e, λ e. e)

  exceeds-StaysBelow : (t : Option V) (v : V) → exceeds fl t v ≡ false ↔ StaysBelow t v
  exceeds-StaysBelow none v = (λ e. tt, λ u. refl)
  exceeds-StaysBelow (some t) v = (λ e. e, λ e. e)

  falls_short-Meets : (t : Option V) (v : V) → falls_short fl t v ≡ false ↔ Meets t (some v)
  falls_short-Meets none v = (λ e. tt, λ u. refl)
  falls_short-Meets (some t) v = (λ e. e, λ e. e)

  -- compute_verdict passes exactly when, for overall accuracy, precision, recall, F1 score and area under
  -- the curve alike, the threshold is not declared, or the metric is there and is not below it.
  pub compute_verdict_lem :
      (m : MetricSet V) (t : ValidationThresholds V)
      → compute_verdict fl m t ≡ pass
        ↔ Meets t.min_overall_accuracy m.overall_accuracy
          × Meets t.min_precision m.precision
          × Meets t.min_recall m.recall
          × Meets t.min_f1_score m.f1_score
          × Meets t.min_auc m.auc
  unfolding compute_verdict checks verdict_of
  compute_verdict_lem m t = ground (
    arith,
    misses-Meets t.min_overall_accuracy m.overall_accuracy,
    misses-Meets t.min_precision m.precision,
    misses-Meets t.min_recall m.recall,
    misses-Meets t.min_f1_score m.f1_score,
    misses-Meets t.min_auc m.auc,
  )

  -- The same of the regression metrics, with the errors bounded from above.
  pub compute_regression_verdict_lem :
      (m : RegressionMetricSet V) (t : ValidationThresholds V)
      → compute_regression_verdict fl m t ≡ pass
        ↔ StaysBelow t.max_rmse m.rmse
          × StaysBelow t.max_mae m.mae
          × Meets t.min_r_squared (some m.r_squared)
          × Meets t.min_adjusted_r_squared (some m.adjusted_r_squared)
  unfolding compute_regression_verdict
  compute_regression_verdict_lem m t = ground (
    arith,
    exceeds-StaysBelow t.max_rmse m.rmse,
    exceeds-StaysBelow t.max_mae m.mae,
    falls_short-Meets t.min_r_squared m.r_squared,
    falls_short-Meets t.min_adjusted_r_squared m.adjusted_r_squared,
  )
