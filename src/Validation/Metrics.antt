-- ===== src/Validation/Metrics.antt =====
-- contexts/validation/domain/metrics.py: the metrics of a dataset and the verdict on them.
use text.Mathlib.Text.{◌==◌ as str_eq}
use novaapi.Common.{
  ℕ, suc, ◌+◌, ◌*◌, String, Bool, true, false, Option, none, some, List, [], ◌∷◌, map, length, ◌==◌,
  if◌then◌else◌,
}
use novaapi.Validation.Types.{
  Floats, ConfusionMatrix, RocPoint, MetricSet, ValidationDataset, ValidationThresholds, Verdict,
  pass, fail,
}
use novaapi.Validation.Matrix.{
  Counts, build_confusion_matrix, sum, total, col_sum, correct, per_class_counts, binary_counts,
}
use novaapi.Validation.Ranks.{safe_ratio, safe_div, compute_roc}

-- `labels[-1]`
unfoldable pub last_label : List String → Option String
last_label [] = none
last_label (l ∷ []) = some l
last_label (l ∷ l' ∷ ls) = last_label (l' ∷ ls)

-- `sum(row_sums[k] * col_sums[k] for k in range(n))`, over the rows from k on.
unfoldable pub chance_agreement : ℕ → List (List ℕ) → List (List ℕ) → ℕ
unfolding sum col_sum
chance_agreement k m [] = 0
chance_agreement k m (r ∷ rs) = sum r * col_sum k m + chance_agreement (suc k) m rs

-- The metrics of one-vs-rest counts, or their averages.
pub record Scores (V : Type 0) : Type 0 where
  pub precision : V
  pub recall : V
  pub specificity : Option V
  pub f1 : V

module _ {V : Type 0} (fl : Floats V) where
  -- `threshold is not None and (value is None or value < threshold)`
  abbrev pub misses : Option V → Option V → Bool
  misses none value = false
  misses (some t) none = true
  misses (some t) (some v) = fl.lt v t

  unfoldable pub default_validation_thresholds : ValidationThresholds V
  default_validation_thresholds = record {
    min_overall_accuracy = some (fl.literal "0.70");
    min_precision = none;
    min_recall = none;
    min_f1_score = some (fl.literal "0.60");
    min_auc = none;
    max_rmse = none;
    max_mae = none;
    min_r_squared = none;
    min_adjusted_r_squared = none;
  }

  -- `_mean`
  unfoldable pub mean : List V → V
  mean [] = fl.literal "0.0"
  mean (v ∷ vs) = fl.div (fl.sum (v ∷ vs)) (fl.of_nat (length (v ∷ vs)))

  -- `_compute_kappa`
  unfoldable pub compute_kappa : ConfusionMatrix → V
  unfolding total chance_agreement correct safe_ratio safe_div
  compute_kappa cm =
      let n = total cm.matrix in
      let pe = safe_ratio fl (chance_agreement 0 cm.matrix cm.matrix) (n * n) in
      let oa = safe_ratio fl (correct cm.matrix) n in
      if n == 0 then fl.literal "0.0" else safe_div fl (fl.sub oa pe) (fl.sub (fl.literal "1.0") pe)

  -- `_safe_div(2.0 * p * r, p + r)`
  unfoldable pub f1_of : V → V → V
  unfolding safe_div
  f1_of p r = safe_div fl (fl.mul (fl.mul (fl.literal "2.0") p) r) (fl.add p r)

  -- The formulas of the binary case.
  unfoldable pub binary_scores : Counts → Scores V
  unfolding safe_ratio f1_of
  binary_scores c =
      let p = safe_ratio fl c.tp (c.tp + c.fp) in
      let r = safe_ratio fl c.tp (c.tp + c.fn) in
      record {
        precision = p;
        recall = r;
        specificity = some (safe_ratio fl c.tn (c.tn + c.fp));
        f1 = f1_of p r;
      }

  -- The averages over the labels.
  unfoldable pub macro_scores : ConfusionMatrix → Scores V
  unfolding per_class_counts binary_scores mean
  macro_scores cm =
      let each = map (λ label. binary_scores (per_class_counts cm label)) cm.labels in
      record {
        precision = mean (map (λ (s : Scores V). s.precision) each);
        recall = mean (map (λ (s : Scores V). s.recall) each);
        specificity = none;
        f1 = mean (map (λ (s : Scores V). s.f1) each);
      }

  -- `if len(cm.labels) == 2`: exactly then there are binary counts.
  unfoldable pub scores_of : ConfusionMatrix → Scores V
  unfolding binary_counts binary_scores macro_scores
  scores_of cm = elim (binary_counts cm) [ some c ↦ binary_scores c | none ↦ macro_scores cm ]

  -- The area under the curve, the best threshold and the points, where there are scores and labels.
  unfoldable pub roc_of :
      Option (List V) → Option String → List String → Option V × Option V × List (RocPoint V)
  unfolding compute_roc
  roc_of (some scores) (some positive) y_true =
      let (auc, optimal, points) = compute_roc fl (map (λ v. str_eq v positive) y_true) scores in
      (some auc, some optimal, points)
  roc_of _ _ y_true = (none, none, [])

  abbrev pub rounded : Option V → Option V
  rounded none = none
  rounded (some v) = some (fl.round_6 v)

  unfoldable pub compute_metric_set : ValidationDataset V → MetricSet V
  unfolding build_confusion_matrix total correct safe_ratio compute_kappa scores_of roc_of
      last_label
  compute_metric_set d =
      let cm = build_confusion_matrix d.y_true d.y_pred d.labels in
      let n = total cm.matrix in
      let s = scores_of cm in
      let (auc, optimal, points) = roc_of d.y_scores (last_label cm.labels) d.y_true in
      record {
        confusion_matrix = cm;
        sample_size = n;
        overall_accuracy = some (fl.round_6 (safe_ratio fl (correct cm.matrix) n));
        precision = some (fl.round_6 s.precision);
        recall = some (fl.round_6 s.recall);
        specificity = rounded s.specificity;
        f1_score = some (fl.round_6 s.f1);
        kappa = some (fl.round_6 (compute_kappa cm));
        auc = auc;
        optimal_threshold = optimal;
        roc_points = points;
      }

  -- `checks`: each threshold with the metric that it bounds.
  unfoldable pub checks : MetricSet V → ValidationThresholds V → List (Option V × Option V)
  checks m t =
      (t.min_overall_accuracy, m.overall_accuracy)
      ∷ (t.min_precision, m.precision)
      ∷ (t.min_recall, m.recall)
      ∷ (t.min_f1_score, m.f1_score)
      ∷ (t.min_auc, m.auc)
      ∷ []

  -- The loop of `compute_verdict`.
  unfoldable pub verdict_of : List (Option V × Option V) → Verdict
  verdict_of [] = pass
  verdict_of ((t, v) ∷ cs) = let rest = verdict_of cs in if misses t v then fail else rest

  unfoldable pub compute_verdict : MetricSet V → ValidationThresholds V → Verdict
  unfolding checks verdict_of
  compute_verdict m t = verdict_of (checks m t)
