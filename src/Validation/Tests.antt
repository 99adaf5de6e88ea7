-- ===== src/Validation/Tests.antt =====
-- The theorems on validation at concrete inputs; a `float` is a number of thousandths here.
use text.Mathlib.Text.{◌==◌ as str_eq}
use novaapi.Common.{
  ℕ, ◌+◌, ◌-◌, ◌*◌, ◌/◌, ◌≡◌, ◌↔◌, refl, String, Option, none, some, List, [], ◌∷◌, ltb, leb, ◌==◌,
  if◌then◌else◌,
}
use novaapi.Errors.{ok}
use novaapi.Session.{in_session}
use novaapi.Validation.Types.{
  Floats, SubjectType, prediction, pass, ValidationDataset, ValidationThresholds,
}
use novaapi.Validation.Matrix.{sum, build_confusion_matrix, per_class_counts, resolve_labels}
use novaapi.Validation.Matrix.Index.{occurrences}
use novaapi.Validation.Matrix.Exact.{per_class_counts-exact, direct_counts}
use novaapi.Validation.Ranks.{average_ranks}
use novaapi.Validation.Metrics.{compute_verdict, compute_metric_set, default_validation_thresholds}
use novaapi.Validation.Run.{Built}
use novaapi.Validation.Handlers.{
  Db, Resolution, resolved, raised, RegressionValidationSubject, subject_type_of, run_validation,
  run_regression_validation,
}
use novaapi.Validation.Verdicts.{Meets, compute_verdict_lem}
use novaapi.Validation.Stored.{Announced, Leaves, run_validation-Leaves}
use novaapi.Validation.Reachable.{empty, validated, regressed, AllRecorded, Reachable-AllRecorded}

-- The literals that the context writes, in thousandths.
abbrev milli : String → ℕ
milli s =
    if str_eq s "0.70"
    then 700
    else if str_eq s "0.60"
    then 600
    else if str_eq s "0.5"
    then 500
    else if str_eq s "1.0"
    then 1000
    else if str_eq s "2.0"
    then 2000
    else if str_eq s "10.0"
    then 10000
    else 0

-- Differences stop at 0 and quotients are cut.
abbrev thousandths : Floats ℕ
unfolding sum
thousandths = record {
  literal = milli;
  of_nat = λ n. 1000 * n;
  ratio = λ n d. (1000 * n) / d;
  sum = sum;
  square = λ x. ok ((x * x) / 1000);
  add = λ a b. a + b;
  sub = λ a b. a - b;
  mul = λ a b. (a * b) / 1000;
  div = λ a b. (1000 * a) / b;
  sqrt = λ x. x;
  abs = λ x. x;
  round_6 = λ x. x;
  lt = ltb;
  gt = λ a b. ltb b a;
  ge = λ a b. leb b a;
  eq = λ a b. a == b;
}

-- The dataset of `StubValidationSubjectResolver`.
abbrev observed : List String
observed =
    "POSITIVE" ∷ "POSITIVE" ∷ "POSITIVE" ∷ "NEGATIVE" ∷ "NEGATIVE" ∷ "NEGATIVE" ∷ "NEGATIVE" ∷ []

abbrev predicted : List String
predicted =
    "POSITIVE" ∷ "POSITIVE" ∷ "NEGATIVE" ∷ "NEGATIVE" ∷ "NEGATIVE" ∷ "NEGATIVE" ∷ "POSITIVE" ∷ []

abbrev listed_labels : Option (List String)
listed_labels = some ("NEGATIVE" ∷ "POSITIVE" ∷ [])

abbrev stub : ValidationDataset ℕ
stub = record {
  y_true = observed;
  y_pred = predicted;
  y_scores = some (920 ∷ 810 ∷ 550 ∷ 200 ∷ 150 ∷ 100 ∷ 600 ∷ []);
  labels = listed_labels;
}

-- Equal values share the average of their ranks.
ranks_of_ties : average_ranks thousandths (5 ∷ 3 ∷ 5 ∷ 1 ∷ []) ≡ 3500 ∷ 2000 ∷ 3500 ∷ 1000 ∷ []
unfolding average_ranks thousandths
ranks_of_ties = refl

-- The metrics of the dataset pass the default gate: 5 of 7 are right, and F1 is 2/3.
stub_passes :
    compute_verdict thousandths
      (compute_metric_set thousandths stub)
      (default_validation_thresholds thousandths)
    ≡ pass
unfolding compute_verdict compute_metric_set default_validation_thresholds thousandths
stub_passes = refl

per_class_counts-exact_example :
    per_class_counts (build_confusion_matrix observed predicted listed_labels) "POSITIVE"
    ≡ record { tp = 2; fp = 1; tn = 3; fn = 1 }
unfolding direct_counts occurrences resolve_labels
per_class_counts-exact_example =
    per_class_counts-exact observed predicted listed_labels "POSITIVE" refl

abbrev accuracy_and_auc : ValidationThresholds ℕ
accuracy_and_auc = record {
  min_overall_accuracy = some 700;
  min_precision = none;
  min_recall = none;
  min_f1_score = none;
  min_auc = some 900;
  max_rmse = none;
  max_mae = none;
  min_r_squared = none;
  min_adjusted_r_squared = none;
}

compute_verdict_lem_example :
    compute_verdict thousandths (compute_metric_set thousandths stub) accuracy_and_auc ≡ pass
    ↔ Meets thousandths (some 700) (compute_metric_set thousandths stub).overall_accuracy
      × Unit {0}
      × Unit {0}
      × Unit {0}
      × Meets thousandths (some 900) (compute_metric_set thousandths stub).auc
compute_verdict_lem_example =
    compute_verdict_lem thousandths (compute_metric_set thousandths stub) accuracy_and_auc

abbrev answers : String → SubjectType → ℕ → Resolution (ValidationDataset ℕ)
answers subject st a = resolved stub

abbrev refuses : String → ℕ → ℕ → Resolution (RegressionValidationSubject ℕ)
refuses subject a t = raised "no such run"

abbrev fresh : Db ℕ
fresh = record { runs = []; outbox = [] }

run_validation-Leaves_example :
    (b : Built ℕ) × Announced thousandths 1 9 2 "s" b
    × Leaves b
        (λ i. i)
        9
        fresh
        (in_session
          (run_validation thousandths 1 (λ i. i) 9 2 "s" answers "PREDICTION" "ana")
          fresh)
unfolding subject_type_of
run_validation-Leaves_example =
    run_validation-Leaves thousandths 1 (λ i. i) 9 2 "s" fresh answers "PREDICTION" "ana" prediction
      refl

-- A run that was judged, and one whose resolver raised.
abbrev after_two : Db ℕ
unfolding run_validation run_regression_validation
after_two =
    (in_session (run_regression_validation thousandths 2 (λ i. 3 + i) 9 2 "s" refuses "ana")
      (in_session (run_validation thousandths 1 (λ i. i) 9 2 "s" answers "PREDICTION" "ana")
        fresh).1).1

Reachable-AllRecorded_example : AllRecorded thousandths after_two.outbox after_two.runs
unfolding after_two run_regression_validation
Reachable-AllRecorded_example = Reachable-AllRecorded thousandths (
    regressed (validated empty 1 (λ i. i) 9 2 "s" answers "PREDICTION" "ana") 2 (λ i. 3 + i) 9 2 "s"
      refuses "ana")
