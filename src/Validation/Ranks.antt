-- ===== src/Validation/Ranks.antt =====
-- `_average_ranks` and `_compute_roc` of contexts/validation/domain/metrics.py. A label of
-- `y_true_binary` is `true` for 1.
mod Enough
use novaapi.Common.{
  ℕ, zero, suc, ◌+◌, ◌-◌, ◌*◌, Bool, true, false, not, ◌&&◌, ◌||◌, List, [], ◌∷◌, ◌++◌, length,
  ◌==◌, if◌then◌else◌,
}
use novaapi.Validation.Types.{Floats, RocPoint}

unfoldable pub count_positive : List Bool → ℕ
count_positive [] = 0
count_positive (true ∷ ys) = count_positive ys + 1
count_positive (false ∷ ys) = count_positive ys

unfoldable pub drop {ℓ} : {A : Type ℓ} → ℕ → List A → List A
drop zero xs = xs
drop (suc n) [] = []
drop (suc n) (x ∷ xs) = drop n xs

module _ {V : Type 0} (fl : Floats V) where
  -- A position and its value into the sorted positions, before its equals.
  unfoldable pub insert_position : ℕ → V → List (ℕ × V) → List (ℕ × V)
  insert_position i v [] = (i, v) ∷ []
  insert_position i v ((j, w) ∷ rest) =
      let inserted = insert_position i v rest in
      if fl.lt w v then (j, w) ∷ inserted else (i, v) ∷ (j, w) ∷ rest

  -- `sorted(range(n), key=lambda i: values[i])`, each position with its value. The sort is stable.
  unfoldable pub order : ℕ → List V → List (ℕ × V)
  unfolding insert_position
  order i [] = []
  order i (v ∷ vs) = insert_position i v (order (suc i) vs)

  -- The inner loop: the positions that follow with a value equal to v.
  unfoldable pub ties : V → List (ℕ × V) → ℕ
  ties v [] = 0
  ties v ((j, w) ∷ rest) = let more = suc (ties v rest) in if fl.eq w v then more else 0

  -- `(i + j) / 2.0 + 1.0`
  unfoldable pub average_rank : ℕ → ℕ → V
  average_rank i j = fl.add (fl.div (fl.of_nat (i + j)) (fl.literal "2.0")) (fl.literal "1.0")

  -- `ranks[order[k]] = average_rank` for the next `count` positions.
  unfoldable pub assign : ℕ → V → List (ℕ × V) → List (ℕ × V)
  assign zero r xs = []
  assign (suc count) r [] = []
  assign (suc count) r ((k, v) ∷ xs) = (k, r) ∷ assign count r xs

  -- The outer loop from position i of the order on. Each round passes a position.
  unfoldable pub rank_runs : ℕ → ℕ → List (ℕ × V) → List (ℕ × V)
  unfolding ties average_rank assign drop
  rank_runs zero i xs = []
  rank_runs (suc fuel) i [] = []
  rank_runs (suc fuel) i ((k, v) ∷ xs) =
      let more = ties v xs in
      assign (suc more) (average_rank i (i + more)) ((k, v) ∷ xs)
      ++ rank_runs fuel (suc (i + more)) (drop more xs)

  -- `ranks[k]`, 0.0 before it is assigned.
  unfoldable pub rank_at : ℕ → List (ℕ × V) → V
  rank_at k [] = fl.literal "0.0"
  rank_at k ((j, r) ∷ rest) = if j == k then r else rank_at k rest

  -- The ranks of the positions from k on.
  unfoldable pub ranks_from : ℕ → List V → List (ℕ × V) → List V
  unfolding rank_at
  ranks_from k [] assigned = []
  ranks_from k (v ∷ vs) assigned = rank_at k assigned ∷ ranks_from (suc k) vs assigned

  unfoldable pub average_ranks : List V → List V
  unfolding rank_runs order ranks_from
  average_ranks values = ranks_from 0 values (rank_runs (length values) 0 (order 0 values))

  -- The ranks of the positive labels.
  unfoldable pub positive_ranks : List V → List Bool → List V
  positive_ranks (r ∷ rs) (true ∷ ys) = r ∷ positive_ranks rs ys
  positive_ranks (r ∷ rs) (false ∷ ys) = positive_ranks rs ys
  positive_ranks _ _ = []

  -- A value into a falling list without repetitions.
  unfoldable pub insert_threshold : V → List V → List V
  insert_threshold t [] = t ∷ []
  insert_threshold t (u ∷ us) =
      let rest = insert_threshold t us in
      if fl.eq t u then u ∷ us else if fl.gt t u then t ∷ u ∷ us else u ∷ rest

  -- `sorted(set(scores), reverse=True)`, the scores read from the left.
  unfoldable pub falling_set : List V → List V → List V
  unfolding insert_threshold
  falling_set [] acc = acc
  falling_set (s ∷ ss) acc = falling_set ss (insert_threshold s acc)

  -- How many scores from t on have the label.
  unfoldable pub count_from : V → Bool → List V → List Bool → ℕ
  count_from t label (s ∷ ss) (y ∷ ys) =
      let rest = count_from t label ss ys in
      if fl.ge s t && (if label then y else not y) then rest + 1 else rest
  count_from t label _ _ = 0

  -- `_safe_div` of two integers.
  unfoldable pub safe_ratio : ℕ → ℕ → V
  safe_ratio n d = if d == 0 then fl.literal "0.0" else fl.ratio n d

  -- `_safe_div` of two floats.
  unfoldable pub safe_div : V → V → V
  safe_div n d = if fl.eq d (fl.literal "0.0") then fl.literal "0.0" else fl.div n d

  unfoldable pub roc_point : V → V → V → RocPoint V
  roc_point fpr tpr t = record {
    fpr = fl.round_6 fpr;
    tpr = fl.round_6 tpr;
    threshold = fl.round_6 t;
  }

  -- The loop over the thresholds: the best threshold and the points.
  unfoldable pub sweep :
      List V → List V → List Bool → ℕ → ℕ → V → V → List (RocPoint V) → V × List (RocPoint V)
  unfolding count_from safe_ratio roc_point
  sweep [] scores ys n_pos n_neg best_j best points = (best, points)
  sweep (t ∷ ts) scores ys n_pos n_neg best_j best points =
      let tpr = safe_ratio (count_from t true scores ys) n_pos in
      let fpr = safe_ratio (count_from t false scores ys) n_neg in
      let j = fl.sub tpr fpr in
      let better = fl.gt j best_j in
      sweep ts scores ys n_pos n_neg (if better then j else best_j) (if better then t else best)
        (points ++ roc_point fpr tpr t ∷ [])

  -- `thresholds[0] if thresholds else 0.5`
  abbrev pub first_threshold : List V → V
  first_threshold [] = fl.literal "0.5"
  first_threshold (t ∷ ts) = t

  unfoldable pub area : ℕ → ℕ → List V → V
  area n_pos n_neg ranks =
      fl.div (fl.sub (fl.sum ranks) (fl.div (fl.of_nat (n_pos * (n_pos + 1))) (fl.literal "2.0")))
        (fl.of_nat (n_pos * n_neg))

  -- `_compute_roc`: the area, the best threshold and the points.
  unfoldable pub compute_roc : List Bool → List V → V × V × List (RocPoint V)
  unfolding count_positive average_ranks positive_ranks falling_set sweep area
  compute_roc ys scores =
      let n_pos = count_positive ys in
      let n_neg = length ys - n_pos in
      let thresholds = falling_set scores [] in
      let (best, points) =
        sweep thresholds scores ys n_pos n_neg (fl.literal "-1.0") (first_threshold thresholds)
          [] in
      if n_pos == 0 || n_neg == 0 then (fl.literal "0.5", fl.literal "0.5", []) else (
        fl.round_6 (area n_pos n_neg (positive_ranks (average_ranks scores) ys)),
        fl.round_6 best,
        points,
      )
