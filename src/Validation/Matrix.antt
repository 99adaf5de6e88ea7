-- ===== src/Validation/Matrix.antt =====
-- `ConfusionMatrix` of contexts/validation/domain/value_objects.py and `build_confusion_matrix` of
-- contexts/validation/domain/metrics.py.
pub mod Bump
pub mod Index
pub mod Exact
use Prim.Native.Char.{code}
use text.Mathlib.Text.{◌==◌ as str_eq}
use novaapi.Common.{
  ℕ, zero, suc, ◌+◌, ◌-◌, String, Bool, true, false, ◌&&◌, Option, none, some, List, [], ◌∷◌, ◌++◌,
  map, length, ltb, ◌==◌, if◌then◌else◌,
}
use novaapi.Validation.Types.{ConfusionMatrix}

-- `a < b` on texts, by code points.
unfoldable pub str_lt : String → String → Bool
str_lt a String.[] = false
str_lt String.[] (String.◌∷◌ d t) = true
str_lt (String.◌∷◌ c s) (String.◌∷◌ d t) =
    let rest = str_lt s t in
    if ltb (code c) (code d) then true else if code c == code d then rest else false

-- A text into a sorted list without repetitions.
unfoldable pub insert_label : String → List String → List String
unfolding str_lt
insert_label a [] = a ∷ []
insert_label a (b ∷ bs) =
    let rest = insert_label a bs in
    if str_eq a b then b ∷ bs else if str_lt a b then a ∷ b ∷ bs else b ∷ rest

-- `sorted(set(texts))`
unfoldable pub sorted_set : List String → List String
unfolding insert_label
sorted_set [] = []
sorted_set (a ∷ as') = insert_label a (sorted_set as')

-- `tuple(labels) if labels else tuple(sorted(set(y_true) | set(y_pred)))`
unfoldable pub resolve_labels : Option (List String) → List String → List String → List String
unfolding sorted_set
resolve_labels (some (l ∷ ls)) y_true y_pred = l ∷ ls
resolve_labels _ y_true y_pred = sorted_set (y_true ++ y_pred)

-- `index.get(label)`: the dictionary keeps the last position of a label.
unfoldable pub index : String → List String → Option ℕ
index a [] = none
index a (l ∷ ls) = elim (index a ls) [
  | some i ↦ some (suc i)
  | none ↦ if str_eq a l then some 0 else none
]

-- `row[j] += 1`
unfoldable pub bump_row : ℕ → List ℕ → List ℕ
bump_row j [] = []
bump_row zero (c ∷ cs) = (c + 1) ∷ cs
bump_row (suc j) (c ∷ cs) = c ∷ bump_row j cs

-- `counts[i][j] += 1`
unfoldable pub bump : ℕ → ℕ → List (List ℕ) → List (List ℕ)
unfolding bump_row
bump i j [] = []
bump zero j (r ∷ rs) = bump_row j r ∷ rs
bump (suc i) j (r ∷ rs) = r ∷ bump i j rs

unfoldable pub zeros : ℕ → List ℕ
zeros zero = []
zeros (suc n) = 0 ∷ zeros n

unfoldable pub zero_rows : ℕ → ℕ → List (List ℕ)
unfolding zeros
zero_rows zero n = []
zero_rows (suc k) n = zeros n ∷ zero_rows k n

-- The body of the loop: a pair with a label that is not listed counts nowhere.
abbrev pub count_pair : Option ℕ → Option ℕ → List (List ℕ) → List (List ℕ)
count_pair (some i) (some j) m = bump i j m
count_pair _ _ m = m

-- The loop over `zip(y_true, y_pred)`.
unfoldable pub count_pairs : List String → List String → List String → List (List ℕ) → List (List ℕ)
unfolding index bump
count_pairs labels (a ∷ as') (p ∷ ps) m =
    count_pairs labels as' ps (count_pair (index a labels) (index p labels) m)
count_pairs labels _ _ m = m

unfoldable pub build_confusion_matrix :
    List String → List String → Option (List String) → ConfusionMatrix
unfolding resolve_labels count_pairs zero_rows
build_confusion_matrix y_true y_pred labels =
    let resolved = resolve_labels labels y_true y_pred in
    record {
      labels = resolved;
      matrix = count_pairs resolved y_true y_pred (zero_rows (length resolved) (length resolved));
    }

-- `sum(values)`
unfoldable pub sum : List ℕ → ℕ
sum [] = 0
sum (c ∷ cs) = c + sum cs

-- `row[j]`; the positions that the code reads are in range.
unfoldable pub at : ℕ → List ℕ → ℕ
at j [] = 0
at zero (c ∷ cs) = c
at (suc j) (c ∷ cs) = at j cs

unfoldable pub row_at : ℕ → List (List ℕ) → List ℕ
row_at i [] = []
row_at zero (r ∷ rs) = r
row_at (suc i) (r ∷ rs) = row_at i rs

-- `sum(matrix[i][j] for i in range(n))`, over the n rows.
unfoldable pub col_sum : ℕ → List (List ℕ) → ℕ
unfolding at
col_sum j [] = 0
col_sum j (r ∷ rs) = at j r + col_sum j rs

-- `ConfusionMatrix.total`
unfoldable pub total : List (List ℕ) → ℕ
unfolding sum
total [] = 0
total (r ∷ rs) = sum r + total rs

-- `sum(matrix[k][k] for k in range(n))` from position k on.
unfoldable pub diagonal : ℕ → List (List ℕ) → ℕ
unfolding at
diagonal k [] = 0
diagonal k (r ∷ rs) = at k r + diagonal (suc k) rs

-- `ConfusionMatrix.correct`
unfoldable pub correct : List (List ℕ) → ℕ
unfolding diagonal
correct m = diagonal 0 m

-- `labels.index(label)` of a label that is there.
unfoldable pub first_index : String → List String → ℕ
first_index a [] = 0
first_index a (l ∷ ls) = let rest = suc (first_index a ls) in if str_eq l a then 0 else rest

pub record Counts : Type 0 where
  pub tp : ℕ
  pub fp : ℕ
  pub tn : ℕ
  pub fn : ℕ

-- `ConfusionMatrix.per_class_counts`
unfoldable pub per_class_counts : ConfusionMatrix → String → Counts
unfolding at row_at col_sum sum total first_index
per_class_counts cm label =
    let k = first_index label cm.labels in
    let tp = at k (row_at k cm.matrix) in
    let fp = col_sum k cm.matrix - tp in
    let fn = sum (row_at k cm.matrix) - tp in
    record { tp = tp; fp = fp; tn = total cm.matrix - tp - fp - fn; fn = fn }

-- `ConfusionMatrix.binary_counts`
unfoldable pub binary_counts : ConfusionMatrix → Option Counts
unfolding per_class_counts
binary_counts cm = elim cm.labels [ l ∷ l' ∷ [] ↦ some (per_class_counts cm l') | _ ↦ none ]
