-- ===== src/Validation/Matrix/Exact.antt =====
-- `per_class_counts` of the matrix that `build_confusion_matrix` makes, against counts of the pairs of
-- the two lists themselves.
use text.Mathlib.Text.{◌==◌ as str_eq}
use novaapi.Common.{
  ℕ, ◌+◌, ◌≡◌, ◌∙◌, String, Bool, true, not, ◌&&◌, Option, none, some, List, [], ◌∷◌, length, inl,
  inr, Option-cases, arith,
}
use novaapi.Validation.Matrix.{
  Counts, resolve_labels, index, bump, count_pair, count_pairs, zero_rows, sum, at, row_at, col_sum,
  total, first_index, build_confusion_matrix, per_class_counts,
}
use novaapi.Validation.Matrix.Bump.{
  is_wide, one_if, length-bump, is_wide-bump, at-bump, sum-bump, col_sum-bump, total-bump,
  length-zero_rows, is_wide-zero_rows, at-zero_rows, sum-zero_rows, col_sum-zero_rows,
  total-zero_rows,
}
use novaapi.Validation.Matrix.Index.{
  occurrences, index<length, same-index, listed, listed-index, unlisted-index, index-first_index,
}

-- How many pairs of listed labels pass the test.
unfoldable pub tally : (String → String → Bool) → List String → List String → List String → ℕ
tally test ls (t ∷ ts) (p ∷ ps) =
    one_if (listed t ls && listed p ls && test t p) + tally test ls ts ps
tally test ls _ _ = 0

-- A number that grows with each counted pair that passes the test comes out as the tally.
module _ (ls : List String) (f : List (List ℕ) → ℕ) (test : String → String → Bool) where
  Grows : Type 0
  Grows =
      (t p : String) (i j : ℕ) (m : List (List ℕ))
      → index t ls ≡ some i
      → index p ls ≡ some j
      → is_wide (length ls) m ≡ true
      → length m ≡ length ls
      → f (bump i j m) ≡ f m + one_if (test t p)

  grows-count_pair :
      Grows
      → (t p : String) (m : List (List ℕ)) → is_wide (length ls) m ≡ true
      → length m ≡ length ls
      → f (count_pair (index t ls) (index p ls) m)
        ≡ f m + one_if (listed t ls && listed p ls && test t p)
  unfolding Grows
  grows-count_pair g t p m w h = elim (Option-cases (index t ls)) [
    | inl e ↦ ground (arith, unlisted-index t ls e)
    | inr (i, e) ↦ elim (Option-cases (index p ls)) [
      | inl e' ↦ ground (arith, unlisted-index p ls e')
      | inr (j, e') ↦
          ground (arith, listed-index t ls i e, listed-index p ls j e', g t p i j m e e' w h)
    ]
  ]

  shape-count_pair :
      (i j : Option ℕ) (m : List (List ℕ)) (n : ℕ)
      → is_wide n m ≡ true
      → length m ≡ n
      → (is_wide n (count_pair i j m) ≡ true) × (length (count_pair i j m) ≡ n)
  shape-count_pair none j m n w h = (w, h)
  shape-count_pair (some i) none m n w h = (w, h)
  shape-count_pair (some i) (some j) m n w h = (is_wide-bump n i j m ∙ w, length-bump i j m ∙ h)

  grows-count_pairs :
      Grows
      → (ts ps : List String) (m : List (List ℕ)) → is_wide (length ls) m ≡ true
      → length m ≡ length ls
      → f (count_pairs ls ts ps m) ≡ f m + tally test ls ts ps
  unfolding count_pairs tally
  grows-count_pairs g (t ∷ ts) (p ∷ ps) m w h =
      let (w', h') = shape-count_pair (index t ls) (index p ls) m (length ls) w h in
      omega (
        arith,
        grows-count_pair g t p m w h,
        grows-count_pairs g ts ps (count_pair (index t ls) (index p ls) m) w' h',
      )
  grows-count_pairs g [] ps m w h = omega arith
  grows-count_pairs g (t ∷ ts) [] m w h = omega arith

-- The four ways in which a pair of labels meets the class.
abbrev pub both : String → String → String → Bool
both a t p = str_eq t a && str_eq p a

abbrev pub one_true : String → String → String → Bool
one_true a t p = str_eq t a && not (str_eq p a)

abbrev pub one_pred : String → String → String → Bool
one_pred a t p = not (str_eq t a) && str_eq p a

abbrev pub neither : String → String → String → Bool
neither a t p = not (str_eq t a) && not (str_eq p a)

-- The four numbers of a matrix that `per_class_counts` reads.
module _ (ls : List String) (a : String) (k : ℕ) (once : index a ls ≡ some k)
    (ts ps : List String) where
  tallied :
      (f : List (List ℕ) → ℕ) (test : String → String → Bool)
      → Grows ls f test
      → f (zero_rows (length ls) (length ls)) ≡ 0
      → f (count_pairs ls ts ps (zero_rows (length ls) (length ls))) ≡ tally test ls ts ps
  tallied f test g z = omega (
    arith,
    z,
    grows-count_pairs ls f test g ts ps (zero_rows (length ls) (length ls))
        (is_wide-zero_rows (length ls) (length ls)) (length-zero_rows (length ls) (length ls)),
  )

  cell-tally :
      at k (row_at k (count_pairs ls ts ps (zero_rows (length ls) (length ls))))
      ≡ tally (both a) ls ts ps
  unfolding Grows
  cell-tally =
      tallied (λ m. at k (row_at k m)) (both a)
        (λ t p i j m e e' w h. ground (
          arith,
          at-bump (length ls) k k i j m w,
          index<length t ls i e,
          index<length p ls j e',
          same-index a t ls k i once e,
          same-index a p ls k j once e',
        ))
        (at-zero_rows k k (length ls) (length ls))

  row-tally :
      sum (row_at k (count_pairs ls ts ps (zero_rows (length ls) (length ls))))
      ≡ tally (λ t p. str_eq t a) ls ts ps
  unfolding Grows
  row-tally =
      tallied (λ m. sum (row_at k m)) (λ t p. str_eq t a)
        (λ t p i j m e e' w h. ground (
          arith,
          sum-bump (length ls) k i j m w,
          index<length t ls i e,
          index<length p ls j e',
          same-index a t ls k i once e,
        ))
        (sum-zero_rows k (length ls) (length ls))

  col-tally :
      col_sum k (count_pairs ls ts ps (zero_rows (length ls) (length ls)))
      ≡ tally (λ t p. str_eq p a) ls ts ps
  unfolding Grows
  col-tally =
      tallied (col_sum k) (λ t p. str_eq p a)
        (λ t p i j m e e' w h. ground (
          arith,
          col_sum-bump (length ls) k i j m w,
          index<length t ls i e,
          index<length p ls j e',
          same-index a p ls k j once e',
        ))
        (col_sum-zero_rows k (length ls) (length ls))

  total-tally :
      total (count_pairs ls ts ps (zero_rows (length ls) (length ls)))
      ≡ tally (λ t p. true) ls ts ps
  unfolding Grows
  total-tally =
      tallied total (λ t p. true)
        (λ t p i j m e e' w h.
          ground
            (arith, total-bump (length ls) i j m w, index<length t ls i e, index<length p ls j e'))
        (total-zero_rows (length ls) (length ls))

row-split :
    (a : String) (ls ts ps : List String)
    → tally (λ t p. str_eq t a) ls ts ps ≡ tally (both a) ls ts ps + tally (one_true a) ls ts ps
unfolding tally
row-split a ls [] ps = omega arith
row-split a ls (t ∷ ts) [] = omega arith
row-split a ls (t ∷ ts) (p ∷ ps) = ground (arith, row-split a ls ts ps)

col-split :
    (a : String) (ls ts ps : List String)
    → tally (λ t p. str_eq p a) ls ts ps ≡ tally (both a) ls ts ps + tally (one_pred a) ls ts ps
unfolding tally
col-split a ls [] ps = omega arith
col-split a ls (t ∷ ts) [] = omega arith
col-split a ls (t ∷ ts) (p ∷ ps) = ground (arith, col-split a ls ts ps)

total-split :
    (a : String) (ls ts ps : List String)
    → tally (λ t p. true) ls ts ps
      ≡ tally (both a) ls ts ps
        + tally (one_true a) ls ts ps
        + tally (one_pred a) ls ts ps
        + tally (neither a) ls ts ps
unfolding tally
total-split a ls [] ps = omega arith
total-split a ls (t ∷ ts) [] = omega arith
total-split a ls (t ∷ ts) (p ∷ ps) = ground (arith, total-split a ls ts ps)

-- The counts of a class, from the two lists.
unfoldable pub direct_counts : List String → String → List String → List String → Counts
unfolding tally
direct_counts ls a ts ps = record {
  tp = tally (both a) ls ts ps;
  fp = tally (one_pred a) ls ts ps;
  tn = tally (neither a) ls ts ps;
  fn = tally (one_true a) ls ts ps;
}

counts_path : (c d : Counts) → c.tp ≡ d.tp → c.fp ≡ d.fp → c.tn ≡ d.tn → c.fn ≡ d.fn → c ≡ d
counts_path c d p q r s = λ i. record { tp = p i; fp = q i; tn = r i; fn = s i }

-- Where the label stands once among the resolved labels, the numbers of true positives, false positives,
-- true negatives and false negatives that per_class_counts reads off the matrix of
-- build_confusion_matrix are those of the pairs of the two lists, counted one by one, of which both
-- labels are listed.
pub per_class_counts-exact :
    (y_true y_pred : List String) (labels : Option (List String)) (label : String)
    → occurrences label (resolve_labels labels y_true y_pred) ≡ 1
    → per_class_counts (build_confusion_matrix y_true y_pred labels) label
      ≡ direct_counts (resolve_labels labels y_true y_pred) label y_true y_pred
unfolding per_class_counts build_confusion_matrix direct_counts
per_class_counts-exact y_true y_pred labels label once =
    let ls = resolve_labels labels y_true y_pred in
    let k = first_index label ls in
    let at_k = index-first_index label ls once in
    let cell = cell-tally ls label k at_k y_true y_pred in
    let row = row-tally ls label k at_k y_true y_pred ∙ row-split label ls y_true y_pred in
    let col = col-tally ls label k at_k y_true y_pred ∙ col-split label ls y_true y_pred in
    let all = total-tally ls label k at_k y_true y_pred ∙ total-split label ls y_true y_pred in
    counts_path (per_class_counts (build_confusion_matrix y_true y_pred labels) label)
      (direct_counts ls label y_true y_pred) cell (omega (arith, cell, col))
      (omega (arith, cell, row, col, all)) (omega (arith, cell, row))
