-- ===== src/Validation/Matrix/Bump.antt =====
-- What one `counts[i][j] += 1` of `build_confusion_matrix` does to a cell, to a row sum, to a column sum
-- and to the total.
use novaapi.Common.{
  ℕ, zero, suc, ◌+◌, ◌<◌, ◌≡◌, refl, Bool, true, false, ◌&&◌, List, [], ◌∷◌, length, all, ◌==◌,
  arith,
}
use novaapi.Validation.Matrix.{bump_row, bump, zeros, zero_rows, sum, at, row_at, col_sum, total}

-- Every row has n cells.
abbrev pub is_wide : ℕ → List (List ℕ) → Bool
is_wide n m = all (λ r. length r == n) m

-- A one where the test holds.
abbrev pub one_if : Bool → ℕ
one_if true = 1
one_if false = 0

pub at-bump_row :
    (k j : ℕ) (r : List ℕ) → j < length r → at k (bump_row j r) ≡ at k r + one_if (k == j)
unfolding at bump_row
at-bump_row k j [] h = ground arith
at-bump_row zero zero (c ∷ cs) h = ground arith
at-bump_row zero (suc j) (c ∷ cs) h = ground arith
at-bump_row (suc k) zero (c ∷ cs) h = ground arith
at-bump_row (suc k) (suc j) (c ∷ cs) h = ground (arith, at-bump_row k j cs)

pub sum-bump_row : (j : ℕ) (r : List ℕ) → j < length r → sum (bump_row j r) ≡ sum r + 1
unfolding sum bump_row
sum-bump_row j [] h = ground arith
sum-bump_row zero (c ∷ cs) h = ground arith
sum-bump_row (suc j) (c ∷ cs) h = ground (arith, sum-bump_row j cs)

pub length-bump_row : (j : ℕ) (r : List ℕ) → length (bump_row j r) ≡ length r
unfolding bump_row
length-bump_row j [] = refl
length-bump_row zero (c ∷ cs) = refl
length-bump_row (suc j) (c ∷ cs) = ground (arith, length-bump_row j cs)

pub length-bump : (i j : ℕ) (m : List (List ℕ)) → length (bump i j m) ≡ length m
unfolding bump
length-bump i j [] = refl
length-bump zero j (r ∷ rs) = refl
length-bump (suc i) j (r ∷ rs) = ground (arith, length-bump i j rs)

pub is_wide-bump : (n i j : ℕ) (m : List (List ℕ)) → is_wide n (bump i j m) ≡ is_wide n m
unfolding bump
is_wide-bump n i j [] = refl
is_wide-bump n zero j (r ∷ rs) = ground (arith, length-bump_row j r)
is_wide-bump n (suc i) j (r ∷ rs) = ground (arith, is_wide-bump n i j rs)

-- A cell grows where it is the one.
pub at-bump :
    (n k l i j : ℕ) (m : List (List ℕ))
    → is_wide n m ≡ true
    → i < length m
    → j < n
    → at l (row_at k (bump i j m)) ≡ at l (row_at k m) + one_if ((k == i) && (l == j))
unfolding row_at bump
at-bump n k l i j [] w h hj = ground arith
at-bump n zero l zero j (r ∷ rs) w h hj = ground (arith, at-bump_row l j r)
at-bump n zero l (suc i) j (r ∷ rs) w h hj = ground arith
at-bump n (suc k) l zero j (r ∷ rs) w h hj = ground arith
at-bump n (suc k) l (suc i) j (r ∷ rs) w h hj = ground (arith, at-bump n k l i j rs)

-- A row sum grows where the row is the one.
pub sum-bump :
    (n k i j : ℕ) (m : List (List ℕ))
    → is_wide n m ≡ true
    → i < length m
    → j < n
    → sum (row_at k (bump i j m)) ≡ sum (row_at k m) + one_if (k == i)
unfolding row_at bump
sum-bump n k i j [] w h hj = ground arith
sum-bump n zero zero j (r ∷ rs) w h hj = ground (arith, sum-bump_row j r)
sum-bump n zero (suc i) j (r ∷ rs) w h hj = ground arith
sum-bump n (suc k) zero j (r ∷ rs) w h hj = ground arith
sum-bump n (suc k) (suc i) j (r ∷ rs) w h hj = ground (arith, sum-bump n k i j rs)

-- A column sum grows where the column is the one.
pub col_sum-bump :
    (n l i j : ℕ) (m : List (List ℕ))
    → is_wide n m ≡ true
    → i < length m
    → j < n
    → col_sum l (bump i j m) ≡ col_sum l m + one_if (l == j)
unfolding col_sum bump
col_sum-bump n l i j [] w h hj = ground arith
col_sum-bump n l zero j (r ∷ rs) w h hj = ground (arith, at-bump_row l j r)
col_sum-bump n l (suc i) j (r ∷ rs) w h hj = ground (arith, col_sum-bump n l i j rs)

-- The total grows.
pub total-bump :
    (n i j : ℕ) (m : List (List ℕ))
    → is_wide n m ≡ true
    → i < length m
    → j < n
    → total (bump i j m) ≡ total m + 1
unfolding total bump
total-bump n i j [] w h hj = ground arith
total-bump n zero j (r ∷ rs) w h hj = ground (arith, sum-bump_row j r)
total-bump n (suc i) j (r ∷ rs) w h hj = ground (arith, total-bump n i j rs)

-- The matrix that the code starts with.
pub length-zeros : (n : ℕ) → length (zeros n) ≡ n
unfolding zeros
length-zeros zero = refl
length-zeros (suc n) = ground (arith, length-zeros n)

pub at-zeros : (k n : ℕ) → at k (zeros n) ≡ 0
unfolding at zeros
at-zeros k zero = refl
at-zeros zero (suc n) = refl
at-zeros (suc k) (suc n) = at-zeros k n

pub sum-zeros : (n : ℕ) → sum (zeros n) ≡ 0
unfolding sum zeros
sum-zeros zero = refl
sum-zeros (suc n) = ground (arith, sum-zeros n)

pub length-zero_rows : (k n : ℕ) → length (zero_rows k n) ≡ k
unfolding zero_rows
length-zero_rows zero n = refl
length-zero_rows (suc k) n = ground (arith, length-zero_rows k n)

pub is_wide-zero_rows : (k n : ℕ) → is_wide n (zero_rows k n) ≡ true
unfolding zero_rows
is_wide-zero_rows zero n = refl
is_wide-zero_rows (suc k) n = ground (arith, length-zeros n, is_wide-zero_rows k n)

pub at-zero_rows : (l i k n : ℕ) → at l (row_at i (zero_rows k n)) ≡ 0
unfolding row_at zero_rows at
at-zero_rows l i zero n = refl
at-zero_rows l zero (suc k) n = at-zeros l n
at-zero_rows l (suc i) (suc k) n = at-zero_rows l i k n

pub sum-zero_rows : (i k n : ℕ) → sum (row_at i (zero_rows k n)) ≡ 0
unfolding row_at zero_rows sum
sum-zero_rows i zero n = refl
sum-zero_rows zero (suc k) n = sum-zeros n
sum-zero_rows (suc i) (suc k) n = sum-zero_rows i k n

pub col_sum-zero_rows : (l k n : ℕ) → col_sum l (zero_rows k n) ≡ 0
unfolding col_sum zero_rows
col_sum-zero_rows l zero n = refl
col_sum-zero_rows l (suc k) n = ground (arith, at-zeros l n, col_sum-zero_rows l k n)

pub total-zero_rows : (k n : ℕ) → total (zero_rows k n) ≡ 0
unfolding total zero_rows
total-zero_rows zero n = refl
total-zero_rows (suc k) n = ground (arith, sum-zeros n, total-zero_rows k n)
