-- ===== src/Validation/Ranks/Enough.antt =====
-- The steps of `rank_runs`: with one for each value, every position of the order gets its rank.
use novaapi.Common.{ℕ, zero, suc, ◌+◌, ◌≤◌, ◌≡◌, refl, ap, ◌∙◌, List, [], ◌∷◌, ◌++◌, length, arith}
use novaapi.Validation.Types.{Floats}
use novaapi.Validation.Ranks.{drop, ties, average_rank, assign, rank_runs}

module _ {V : Type 0} where
  abbrev positions : List (ℕ × V) → List ℕ
  positions [] = []
  positions ((k, v) ∷ xs) = k ∷ positions xs

  positions-append : (xs ys : List (ℕ × V)) → positions (xs ++ ys) ≡ positions xs ++ positions ys
  positions-append [] ys = refl
  positions-append ((k, v) ∷ xs) ys = ap (◌∷◌ k) (positions-append xs ys)

  length-drop : (n : ℕ) (xs : List (ℕ × V)) → length (drop n xs) ≤ length xs
  unfolding drop
  length-drop zero xs = omega arith
  length-drop (suc n) [] = omega arith
  length-drop (suc n) (x ∷ xs) = omega (arith, length-drop n xs)

module _ {V : Type 0} (fl : Floats V) where
  -- A run and what follows it.
  positions-assign :
      (n : ℕ) (r : V) (xs : List (ℕ × V))
      → positions (assign fl n r xs) ++ positions (drop n xs) ≡ positions xs
  unfolding assign drop
  positions-assign zero r xs = refl
  positions-assign (suc n) r [] = refl
  positions-assign (suc n) r ((k, v) ∷ xs) = ap (◌∷◌ k) (positions-assign n r xs)

  -- No position is left out, and the order is kept.
  positions-rank_runs :
      (fuel i : ℕ) (xs : List (ℕ × V))
      → length xs ≤ fuel
      → positions (rank_runs fl fuel i xs) ≡ positions xs
  unfolding rank_runs
  positions-rank_runs zero i [] h = refl
  positions-rank_runs zero i (x ∷ xs) h = ground arith
  positions-rank_runs (suc fuel) i [] h = refl
  positions-rank_runs (suc fuel) i ((k, v) ∷ xs) h =
      let more = ties fl v xs in
      let r = average_rank fl i (i + more) in
      let rest =
        positions-rank_runs fuel (suc (i + more)) (drop more xs)
          (omega (arith, length-drop more xs)) in
      ap (◌∷◌ k) (
        positions-append (assign fl more r xs) (rank_runs fl fuel (suc (i + more)) (drop more xs))
        ∙ ap (λ ps. positions (assign fl more r xs) ++ ps) rest
        ∙ positions-assign more r xs)
