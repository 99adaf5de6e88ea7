-- ===== src/Common/Table.antt =====
-- A database table as a list of rows with a numeric primary key.
use Prim.Native.Nat.{ℕ}
use mathlib.Core.Path.{◌≡◌}
use mathlib.Core.Bool.{Bool, true}
use mathlib.Core.Logic.{◌≢◌}
use mathlib.Core.Option.{Option, none, some}
use mathlib.Core.List.{List, [], ◌∷◌}
use native.Mathlib.Omega.{arith}
use novaapi.Common.Tests.{◌==◌, if◌then◌else◌}
use novaapi.Common.Lists.{all}

module _ {ℓ} {A : Type ℓ} where
  -- `session.get(Model, key)`
  unfoldable pub find : (A → ℕ) → ℕ → List A → Option A
  find key k [] = none
  find key k (x ∷ xs) = if key x == k then some x else find key k xs

  -- An `UPDATE` of the row with the key of `a`, or an `INSERT` where there is none.
  unfoldable pub put : (A → ℕ) → A → List A → List A
  put key a [] = a ∷ []
  put key a (x ∷ xs) = if key x == key a then a ∷ xs else x ∷ put key a xs

  -- A row that was written is read back.
  pub find-put_self : (key : A → ℕ) (a : A) (xs : List A) → find key (key a) (put key a xs) ≡ some a
  unfolding find put
  find-put_self key a [] = ground arith
  find-put_self key a (x ∷ xs) = ground (arith, find-put_self key a xs)

  -- A write leaves the rows under other keys alone.
  pub find-put_ne :
      (key : A → ℕ) (a : A) (k : ℕ) (xs : List A)
      → k ≢ key a
      → find key k (put key a xs) ≡ find key k xs
  unfolding find put
  find-put_ne key a k [] h = ground arith
  find-put_ne key a k (x ∷ xs) h = ground (arith, find-put_ne key a k xs h)

  -- A row that is found carries the key that was asked for.
  pub find-key : (key : A → ℕ) (k : ℕ) (xs : List A) (a : A) → find key k xs ≡ some a → key a ≡ k
  unfolding find
  find-key key k [] a h = ground arith
  find-key key k (x ∷ xs) a h = ground (arith, find-key key k xs a)

  -- What holds of all rows holds of the row that is found.
  pub find-all :
      (key : A → ℕ) (q : A → Bool) (k : ℕ) (xs : List A) (a : A)
      → all q xs ≡ true
      → find key k xs ≡ some a
      → q a ≡ true
  unfolding find
  find-all key q k [] a h f = ground arith
  find-all key q k (x ∷ xs) a h f = ground (arith, find-all key q k xs a)
