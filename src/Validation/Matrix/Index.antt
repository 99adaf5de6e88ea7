-- ===== src/Validation/Matrix/Index.antt =====
-- Positions of labels in `build_confusion_matrix` and in `per_class_counts`.
use text.Mathlib.Text.{◌==◌ as str_eq}
use novaapi.Common.{
  ℕ, zero, suc, ◌+◌, ◌<◌, ◌≡◌, refl, sym, ap, ◌∙◌, String, Bool, true, false, Option, none, some,
  List, [], ◌∷◌, length, any, ◌==◌, ==_iff, inl, inr, Bool-cases, Option-cases, arith, eq_iff,
}
use novaapi.Validation.Matrix.{index, first_index}
use novaapi.Validation.Matrix.Bump.{one_if}

-- How often the label stands in a list.
unfoldable pub occurrences : String → List String → ℕ
occurrences a [] = 0
occurrences a (l ∷ ls) = one_if (str_eq l a) + occurrences a ls

abbrev label_at : ℕ → List String → Option String
label_at i [] = none
label_at zero (l ∷ ls) = some l
label_at (suc i) (l ∷ ls) = label_at i ls

-- The position that the dictionary gives holds the label.
label_at-index :
    (a : String) (ls : List String) (i : ℕ) → index a ls ≡ some i → label_at i ls ≡ some a
unfolding index
label_at-index a [] i h = ground arith
label_at-index a (l ∷ ls) zero h = elim (Option-cases (index a ls)) [
  | inl e ↦ elim (Bool-cases (str_eq a l)) [
    | inl s ↦ ap some (sym ((eq_iff a l).0 s))
    | inr s ↦ ground arith
  ]
  | inr (j, e) ↦ ground arith
]
label_at-index a (l ∷ ls) (suc i) h = elim (Option-cases (index a ls)) [
  | inl e ↦ ground arith
  | inr (j, e) ↦ ground (arith, label_at-index a ls j e)
]

pub index<length : (a : String) (ls : List String) (i : ℕ) → index a ls ≡ some i → i < length ls
unfolding index
index<length a [] i h = ground arith
index<length a (l ∷ ls) i h = elim (Option-cases (index a ls)) [
  | inl e ↦ ground arith
  | inr (j, e) ↦ ground (arith, index<length a ls j e)
]

-- Positions agree where the labels do.
pub same-index :
    (a b : String) (ls : List String) (k i : ℕ)
    → index a ls ≡ some k
    → index b ls ≡ some i
    → (k == i) ≡ str_eq b a
same-index a b ls k i f g = elim (Bool-cases (str_eq b a)) [
  | inl s ↦ (==_iff k i).1 (cc (f, g, (eq_iff b a).0 s)) ∙ sym s
  | inr s ↦ elim (Bool-cases (k == i)) [
    | inl t ↦
        t
        ∙ sym (
            (eq_iff b a).1
              (cc (label_at-index a ls k f, label_at-index b ls i g, (==_iff k i).0 t)))
    | inr t ↦ t ∙ sym s
  ]
]

-- `t in labels`
abbrev pub listed : String → List String → Bool
listed t ls = any (str_eq t) ls

pub listed-index :
    (t : String) (ls : List String) (i : ℕ) → index t ls ≡ some i → listed t ls ≡ true
unfolding index
listed-index t [] i h = ground arith
listed-index t (l ∷ ls) i h = elim (Option-cases (index t ls)) [
  | inl e ↦ elim (Bool-cases (str_eq t l)) [ inl s ↦ ground arith | inr s ↦ ground arith ]
  | inr (j, e) ↦ ground (arith, listed-index t ls j e)
]

pub unlisted-index : (t : String) (ls : List String) → index t ls ≡ none → listed t ls ≡ false
unfolding index
unlisted-index t [] h = refl
unlisted-index t (l ∷ ls) h = elim (Option-cases (index t ls)) [
  | inl e ↦ elim (Bool-cases (str_eq t l)) [
    | inl s ↦ ground arith
    | inr s ↦ ground (arith, unlisted-index t ls e)
  ]
  | inr (j, e) ↦ ground arith
]

flip : (a b : String) → str_eq a b ≡ str_eq b a
flip a b = elim (Bool-cases (str_eq a b)) [
  | inl s ↦ s ∙ sym ((eq_iff b a).1 (sym ((eq_iff a b).0 s)))
  | inr s ↦ elim (Bool-cases (str_eq b a)) [
    | inl t ↦ (eq_iff a b).1 (sym ((eq_iff b a).0 t)) ∙ sym t
    | inr t ↦ s ∙ sym t
  ]
]

-- A label that stands there once is at the same position for `labels.index` and for the dictionary.
absent-index : (a : String) (ls : List String) → occurrences a ls ≡ 0 → index a ls ≡ none
unfolding index occurrences
absent-index a [] h = refl
absent-index a (l ∷ ls) h = elim (Bool-cases (str_eq l a)) [
  | inl s ↦ ground arith
  | inr s ↦ ground (arith, flip a l, absent-index a ls)
]

pub index-first_index :
    (a : String) (ls : List String) → occurrences a ls ≡ 1 → index a ls ≡ some (first_index a ls)
unfolding index occurrences first_index
index-first_index a [] h = ground arith
index-first_index a (l ∷ ls) h = elim (Bool-cases (str_eq l a)) [
  | inl s ↦ ground (arith, flip a l, absent-index a ls)
  | inr s ↦ ground (arith, flip a l, index-first_index a ls)
]
