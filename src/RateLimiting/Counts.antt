-- ===== src/RateLimiting/Counts.antt =====
-- What one call leaves in the counts of rate_limiting.py, and the order of its windows.
use Prim.Native.String.{String}
use text.Mathlib.Text.{◌==◌ as str_eq}
use text.Mathlib.TextEquality.{eq_iff}
use novaapi.Common.{
  ℕ, ◌+◌, ◌*◌, ◌/◌, ◌≤◌, ◌<◌, ◌≡◌, ◌≢◌, refl, Bool, true, false, none, [], ◌∷◌, leb, ltb, ◌==◌,
  arith, if◌then◌else◌, Bool-cases, inl, inr,
}
use novaapi.Errors.{Result, ok, err}
use novaapi.RateLimiting.{Windows, window_of, set_window, window_start, count_before, hit, enforce}

window_of-set_window :
    (key j : String) (start count : ℕ) (default : ℕ × ℕ) (ws : Windows)
    → window_of j default (set_window key start count ws)
      ≡ (if str_eq key j then (start, count) else window_of j default ws)
unfolding window_of set_window
window_of-set_window key j start count default [] = ground (arith, eq_iff key j)
window_of-set_window key j start count default ((k, v) ∷ ws) = ground (
  arith,
  eq_iff key j,
  eq_iff k j,
  eq_iff k key,
  window_of-set_window key j start count default ws,
)

-- What a hit leaves in the count of a window: of its own key the hit is counted in the window that
-- it falls in, and any other window is forgotten; the other keys keep theirs.
pub count_before-hit :
    (key j : String) (limit window_seconds now start : ℕ) (ws : Windows)
    → count_before j start (hit key limit window_seconds now ws).1 ≡ (
        if str_eq key j
        then (if window_start now window_seconds == start then count_before j start ws + 1 else 0)
        else count_before j start ws)
unfolding count_before hit
count_before-hit key j limit window_seconds now start ws = ground (
  arith,
  eq_iff key j,
  window_of-set_window key j (window_start now window_seconds)
      (count_before key (window_start now window_seconds) ws + 1) (start, 0) ws,
)

abbrev pub passed : Result (Unit {0}) → Bool
passed (ok u) = true
passed (err e) = false

-- Where Redis does not answer, `enforce` is the fallback counter.
pub enforce-hit :
    (key : String) (limit window_seconds now : ℕ) (ws : Windows)
    → ((enforce none key limit window_seconds now ws).1 ≡ (hit key limit window_seconds now ws).1)
      × (passed (enforce none key limit window_seconds now ws).0
          ≡ leb (count_before key (window_start now window_seconds) ws + 1) limit)
unfolding enforce hit
enforce-hit key limit window_seconds now ws = (refl, ground arith)

-- Facts on the order of windows.
pub window_order : (w a b : ℕ) → 0 < w → a < b → a * w + w ≤ b * w
window_order w a b h l = grind arith

pub window_ne : (w a b : ℕ) → 0 < w → a ≢ b → a * w ≢ b * w
window_ne w a b h ne = elim (Bool-cases (ltb a b)) [
  | inl l ↦ ground (arith, window_order w a b h)
  | inr g ↦ ground (arith, window_order w b a h)
]

pub div_bounds : (w a : ℕ) → 0 < w → (a / w * w ≤ a) × (a < a / w * w + w)
div_bounds w a h = grind arith

pub div_mono : (w a b : ℕ) → 0 < w → a ≤ b → a / w ≤ b / w
div_mono w a b h l = elim (Bool-cases (ltb (b / w) (a / w))) [
  | inl g ↦ ground (arith, window_order w (b / w) (a / w) h, div_bounds w a h, div_bounds w b h)
  | inr k ↦ ground arith
]
