-- ===== src/RateLimiting/Window.antt =====
-- How many calls of one key the fallback counter lets through in each window.
use Prim.Native.String.{String}
use Prim.Native.Nat.{min}
use mathlib.Core.Path.{subst}
use text.Mathlib.Text.{◌==◌ as str_eq}
use text.Mathlib.TextEquality.{eq_iff}
use text.Mathlib.TextPositions.{eq_refl}
use novaapi.Common.{
  ℕ, suc, ◌+◌, ◌*◌, ◌/◌, ◌≤◌, ◌<◌, ◌≡◌, ◌≢◌, refl, ap, ◌∙◌, Bool, true, false, ◌&&◌, none, List, [],
  ◌∷◌, ltb, ◌==◌, ==_iff, arith, if◌then◌else◌, Bool-cases, inl, inr,
}
use novaapi.RateLimiting.{Windows, window_start, count_before, enforce}
use novaapi.RateLimiting.Counts.{
  passed, count_before-hit, enforce-hit, window_order, window_ne, div_bounds, div_mono,
}

-- A call of `enforce`, with the limit of its endpoint and the time at which it is made.
pub record Call : Type 0 where
  pub key : String
  pub limit : ℕ
  pub window_seconds : ℕ
  pub now : ℕ

-- Whether a call is one of the key in the window of a number, the windows being 0, 1, 2, ...
abbrev pub falls_in : String → ℕ → Call → Bool
falls_in j q c = str_eq c.key j && c.now / c.window_seconds == q

-- The calls of a key that are made in a window.
abbrev pub calls_of : String → ℕ → List Call → ℕ
calls_of j q [] = 0
calls_of j q (c ∷ cs) = let rest = calls_of j q cs in if falls_in j q c then suc rest else rest

-- The calls of a key in a window that `enforce` lets through, where all calls are made in turn and
-- Redis answers none.
unfoldable pub admitted : String → ℕ → List Call → Windows → ℕ
admitted j q [] ws = 0
admitted j q (c ∷ cs) ws =
    let (answer, ws') = enforce none c.key c.limit c.window_seconds c.now ws in
    let rest = admitted j q cs ws' in if falls_in j q c && passed answer then suc rest else rest

-- A call of the key has the limit and the window of its endpoint, and is not made before `last`.
abbrev pub OwnCall : ℕ → ℕ → ℕ → Call → Type 0
OwnCall limit window_seconds last c =
    (c.limit ≡ limit) × (c.window_seconds ≡ window_seconds) × (last ≤ c.now)

-- The calls of one key are made in the order of time, all with one limit and one length of window.
-- The calls of the other keys are any.
abbrev pub InTurn : String → ℕ → ℕ → ℕ → List Call → Type 0
InTurn j limit window_seconds last [] = Unit
InTurn j limit window_seconds last (c ∷ cs) =
    (str_eq c.key j ≡ true → OwnCall limit window_seconds last c)
    × InTurn j limit window_seconds (if str_eq c.key j then c.now else last) cs

-- No more calls are let through than are made.
admitted-le :
    (j : String) (q : ℕ) (cs : List Call) (ws : Windows) → admitted j q cs ws ≤ calls_of j q cs
unfolding admitted
admitted-le j q [] ws = omega arith
admitted-le j q (c ∷ cs) ws =
    let ws' = (enforce none c.key c.limit c.window_seconds c.now ws).1 in
    ground (arith, admitted-le j q cs ws')

-- No window behind the last call of the key has a count.
abbrev Fresh : String → ℕ → ℕ → Windows → Type 0
Fresh j w last ws = (q : ℕ) → last < q * w → count_before j (q * w) ws ≡ 0

module _ (j : String) (limit w : ℕ) (positive : 0 < w) where
  -- A window that is over gets no more calls.
  calls_of-over :
      (q last : ℕ) (cs : List Call) → InTurn j limit w last cs → q < last / w → calls_of j q cs ≡ 0
  calls_of-over q last [] h over = refl
  calls_of-over q last (c ∷ cs) (own, h) over = elim (Bool-cases (str_eq c.key j)) [
    | inl same ↦
        let (el, ew, le) = own same in
        let later : last / w ≤ c.now / w = div_mono w last c.now positive le in
        let e : c.now / c.window_seconds ≡ c.now / w = ap (λ (n : ℕ). c.now / n) ew in
        let h' : InTurn j limit w c.now cs = rw same at h in
        ground (arith, same, calls_of-over q c.now cs h', later, e)
    | inr other ↦
        let h' : InTurn j limit w last cs = rw other at h in
        ground (arith, other, calls_of-over q last cs h' over)
  ]

  -- The count of a window after a call of the key, and after one of another key.
  own-count :
      (now q : ℕ) (ws : Windows)
      → count_before j (q * w) (enforce none j limit w now ws).1
        ≡ (if now / w == q then count_before j (q * w) ws + 1 else 0)
  unfolding window_start
  own-count now q ws = elim (Bool-cases (now / w == q)) [
    | inl e ↦ ground (
      arith,
      (enforce-hit j limit w now ws).0,
      count_before-hit j j limit w now (q * w) ws,
      eq_refl j,
      ap (λ (n : ℕ). n * w) ((==_iff (now / w) q).0 e),
    )
    | inr ne ↦ ground (
      arith,
      (enforce-hit j limit w now ws).0,
      count_before-hit j j limit w now (q * w) ws,
      eq_refl j,
      window_ne w (now / w) q positive,
    )
  ]

  own-Fresh : (now : ℕ) (ws : Windows) → Fresh j w now (enforce none j limit w now ws).1
  own-Fresh now ws q behind = ground (
    arith,
    own-count now q ws,
    div_bounds w now positive,
    ap (λ (n : ℕ). n * w) {x = now / w} {y = q},
  )

  other-count :
      (c : Call) (q : ℕ) (ws : Windows)
      → str_eq c.key j ≡ false
      → count_before j (q * w) (enforce none c.key c.limit c.window_seconds c.now ws).1
        ≡ count_before j (q * w) ws
  other-count c q ws other = ground (
    arith,
    other,
    (enforce-hit c.key c.limit c.window_seconds c.now ws).0,
    count_before-hit c.key j c.limit c.window_seconds c.now (q * w) ws,
  )

  abbrev own_call : ℕ → Call
  own_call now = record { key = j; limit = limit; window_seconds = w; now = now }

  abbrev after_own : ℕ → Windows → Windows
  after_own now ws = (enforce none j limit w now ws).1

  -- The count that a window has takes its part of the limit.
  abbrev Room : ℕ → List Call → Windows → Type 0
  Room q cs ws =
      admitted j q cs ws + min limit (count_before j (q * w) ws)
      ≡ min limit (count_before j (q * w) ws + calls_of j q cs)

  -- A call in the window takes what is left of the limit.
  own-Room :
      (q now : ℕ) (cs : List Call) (ws : Windows)
      → now / w ≡ q
      → Room q cs (after_own now ws)
      → Room q (own_call now ∷ cs) ws
  unfolding admitted window_start
  own-Room q now cs ws e room = ground (
    arith,
    eq_refl j,
    own-count now q ws,
    (enforce-hit j limit w now ws).1,
    ap (λ (n : ℕ). count_before j (n * w) ws) e,
  )

  -- A call in another window forgets the count, which is 0 or of a window that is over.
  else-Room :
      (q last now : ℕ) (cs : List Call) (ws : Windows)
      → now / w ≢ q
      → last ≤ now
      → Fresh j w last ws
      → InTurn j limit w now cs
      → Room q cs (after_own now ws)
      → Room q (own_call now ∷ cs) ws
  unfolding admitted
  else-Room q last now cs ws ne le fresh h room = elim (Bool-cases (ltb q (now / w))) [
    | inl over ↦ ground (arith, calls_of-over q now cs h, admitted-le j q cs (after_own now ws))
    | inr ahead ↦ ground (
      arith,
      own-count now q ws,
      fresh q,
      div_bounds w now positive,
      window_order w (now / w) q positive,
    )
  ]

  calls-Room :
      (q last : ℕ) (cs : List Call) (ws : Windows)
      → InTurn j limit w last cs
      → Fresh j w last ws
      → Room q cs ws
  unfolding admitted
  calls-Room q last [] ws h fresh = omega arith
  calls-Room q last (c ∷ cs) ws (own, h) fresh = elim (Bool-cases (str_eq c.key j)) [
    | inl same ↦
        let (el, ew, le) = own same in
        let e : own_call c.now ≡ c = ground (arith, (eq_iff c.key j).0 same, el, ew) in
        let h' : InTurn j limit w c.now cs = rw same at h in
        let room = calls-Room q c.now cs (after_own c.now ws) h' (own-Fresh c.now ws) in
        subst (λ (x : Call). Room q (x ∷ cs) ws) e
          (elim (Bool-cases (c.now / w == q)) [
            | inl here ↦ own-Room q c.now cs ws ((==_iff (c.now / w) q).0 here) room
            | inr ne ↦ else-Room q last c.now cs ws (ground arith) le fresh h' room
          ])
    | inr other ↦
        let ws' = (enforce none c.key c.limit c.window_seconds c.now ws).1 in
        let h' : InTurn j limit w last cs = rw other at h in
        let fresh' : Fresh j w last ws' = λ p behind. other-count c p ws other ∙ fresh p behind in
        ground (arith, other, other-count c q ws other, calls-Room q last cs ws' h' fresh')
  ]

-- While Redis answers none, the fallback counter keeps a limit exactly. Whatever calls are made from
-- the start of the process on, where those of one key come in the order of time with one limit
-- and one positive length of window, and those of other keys come at any times with any limits:
-- in each window, `enforce` lets through all calls of the key or as many as the limit, whichever
-- is less.
pub admitted_exact :
    (j : String) (limit w q : ℕ) (cs : List Call)
    → 0 < w
    → InTurn j limit w 0 cs
    → admitted j q cs [] ≡ min limit (calls_of j q cs)
unfolding count_before
admitted_exact j limit w q cs positive h =
    ground (arith, calls-Room j limit w positive q 0 cs [] h (λ p behind. ground arith))
