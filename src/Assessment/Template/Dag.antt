-- ===== src/Assessment/Template/Dag.antt =====
-- The check of a template's stage graph against the description of a cycle.
use novaapi.Common.{
  ℕ, suc, zero, ◌≤◌, ◌<◌, ◌≡◌, ◌≢◌, Bool, true, false, not, ◌&&◌, ◌||◌, none, some, [], ◌∷◌, all,
  any, length, arith, Bool-cases, inl, inr, ap,
}
use novaapi.Assessment.Stage.{StageType, StageSet, same_stage, contains}
use novaapi.Assessment.Stage.Laws.{same_stage_iff}
use novaapi.Assessment.Template.{Remaining, subset, resolve_pass, resolve_loop}

-- Every stage of the set that waits, waits for a stage of the set.
unfoldable pub blocked : StageSet → Remaining → Bool
blocked c [] = true
blocked c ((st, preds) ∷ r) = (not (contains c st) || any (contains c) preds) && blocked c r

unfoldable pub has_key : StageType → Remaining → Bool
has_key st [] = false
has_key st ((k, v) ∷ r) = same_stage st k || has_key st r

-- Each round that resolves a stage leaves fewer.
resolve_pass-length :
    (r : Remaining) (resolved : StageSet)
    → (length (resolve_pass r resolved).0 ≤ length r)
      × ((resolve_pass r resolved).2 ≡ true → suc (length (resolve_pass r resolved).0) ≤ length r)
unfolding resolve_pass
resolve_pass-length [] resolved = (omega arith, λ h. ground arith)
resolve_pass-length ((st, preds) ∷ r) resolved =
    let a = resolve_pass-length r resolved in
    let b = resolve_pass-length r (st ∷ resolved) in
    (ground (arith, a, b), λ h. ground (arith, a, b))

-- The loop ends within one more round than there are stages.
pub resolve_loop_ends :
    (fuel : ℕ) (r : Remaining) (resolved : StageSet)
    → length r < fuel
    → resolve_loop fuel r resolved ≢ none
unfolding resolve_loop
resolve_loop_ends zero r resolved h = ground arith
resolve_loop_ends (suc fuel) [] resolved h = ground arith
resolve_loop_ends (suc fuel) (x ∷ r) resolved h = ground (
  arith,
  resolve_pass-length (x ∷ r) resolved,
  resolve_loop_ends fuel (resolve_pass (x ∷ r) resolved).0 (resolve_pass (x ∷ r) resolved).1,
)

-- No stage of one set is in the other.
abbrev apart : StageSet → StageSet → Bool
apart c s = all (λ x. not (contains c x)) s

member-apart :
    (c s : StageSet) (x : StageType) → apart c s ≡ true → contains s x ≡ true → contains c x ≡ false
unfolding contains
member-apart c [] x a h = ground arith
member-apart c (y ∷ s) x a h = elim (Bool-cases (same_stage x y)) [
  | inl e ↦ let p : x ≡ y = (same_stage_iff x y).0 e in rw p (ground arith)
  | inr ne ↦ member-apart c s x (ground arith) (ground arith)
]

-- A stage that waits for a stage of a set apart from the resolved ones is not ready.
waits :
    (c resolved preds : StageSet)
    → apart c resolved ≡ true
    → any (contains c) preds ≡ true
    → subset preds resolved ≡ false
unfolding subset
waits c resolved [] a h = ground arith
waits c resolved (p ∷ preds) a h =
    ground (arith, member-apart c resolved p a, waits c resolved preds a)

pub contains_same :
    (c : StageSet) (a b : StageType) → same_stage a b ≡ true → contains c a ≡ contains c b
contains_same c a b h = ap (contains c) ((same_stage_iff a b).0 h)

-- A round resolves no stage of a blocked set.
record Held (c : StageSet) (r rest : Remaining) (resolved : StageSet) : Type 0 where
  still_apart : apart c resolved ≡ true
  still_blocked : blocked c rest ≡ true
  still_there :
      (st : StageType) → contains c st ≡ true → has_key st r ≡ true → has_key st rest ≡ true

resolve_pass-Held :
    (c : StageSet) (r : Remaining) (resolved : StageSet)
    → apart c resolved ≡ true
    → blocked c r ≡ true
    → Held c r (resolve_pass r resolved).0 (resolve_pass r resolved).1
unfolding resolve_pass blocked has_key
resolve_pass-Held c [] resolved a b = record {
  still_apart = a;
  still_blocked = b;
  still_there = λ st m k. k;
}
resolve_pass-Held c ((st, preds) ∷ r) resolved a b = elim (Bool-cases (subset preds resolved)) [
  | inl now ↦
      let out : contains c st ≡ false = ground (arith, waits c resolved preds a) in
      let h = resolve_pass-Held c r (st ∷ resolved) (ground arith) (ground arith) in
      rw now (record {
        still_apart = h.still_apart;
        still_blocked = h.still_blocked;
        still_there = λ x m k. ground (arith, h.still_there x, contains_same c x st);
      })
  | inr later ↦
      let h = resolve_pass-Held c r resolved a (ground arith) in
      rw later (record {
        still_apart = h.still_apart;
        still_blocked = ground (arith, h.still_blocked);
        still_there = λ x m k. ground (arith, h.still_there x);
      })
]

-- A loop that resolves every stage shows that no set of them is blocked.
pub resolve_loop_sound :
    (fuel : ℕ) (r : Remaining) (resolved c : StageSet) (st : StageType)
    → resolve_loop fuel r resolved ≡ some []
    → apart c resolved ≡ true
    → blocked c r ≡ true
    → contains c st ≡ true
    → has_key st r ≢ true
unfolding resolve_loop has_key
resolve_loop_sound zero r resolved c st e a b m = ground arith
resolve_loop_sound (suc fuel) [] resolved c st e a b m = ground arith
resolve_loop_sound (suc fuel) (x ∷ r) resolved c st e a b m = λ k.
    let (rest, resolved', progressed) = resolve_pass (x ∷ r) resolved in
    let h = resolve_pass-Held c (x ∷ r) resolved a b in
    let k' : has_key st rest ≡ true = h.still_there st m k in
    elim (Bool-cases progressed) [
      | inl went ↦
          resolve_loop_sound fuel rest resolved' c st (ground arith) h.still_apart h.still_blocked m
            k'
      | inr ended ↦ ground arith
    ]
