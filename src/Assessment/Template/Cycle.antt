-- ===== src/Assessment/Template/Cycle.antt =====
-- Cycles of a stage graph, and the rounds of `validate_dag` in which nothing is lost of them.
use novaapi.Common.{◌≡◌, Bool, true, not, ◌&&◌, ◌||◌, [], ◌∷◌, arith, Bool-cases, inl, inr, ap}
use novaapi.Assessment.Stage.{StageType, StageSet, same_stage, contains}
use novaapi.Assessment.Stage.Laws.{same_stage_iff, same_stage_refl}
use novaapi.Assessment.Template.{Remaining, subset, resolve_pass}
use novaapi.Assessment.Template.Dag.{blocked, has_key}

-- Some stages of the graph that wait for each other.
pub record IsCycle (c : StageSet) (first : StageType) (r : Remaining) : Type 0 where
  pub nonempty : contains c first ≡ true
  pub inside : (st : StageType) → contains c st ≡ true → has_key st r ≡ true
  pub waiting : blocked c r ≡ true

-- No stage has two entries.
unfoldable pub distinct : Remaining → Bool
unfolding has_key
distinct [] = true
distinct ((st, preds) ∷ r) = not (has_key st r) && distinct r

pub has_key_same :
    (r : Remaining) (a b : StageType) → same_stage a b ≡ true → has_key a r ≡ has_key b r
has_key_same r a b h = ap (λ x. has_key x r) ((same_stage_iff a b).0 h)

-- Every entry waits for known stages.
unfoldable pub preds_known : StageSet → Remaining → Bool
unfolding subset
preds_known known [] = true
preds_known known ((st, preds) ∷ r) = subset preds known && preds_known known r

-- A round keeps entries of what it is given, and loses none but into the resolved ones.
pub resolve_pass-has_key :
    (r : Remaining) (resolved : StageSet) (st : StageType)
    → has_key st (resolve_pass r resolved).0 ≡ true
    → has_key st r ≡ true
unfolding resolve_pass has_key
resolve_pass-has_key [] resolved st h = h
resolve_pass-has_key ((k, preds) ∷ r) resolved st h =
    ground (arith, resolve_pass-has_key r resolved st, resolve_pass-has_key r (k ∷ resolved) st)

pub resolve_pass-distinct :
    (r : Remaining) (resolved : StageSet)
    → distinct r ≡ true
    → distinct (resolve_pass r resolved).0 ≡ true
unfolding resolve_pass distinct
resolve_pass-distinct [] resolved h = h
resolve_pass-distinct ((k, preds) ∷ r) resolved h = ground (
  arith,
  resolve_pass-distinct r resolved,
  resolve_pass-distinct r (k ∷ resolved),
  resolve_pass-has_key r resolved k,
)

pub resolve_pass-preds_known :
    (known : StageSet) (r : Remaining) (resolved : StageSet)
    → preds_known known r ≡ true
    → preds_known known (resolve_pass r resolved).0 ≡ true
unfolding resolve_pass preds_known
resolve_pass-preds_known known [] resolved h = h
resolve_pass-preds_known known ((k, preds) ∷ r) resolved h = ground (
  arith,
  resolve_pass-preds_known known r resolved,
  resolve_pass-preds_known known r (k ∷ resolved),
)

pub resolve_pass-covers :
    (r : Remaining) (resolved : StageSet) (p : StageType)
    → (contains resolved p || has_key p r) ≡ true
    → (contains (resolve_pass r resolved).1 p || has_key p (resolve_pass r resolved).0) ≡ true
unfolding resolve_pass has_key contains
resolve_pass-covers [] resolved p h = h
resolve_pass-covers ((k, preds) ∷ r) resolved p h =
    ground (arith, resolve_pass-covers r resolved p, resolve_pass-covers r (k ∷ resolved) p)

-- A set of stages that a round does not resolve is blocked before it if it is after it.
pub resolve_pass-blocked :
    (c : StageSet) (r : Remaining) (resolved : StageSet)
    → distinct r ≡ true
    → ((p : StageType)
        → contains c p ≡ true
        → has_key p r ≡ true
        → has_key p (resolve_pass r resolved).0 ≡ true)
    → blocked c (resolve_pass r resolved).0 ≡ true
    → blocked c r ≡ true
unfolding resolve_pass blocked distinct has_key
resolve_pass-blocked c [] resolved d k b = b
resolve_pass-blocked c ((st, preds) ∷ r) resolved d k b =
    elim (Bool-cases (subset preds resolved)) [
      | inl now ↦
          let k' : (p : StageType)
              → contains c p ≡ true
              → has_key p r ≡ true
              → has_key p (resolve_pass r (st ∷ resolved)).0 ≡ true =
            λ p m h. ground (arith, k p m) in
          ground (
            arith,
            resolve_pass-blocked c r (st ∷ resolved) (ground arith) k',
            k st,
            same_stage_refl st,
            resolve_pass-has_key r (st ∷ resolved) st,
          )
      | inr later ↦
          let k' : (p : StageType)
              → contains c p ≡ true
              → has_key p r ≡ true
              → has_key p (resolve_pass r resolved).0 ≡ true =
            λ p m h. ground (arith, k p m, has_key_same r p st) in
          ground (arith, resolve_pass-blocked c r resolved (ground arith) k')
    ]
