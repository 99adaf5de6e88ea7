-- ===== src/Assessment/Template/Acyclic.antt =====
-- `validate_dag` of contexts/assessment/domain/workflow_template.py against the cycles of the graph.
use novaapi.Common.{
  ℕ, suc, zero, ◌≡◌, refl, ◌≢◌, true, false, ◌||◌, none, some, List, [], ◌∷◌, any, map, length,
  arith, Bool-cases, Option-cases, inl, inr, ap, sym, ◌∙◌, ◌↔◌,
}
use novaapi.Errors.{ok}
use novaapi.Assessment.Stage.{StageType, StageSet, same_stage, contains, StageDefinition}
use novaapi.Assessment.Stage.Laws.{same_stage_iff, same_stage_refl}
use novaapi.Assessment.Template.{
  Remaining, subset, resolve_pass, resolve_loop, validate_dag, remaining_of, remaining_from,
  set_item, predecessors_known, required_stage_types,
}
use novaapi.Assessment.Template.Dag.{blocked, has_key, resolve_loop_ends, resolve_loop_sound}
use novaapi.Assessment.Template.Cycle.{
  IsCycle, distinct, preds_known, resolve_pass-has_key, resolve_pass-distinct,
  resolve_pass-preds_known, resolve_pass-covers, resolve_pass-blocked,
}

-- The stages that have an entry.
abbrev keys : Remaining → StageSet
keys r = map (λ e. e.0) r

contains-keys : (r : Remaining) (st : StageType) → contains (keys r) st ≡ has_key st r
unfolding contains has_key
contains-keys [] st = refl
contains-keys ((k, v) ∷ r) st = ground (arith, contains-keys r st)

-- What is not ready waits for one of the stages that remain.
unresolved :
    (known resolved c preds : StageSet)
    → ((p : StageType) → contains known p ≡ true → (contains resolved p || contains c p) ≡ true)
    → subset preds known ≡ true
    → subset preds resolved ≡ false
    → any (contains c) preds ≡ true
unfolding subset
unresolved known resolved c [] cover k n = ground arith
unresolved known resolved c (p ∷ preds) cover k n =
    ground (arith, cover p, unresolved known resolved c preds cover)

-- A round that resolves nothing leaves all of it, each stage waiting for another.
resolve_pass-stuck :
    (known resolved c : StageSet) (r : Remaining)
    → ((p : StageType) → contains known p ≡ true → (contains resolved p || contains c p) ≡ true)
    → preds_known known r ≡ true
    → (resolve_pass r resolved).2 ≡ false
    → (blocked c r ≡ true) × ((resolve_pass r resolved).0 ≡ r)
unfolding resolve_pass blocked preds_known
resolve_pass-stuck known resolved c [] cover k idle = (ground arith, ground arith)
resolve_pass-stuck known resolved c ((st, preds) ∷ r) cover k idle =
    elim (Bool-cases (subset preds resolved)) [
      | inl now ↦ ground arith
      | inr later ↦
          let h = resolve_pass-stuck known resolved c r cover (ground arith) (ground arith) in
          (ground (arith, h, unresolved known resolved c preds cover), ground (arith, h))
    ]

-- A loop that ends with something left has found a cycle.
resolve_loop-IsCycle :
    (fuel : ℕ) (known resolved : StageSet) (r : Remaining) (x : StageType × StageSet)
    (left : Remaining)
    → distinct r ≡ true
    → preds_known known r ≡ true
    → ((p : StageType) → contains known p ≡ true → (contains resolved p || has_key p r) ≡ true)
    → resolve_loop fuel r resolved ≡ some (x ∷ left)
    → (c : StageSet) × (first : StageType) × IsCycle c first r
unfolding resolve_loop
resolve_loop-IsCycle zero known resolved r x left d k cover e = ground arith
resolve_loop-IsCycle (suc fuel) known resolved [] x left d k cover e = ground arith
resolve_loop-IsCycle (suc fuel) known resolved (y ∷ r) x left d k cover e =
    let (rest, resolved', progressed) = resolve_pass (y ∷ r) resolved in
    elim (Bool-cases progressed) [
      | inl went ↦
          let (c, first, w) =
            resolve_loop-IsCycle fuel known resolved' rest x left
              (resolve_pass-distinct (y ∷ r) resolved d)
              (resolve_pass-preds_known known (y ∷ r) resolved k)
              (λ p m. resolve_pass-covers (y ∷ r) resolved p (cover p m)) (ground arith) in
          (
            c,
            first,
            record {
              nonempty = w.nonempty;
              inside = λ p m. resolve_pass-has_key (y ∷ r) resolved p (w.inside p m);
              waiting = resolve_pass-blocked c (y ∷ r) resolved d (λ p m h. w.inside p m) w.waiting;
            },
          )
      | inr ended ↦
          let cover' : (p : StageType)
              → contains known p ≡ true
              → (contains resolved p || contains (keys (y ∷ r)) p) ≡ true =
            λ p m. ap (λ b. contains resolved p || b) (contains-keys (y ∷ r) p) ∙ cover p m in
          (
            keys (y ∷ r),
            y.0,
            record {
              nonempty = unfold contains in ground (arith, same_stage_refl y.0);
              inside = λ p m. sym (contains-keys (y ∷ r) p) ∙ m;
              waiting = (resolve_pass-stuck known resolved (keys (y ∷ r)) (y ∷ r) cover' k ended).0;
            },
          )
    ]

set_item-has_key :
    (st p : StageType) (preds : StageSet) (r : Remaining)
    → has_key p (set_item st preds r) ≡ (same_stage p st || has_key p r)
unfolding set_item has_key
set_item-has_key st p preds [] = refl
set_item-has_key st p preds ((k, v) ∷ r) = ground (
  arith,
  set_item-has_key st p preds r,
  same_stage_iff k st,
  same_stage_iff p st,
  same_stage_iff p k,
)

set_item-distinct :
    (st : StageType) (preds : StageSet) (r : Remaining)
    → distinct r ≡ true
    → distinct (set_item st preds r) ≡ true
unfolding set_item distinct has_key
set_item-distinct st preds [] d = refl
set_item-distinct st preds ((k, v) ∷ r) d =
    ground (arith, set_item-distinct st preds r, set_item-has_key st k preds r)

set_item-preds_known :
    (known : StageSet) (st : StageType) (preds : StageSet) (r : Remaining)
    → subset preds known ≡ true
    → preds_known known r ≡ true
    → preds_known known (set_item st preds r) ≡ true
unfolding set_item preds_known
set_item-preds_known known st preds [] s h = ground arith
set_item-preds_known known st preds ((k, v) ∷ r) s h =
    ground (arith, set_item-preds_known known st preds r s)

remaining_from-preds_known :
    (known : StageSet) (r : Remaining) (sds : List StageDefinition)
    → predecessors_known known sds ≡ true
    → preds_known known r ≡ true
    → preds_known known (remaining_from r sds) ≡ true
unfolding remaining_from predecessors_known
remaining_from-preds_known known r [] s h = h
remaining_from-preds_known known r (sd ∷ sds) s h =
    remaining_from-preds_known known (set_item sd.stage_type sd.required_predecessors r) sds
      (ground arith)
      (set_item-preds_known known sd.stage_type sd.required_predecessors r (ground arith) h)

remaining_from-distinct :
    (r : Remaining) (sds : List StageDefinition)
    → distinct r ≡ true
    → distinct (remaining_from r sds) ≡ true
unfolding remaining_from
remaining_from-distinct r [] d = d
remaining_from-distinct r (sd ∷ sds) d =
    remaining_from-distinct (set_item sd.stage_type sd.required_predecessors r) sds
      (set_item-distinct sd.stage_type sd.required_predecessors r d)

pub remaining_from-has_key :
    (r : Remaining) (sds : List StageDefinition) (p : StageType)
    → (contains (required_stage_types sds) p || has_key p r) ≡ true
    → has_key p (remaining_from r sds) ≡ true
unfolding remaining_from required_stage_types contains
remaining_from-has_key r [] p h = h
remaining_from-has_key r (sd ∷ sds) p h =
    remaining_from-has_key (set_item sd.stage_type sd.required_predecessors r) sds p
      (ground (arith, set_item-has_key sd.stage_type p sd.required_predecessors r))

-- Where every predecessor is a stage of the template, the template is accepted exactly when no set of
-- its stages is a cycle: a set with a stage in it, all of whose stages have an entry, and each entry
-- of which names a predecessor in the set.
pub validate_dag_iff :
    (sds : List StageDefinition)
    → predecessors_known (required_stage_types sds) sds ≡ true
    → (validate_dag sds ≡ ok tt)
      ↔ ((c : StageSet) (first : StageType) → ¬ IsCycle c first (remaining_of sds))
unfolding validate_dag remaining_of
validate_dag_iff sds k =
    let r = remaining_of sds in
    let known = required_stage_types sds in
    let end = resolve_loop (suc (length r)) r [] in
    let ends : end ≢ none = resolve_loop_ends (suc (length r)) r [] (omega arith) in
    let d : distinct r ≡ true = remaining_from-distinct [] sds (unfold distinct in refl) in
    let pk : preds_known known r ≡ true =
      remaining_from-preds_known known [] sds k (unfold preds_known in refl) in
    let cover : (p : StageType) → contains known p ≡ true → has_key p r ≡ true =
      λ p m. remaining_from-has_key [] sds p (ground arith) in
    (
      λ accepted c first w.
          resolve_loop_sound (suc (length r)) r [] c first (ground arith) refl w.waiting w.nonempty
            (w.inside first w.nonempty),
      λ acyclic. elim (Option-cases end) [
        | inl nothing ↦ absurd (ends nothing)
        | inr ([], e) ↦ ground arith
        | inr (x ∷ left, e) ↦
            let (c, first, w) =
              resolve_loop-IsCycle (suc (length r)) known [] r x left d pk
                (λ p m. ground (arith, cover p m)) e in
            absurd (acyclic c first w)
      ],
    )
