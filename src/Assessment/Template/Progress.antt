-- ===== src/Assessment/Template/Progress.antt =====
-- `runnable_stages` of contexts/assessment/domain/workflow_template.py on an accepted template.
use novaapi.Common.{
  ◌≡◌, refl, ◌≢◌, Bool, true, false, not, ◌&&◌, ◌||◌, List, [], ◌∷◌, all, any, filter, arith,
  Bool-cases, inl, inr, ap,
}
use novaapi.Errors.{ok}
use novaapi.Assessment.Stage.{
  StageType, StageSet, same_stage, contains, StageDefinition, WorkflowProgress, get, is_complete,
  all_complete,
}
use novaapi.Assessment.Stage.Laws.{same_stage_iff, same_stage_refl}
use novaapi.Assessment.Template.{
  Remaining, subset, remaining_of, remaining_from, set_item, predecessors_known,
  required_stage_types, validate_dag, may_start, runnable_stages,
}
use novaapi.Assessment.Template.Dag.{blocked, contains_same}
use novaapi.Assessment.Template.Acyclic.{validate_dag_iff, remaining_from-has_key}

module _ (p : WorkflowProgress) where
  -- The stages of a set that are not complete.
  abbrev incomplete : StageSet → StageSet
  incomplete s = filter (λ st. not (is_complete p st)) s

  contains-incomplete :
      (s : StageSet) (st : StageType)
      → contains (incomplete s) st ≡ (contains s st && not (is_complete p st))
  unfolding contains
  contains-incomplete [] st = refl
  contains-incomplete (x ∷ s) st = ground (
    arith,
    contains-incomplete s st,
    λ (e : same_stage st x ≡ true). ap (is_complete p) ((same_stage_iff st x).0 e),
  )

  some_incomplete :
      (s : StageSet)
      → all_complete p s ≡ false
      → (st : StageType) × (contains (incomplete s) st ≡ true)
  unfolding all_complete contains
  some_incomplete [] h = absurd (ground arith)
  some_incomplete (x ∷ s) h = elim (Bool-cases (is_complete p x)) [
    | inl done ↦
        let (st, m) = some_incomplete s (ground arith) in
        (st, ground (arith, contains-incomplete s st, contains-incomplete (x ∷ s) st))
    | inr not_done ↦ (x, ground (arith, same_stage_refl x))
  ]

  -- Some known predecessor of a stage that waits is not complete.
  waiting_for :
      (known preds : StageSet)
      → subset preds known ≡ true
      → all_complete p preds ≡ false
      → any (contains (incomplete known)) preds ≡ true
  unfolding subset all_complete
  waiting_for known [] k n = ground arith
  waiting_for known (x ∷ preds) k n =
      ground (arith, contains-incomplete known x, waiting_for known preds)

  -- The entry of a stage waits, or its stage does not wait.
  abbrev held : StageSet → StageType → StageSet → Bool
  held c st preds = not (contains c st) || any (contains c) preds

  set_item-blocked :
      (c : StageSet) (st : StageType) (preds : StageSet) (r : Remaining)
      → held c st preds ≡ true
      → blocked c r ≡ true
      → blocked c (set_item st preds r) ≡ true
  unfolding set_item blocked
  set_item-blocked c st preds [] h b = ground arith
  set_item-blocked c st preds ((k, v) ∷ r) h b =
      ground (arith, set_item-blocked c st preds r, contains_same c k st)

  -- Where nothing may run, the incomplete stages wait for each other.
  remaining_from-blocked :
      (known : StageSet) (r : Remaining) (sds : List StageDefinition)
      → predecessors_known known sds ≡ true
      → all (λ st. may_start (get p st).status || is_complete p st) (required_stage_types sds)
        ≡ true
      → runnable_stages sds p ≡ []
      → blocked (incomplete known) r ≡ true
      → blocked (incomplete known) (remaining_from r sds) ≡ true
  unfolding predecessors_known required_stage_types runnable_stages remaining_from
  remaining_from-blocked known r [] k i e b = b
  remaining_from-blocked known r (sd ∷ sds) k i e b =
      remaining_from-blocked known (set_item sd.stage_type sd.required_predecessors r) sds
        (ground arith) (ground arith) (ground arith)
        (set_item-blocked (incomplete known) sd.stage_type sd.required_predecessors r
          (ground (
            arith,
            waiting_for known sd.required_predecessors,
            contains-incomplete known sd.stage_type,
          ))
          b)

  -- An accepted template is not stuck: where each of its stages is not started, failed or complete,
  -- and not all are complete, some stage may run.
  pub runnable_stages_live :
      (sds : List StageDefinition)
      → validate_dag sds ≡ ok tt
      → all (λ st. may_start (get p st).status || is_complete p st) (required_stage_types sds)
        ≡ true
      → all_complete p (required_stage_types sds) ≡ false
      → runnable_stages sds p ≢ []
  unfolding validate_dag remaining_of
  runnable_stages_live sds accepted idle unfinished stuck =
      let known = required_stage_types sds in
      let k : predecessors_known known sds ≡ true = ground arith in
      let b : blocked (incomplete known) (remaining_of sds) ≡ true =
        remaining_from-blocked known [] sds k idle stuck (unfold blocked in refl) in
      let (first, m) = some_incomplete known unfinished in
      (validate_dag_iff sds k).0 accepted (incomplete known) first (record {
        nonempty = m;
        inside =
            λ st h. remaining_from-has_key [] sds st (ground (arith, contains-incomplete known st));
        waiting = b;
      })
