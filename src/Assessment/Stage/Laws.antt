-- ===== src/Assessment/Stage/Laws.antt =====
-- Lookup and update of the progress entries.
use novaapi.Common.{
  ℕ, ◌≡◌, refl, sym, ap, ◌∙◌, ◌↔◌, true, false, not, List, [], ◌∷◌, ◌++◌, arith, filter, ==_iff,
  Bool-cases, inl, inr, zero, suc, if_same, if_swap, if◌then◌else◌,
}
use novaapi.Assessment.Stage.{
  StageType, hazard, exposure, vulnerability, risk, resilience, validation, fire_regime,
  burn_occurrence_probability, burn_severity, stage_rank, same_stage, StageProgressEntry,
  WorkflowProgress, get_entry, get, with_entry,
}

stage_of : ℕ → StageType
stage_of zero = burn_occurrence_probability
stage_of (suc zero) = burn_severity
stage_of (suc (suc zero)) = exposure
stage_of (suc (suc (suc zero))) = fire_regime
stage_of (suc (suc (suc (suc zero)))) = hazard
stage_of (suc (suc (suc (suc (suc zero))))) = resilience
stage_of (suc (suc (suc (suc (suc (suc zero)))))) = risk
stage_of (suc (suc (suc (suc (suc (suc (suc zero))))))) = validation
stage_of _ = vulnerability

stage_of-stage_rank : (a : StageType) → stage_of (stage_rank a) ≡ a
unfolding stage_of stage_rank
stage_of-stage_rank hazard = refl
stage_of-stage_rank _ = refl

pub same_stage_iff : (a b : StageType) → (same_stage a b ≡ true) ↔ (a ≡ b)
unfolding same_stage
same_stage_iff a b = (
  λ h. sym (stage_of-stage_rank a) ∙ ap stage_of ((==_iff _ _).0 h) ∙ stage_of-stage_rank b,
  λ e. (==_iff _ _).1 (ap stage_rank e),
)

pub same_stage_refl : (a : StageType) → same_stage a a ≡ true
same_stage_refl a = (same_stage_iff a a).1 refl

-- The entry that is found is the entry of the stage that was asked for.
get_entry-stage_type :
    (es : List StageProgressEntry) (st : StageType) → (get_entry es st).stage_type ≡ st
unfolding get_entry
get_entry-stage_type [] st = refl
get_entry-stage_type (e ∷ es) st =
    ground (arith, same_stage_iff e.stage_type st, get_entry-stage_type es st)

pub get-stage_type : (p : WorkflowProgress) (st : StageType) → (get p st).stage_type ≡ st
unfolding get
get-stage_type p st = get_entry-stage_type p.entries st

-- Equal stages test alike.
pub same_stage_left : (a b c : StageType) → same_stage a b ≡ true → same_stage a c ≡ same_stage b c
same_stage_left a b c h = ap (λ x. same_stage x c) ((same_stage_iff a b).0 h)

-- One stage is not equal to two different ones.
pub same_stage_excl :
    (a b c : StageType) → same_stage a b ≡ false → same_stage a c ≡ true → same_stage b c ≡ false
same_stage_excl a b c h k = elim (Bool-cases (same_stage b c)) [
  | inl e ↦ ground (
    arith,
    (same_stage_iff a c).0 k,
    (same_stage_iff b c).0 e,
    (same_stage_iff a b).1 ((same_stage_iff a c).0 k ∙ sym ((same_stage_iff b c).0 e)),
  )
  | inr e ↦ e
]

get_entry-update :
    (es : List StageProgressEntry) (entry : StageProgressEntry) (st : StageType)
    → get_entry (filter (λ e. not (same_stage e.stage_type entry.stage_type)) es ++ entry ∷ []) st
      ≡ (if same_stage entry.stage_type st then entry else get_entry es st)
unfolding get_entry
get_entry-update [] entry st = refl
get_entry-update (e ∷ es) entry st = elim (Bool-cases (same_stage e.stage_type entry.stage_type)) [
  | inl h ↦
      rw (h, get_entry-update es entry st)
        (if_same _ _ _ _ _ (same_stage_left e.stage_type entry.stage_type st h))
  | inr h ↦
      rw (h, get_entry-update es entry st)
        (if_swap _ _ _ _ _ (same_stage_excl e.stage_type entry.stage_type st h))
]

-- A written entry is read back at its stage, and at the other stages the entry is as before.
pub get-with_entry :
    (p : WorkflowProgress) (entry : StageProgressEntry) (st : StageType)
    → get (with_entry p entry) st ≡ (if same_stage entry.stage_type st then entry else get p st)
get-with_entry p entry st = unfold get with_entry in get_entry-update p.entries entry st
