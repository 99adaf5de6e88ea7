-- ===== src/Acquisition/Features/Exact.antt =====
-- What `extract_features` of contexts/data_acquisition/domain/feature_extraction.py answers, index by
-- index.
use mathlib.Core.Path.{subst}
use novaapi.Common.{
  ℕ, zero, suc, ==_iff, ◌≡◌, ◌≢◌, ◌&&◌, not, all, refl, ap, ◌∙◌, sym, String, Bool, true, false,
  ◌||◌, Option, none, some, List, [], ◌∷◌, any, if◌then◌else◌, arith, Bool-cases, inl, inr,
}
use novaapi.Acquisition.Types.{
  RemoteSensingSource, SpectralIndex, ndvi, evi, savi, ndwi, lst, nbr, dnbr, spei,
}
use novaapi.Acquisition.Features.{
  Floats, Band, Feature, computed, skipped, Features, feature, assign, extract_from,
  extract_features, same_index, index_rank, record_feature, required_bands, index_of, dnbr_of,
  value, or_skipped, lacks_dnbr,
}

index_of_rank : ℕ → SpectralIndex
index_of_rank zero = ndvi
index_of_rank (suc zero) = evi
index_of_rank (suc (suc zero)) = savi
index_of_rank (suc (suc (suc zero))) = ndwi
index_of_rank (suc (suc (suc (suc zero)))) = lst
index_of_rank (suc (suc (suc (suc (suc zero))))) = nbr
index_of_rank (suc (suc (suc (suc (suc (suc zero)))))) = dnbr
index_of_rank (suc (suc (suc (suc (suc (suc (suc n))))))) = spei

index_of_rank-index_rank : (i : SpectralIndex) → index_of_rank (index_rank i) ≡ i
unfolding index_of_rank
index_of_rank-index_rank ndvi = refl
index_of_rank-index_rank evi = refl
index_of_rank-index_rank savi = refl
index_of_rank-index_rank ndwi = refl
index_of_rank-index_rank lst = refl
index_of_rank-index_rank nbr = refl
index_of_rank-index_rank dnbr = refl
index_of_rank-index_rank spei = refl

same_index→≡ : (i j : SpectralIndex) → same_index i j ≡ true → i ≡ j
unfolding same_index
same_index→≡ i j h =
    sym (index_of_rank-index_rank i)
    ∙ ap index_of_rank ((==_iff (index_rank i) (index_rank j)).0 h)
    ∙ index_of_rank-index_rank j

same_index_self : (i : SpectralIndex) → same_index i i ≡ true
unfolding same_index
same_index_self i = (==_iff (index_rank i) (index_rank i)).1 refl

same_index_join :
    (k i j : SpectralIndex) → same_index k j ≡ true → same_index i j ≡ true → same_index k i ≡ true
same_index_join k i j p q =
    ap (λ x. same_index k x) (same_index→≡ i j q ∙ sym (same_index→≡ k j p)) ∙ same_index_self k

or_assoc : (a b c : Bool) → ((a || b) || c) ≡ (a || (b || c))
or_assoc true b c = refl
or_assoc false b c = refl

module _ {A : Type 0} where
  -- `features.get(index.value)`
  unfoldable pub feature_at : SpectralIndex → List (SpectralIndex × A) → Option A
  feature_at i [] = none
  feature_at i ((j, a) ∷ m) = let rest = feature_at i m in if same_index j i then some a else rest

  feature_at-assign :
      (i j : SpectralIndex) (a : A) (m : List (SpectralIndex × A))
      → feature_at j (assign i a m) ≡ (if same_index i j then some a else feature_at j m)
  unfolding feature_at assign
  feature_at-assign i j a [] = refl
  feature_at-assign i j a ((k, b) ∷ m) = elim (Bool-cases (same_index k i)) [
    | inl e ↦ ground (arith, e, ap (λ x. same_index x j) (same_index→≡ k i e))
    | inr ne ↦ ground (arith, ne, same_index_join k i j, feature_at-assign i j a m)
  ]

abbrev pub requested_in : SpectralIndex → List SpectralIndex → Bool
requested_in i is = any (λ (j : SpectralIndex). same_index j i) is

module _ {V : Type 0} where
  abbrev pub value_in : Feature V → Option V
  value_in (computed v) = some v
  value_in (skipped reason) = none

  abbrev pub reason_in : Feature V → Option String
  reason_in (computed v) = none
  reason_in (skipped reason) = some reason

  -- What is known of an index, after and before: its feature where it was requested.
  abbrev pub Known :
      (SpectralIndex → Feature V) → List SpectralIndex → SpectralIndex → Features V → Type 0
  Known f is i o =
      (feature_at i o.0 ≡ (if requested_in i is then value_in (f i) else none))
      × (feature_at i o.1 ≡ (if requested_in i is then reason_in (f i) else none))

  -- The same of an index that is known or not.
  abbrev KnownAs : (SpectralIndex → Feature V) → Bool → SpectralIndex → Features V → Type 0
  KnownAs f b i o =
      (feature_at i o.0 ≡ (if b then value_in (f i) else none))
      × (feature_at i o.1 ≡ (if b then reason_in (f i) else none))

  record_feature-KnownAs :
      (f : SpectralIndex → Feature V) (i j : SpectralIndex) (b : Bool) (o : Features V)
      (fj : Feature V)
      → f j ≡ fj
      → KnownAs f b i o
      → KnownAs f (b || same_index j i) i (record_feature j fj o)
  record_feature-KnownAs f i j b (c, s) (computed v) e (h, k) = elim (Bool-cases (same_index j i)) [
    | inl same ↦
        let fi : f i ≡ computed v = ap f (sym (same_index→≡ j i same)) ∙ e in
        ground (arith, same, fi, feature_at-assign j i v c)
    | inr ne ↦ ground (arith, ne, feature_at-assign j i v c)
  ]
  record_feature-KnownAs f i j b (c, s) (skipped r) e (h, k) = elim (Bool-cases (same_index j i)) [
    | inl same ↦
        let fi : f i ≡ skipped r = ap f (sym (same_index→≡ j i same)) ∙ e in
        ground (arith, same, fi, feature_at-assign j i r s)
    | inr ne ↦ ground (arith, ne, feature_at-assign j i r s)
  ]

  extract_from-KnownAs :
      (f : SpectralIndex → Feature V) (is : List SpectralIndex) (i : SpectralIndex) (b : Bool)
      (o : Features V)
      → KnownAs f b i o
      → KnownAs f (b || requested_in i is) i (extract_from f is o)
  unfolding extract_from
  extract_from-KnownAs f [] i b o h = ground arith
  extract_from-KnownAs f (j ∷ is) i b o h =
      subst (λ c. KnownAs f c i (extract_from f (j ∷ is) o))
        (or_assoc b (same_index j i) (requested_in i is))
        (extract_from-KnownAs f is i (b || same_index j i) (record_feature j (f j) o)
          (record_feature-KnownAs f i j b o (f j) refl h))

  extract_features-Known :
      (fl : Floats V) (source : RemoteSensingSource) (statistics : List (String × V))
      (is : List SpectralIndex) (comparison : Option (List (String × V))) (i : SpectralIndex)
      → Known
          (feature fl source statistics comparison)
          is
          i
          (extract_features fl source statistics is comparison)
  unfolding extract_features feature_at
  extract_features-Known fl source statistics is comparison i =
      extract_from-KnownAs (feature fl source statistics comparison) is i false ([], [])
        (refl, refl)

abbrev pub is_some : {A : Type 0} → Option A → Bool
is_some none = false
is_some (some a) = true

module _ {V : Type 0} (fl : Floats V) where
  -- All bands of the index have a value.
  abbrev pub offered : (Band → Option V) → SpectralIndex → Bool
  offered val i = all (λ (b : Band). is_some (val b)) (required_bands i)

  index_of-offered :
      (val : Band → Option V) (i : SpectralIndex)
      → i ≢ dnbr
      → is_some (index_of fl val i) ≡ offered val i
  unfolding index_of required_bands
  index_of-offered val ndvi h = ground arith
  index_of-offered val evi h = ground arith
  index_of-offered val savi h = ground arith
  index_of-offered val ndwi h = ground arith
  index_of-offered val nbr h = ground arith
  index_of-offered val lst h = ground arith
  index_of-offered val spei h = ground arith
  index_of-offered val dnbr h = absurd (h refl)

  dnbr_of-offered :
      (pre post : Band → Option V)
      → is_some (dnbr_of fl pre post) ≡ (offered pre dnbr && offered post dnbr)
  unfolding dnbr_of required_bands
  dnbr_of-offered pre post = ground arith

module _ {V : Type 0} (fl : Floats V) (source : RemoteSensingSource)
    (statistics : List (String × V)) (comparison : Option (List (String × V))) where
  -- The source names the bands that the index needs, and the statistics have them; for dNBR, those of
  -- both periods.
  abbrev pub available : SpectralIndex → Bool
  available dnbr = elim comparison [
    | none ↦ false
    | some later ↦
        offered fl (value fl source statistics) dnbr && offered fl (value fl source later) dnbr
  ]
  available i = offered fl (value fl source statistics) i

module _ {V : Type 0} (fl : Floats V) (source : RemoteSensingSource)
    (statistics : List (String × V)) where
  or_skipped-is_some :
      (reason : String) (o : Option V) → is_some (value_in (or_skipped reason o)) ≡ is_some o
  or_skipped-is_some reason none = refl
  or_skipped-is_some reason (some v) = refl

  value_in-available :
      (comparison : Option (List (String × V))) (i : SpectralIndex)
      → is_some (value_in (feature fl source statistics comparison i))
        ≡ available fl source statistics comparison i
  unfolding feature
  value_in-available none dnbr = refl
  value_in-available (some later) dnbr =
      or_skipped-is_some (lacks_dnbr source) _
      ∙ dnbr_of-offered fl (value fl source statistics) (value fl source later)
  value_in-available comparison ndvi =
      or_skipped-is_some _ _ ∙ index_of-offered fl (value fl source statistics) ndvi (ground arith)
  value_in-available comparison evi =
      or_skipped-is_some _ _ ∙ index_of-offered fl (value fl source statistics) evi (ground arith)
  value_in-available comparison savi =
      or_skipped-is_some _ _ ∙ index_of-offered fl (value fl source statistics) savi (ground arith)
  value_in-available comparison ndwi =
      or_skipped-is_some _ _ ∙ index_of-offered fl (value fl source statistics) ndwi (ground arith)
  value_in-available comparison lst =
      or_skipped-is_some _ _ ∙ index_of-offered fl (value fl source statistics) lst (ground arith)
  value_in-available comparison nbr =
      or_skipped-is_some _ _ ∙ index_of-offered fl (value fl source statistics) nbr (ground arith)
  value_in-available comparison spei =
      or_skipped-is_some _ _ ∙ index_of-offered fl (value fl source statistics) spei (ground arith)

  reason_in-value_in : (f : Feature V) → is_some (reason_in f) ≡ not (is_some (value_in f))
  reason_in-value_in (computed v) = refl
  reason_in-value_in (skipped reason) = refl

  -- The extraction accounts for every index: among the computed features are exactly the requested
  -- indices whose bands the source and the statistics have, dNBR in both periods, and among the skipped
  -- ones exactly the other requested indices.
  pub extract_features-available :
      (comparison : Option (List (String × V))) (is : List SpectralIndex) (i : SpectralIndex)
      → let o = extract_features fl source statistics is comparison in
        (is_some (feature_at i o.0)
          ≡ (requested_in i is && available fl source statistics comparison i))
        × (is_some (feature_at i o.1)
            ≡ (requested_in i is && not (available fl source statistics comparison i)))
  extract_features-available comparison is i =
      let k = extract_features-Known fl source statistics is comparison i in
      let f = feature fl source statistics comparison i in
      elim (Bool-cases (requested_in i is)) [
        | inl asked ↦
            ground (arith, k, asked, value_in-available comparison i, reason_in-value_in f)
        | inr not_asked ↦ ground (arith, k, not_asked)
      ]
