-- ===== src/Acquisition/Database/Current.antt =====
-- The versions of a data set in the table of contexts/data_acquisition/infrastructure/repositories.py.
use novaapi.Common.{
  ℕ, ◌≡◌, refl, String, Bool, true, false, not, ◌&&◌, none, some, List, [], ◌∷◌, all, ◌==◌, arith,
  Option-cases, Bool-cases, inl, inr, eq_iff,
}
use novaapi.Common.Table.{find, put}
use novaapi.Acquisition.Catalog.{Dataset}
use novaapi.Acquisition.Database.{dataset_key, is_catalogued, is_current, get_latest}

module _ {V : Type 0} where
  -- Two rows with different keys, not both current under one name of one tenant.
  abbrev pub apart : Dataset V → Dataset V → Bool
  apart d e =
      not (d.id == e.id) && not (is_catalogued d.status && is_current d.tenant_id d.metadata.name e)

  -- Every name of a tenant has one current version at most, and every key one row.
  unfoldable pub sole_current : List (Dataset V) → Bool
  sole_current [] = true
  sole_current (d ∷ ds) = all (apart d) ds && sole_current ds

  -- No row is current under the name.
  abbrev pub no_current : ℕ → String → List (Dataset V) → Bool
  no_current t name ds = all (λ (d : Dataset V). not (is_current t name d)) ds

  pub get_latest-none :
      (t : ℕ) (name : String) (ds : List (Dataset V))
      → get_latest t name ds ≡ none
      → no_current t name ds ≡ true
  unfolding get_latest
  get_latest-none t name [] h = refl
  get_latest-none t name (d ∷ ds) h = elim (Option-cases (get_latest t name ds)) [
    | inl e ↦ ground (arith, e, get_latest-none t name ds)
    | inr (x, e) ↦ ground (arith, e)
  ]

  no_current-get_latest :
      (t : ℕ) (name : String) (ds : List (Dataset V))
      → no_current t name ds ≡ true
      → get_latest t name ds ≡ none
  unfolding get_latest
  no_current-get_latest t name [] h = refl
  no_current-get_latest t name (d ∷ ds) h = ground (arith, no_current-get_latest t name ds)

  -- What holds of all rows holds of the one that is found, and that is current.
  pub get_latest-all :
      (q : Dataset V → Bool) (t : ℕ) (name : String) (ds : List (Dataset V)) (p : Dataset V)
      → all q ds ≡ true
      → get_latest t name ds ≡ some p
      → (q p ≡ true) × (is_current t name p ≡ true)
  unfolding get_latest
  get_latest-all q t name [] p h f = ground arith
  get_latest-all q t name (d ∷ ds) p h f = elim (Option-cases (get_latest t name ds)) [
    | inl e ↦ ground (arith, e)
    | inr (x, e) ↦ ground (arith, e, get_latest-all q t name ds x)
  ]

  all-put :
      (q : Dataset V → Bool) (d : Dataset V) (ds : List (Dataset V))
      → q d ≡ true
      → all q ds ≡ true
      → all q (put dataset_key d ds) ≡ true
  unfolding put
  all-put q d [] e h = ground arith
  all-put q d (x ∷ ds) e h = ground (arith, all-put q d ds)

  -- A version that is new in the table, where none is current under its name.
  pub sole_current-put_new :
      (d : Dataset V) (ds : List (Dataset V))
      → find dataset_key d.id ds ≡ none
      → no_current d.tenant_id d.metadata.name ds ≡ true
      → sole_current ds ≡ true
      → sole_current (put dataset_key d ds) ≡ true
  unfolding sole_current put find
  sole_current-put_new d [] f n h = refl
  sole_current-put_new d (x ∷ ds) f n h = ground (
    arith,
    sole_current-put_new d ds,
    all-put (apart x) d ds,
    eq_iff d.metadata.name x.metadata.name,
    eq_iff x.metadata.name d.metadata.name,
  )

  apart-no_current :
      (t : ℕ) (name : String) (x : Dataset V) (ds : List (Dataset V))
      → is_current t name x ≡ true
      → all (apart x) ds ≡ true
      → no_current t name ds ≡ true
  apart-no_current t name x [] c h = refl
  apart-no_current t name x (y ∷ ds) c h = ground (
    arith,
    apart-no_current t name x ds,
    eq_iff x.metadata.name name,
    eq_iff y.metadata.name name,
    eq_iff y.metadata.name x.metadata.name,
  )

  apart-same :
      (x p : Dataset V) (ds : List (Dataset V))
      → x.id ≡ p.id
      → is_catalogued p.status ≡ false
      → all (apart x) ds ≡ true
      → all (apart p) ds ≡ true
  apart-same x p [] ei es h = refl
  apart-same x p (y ∷ ds) ei es h = ground (arith, apart-same x p ds)

  -- A version that is superseded leaves none current under its name.
  pub sole_current-supersede :
      (t : ℕ) (name : String) (p p' : Dataset V) (ds : List (Dataset V))
      → get_latest t name ds ≡ some p
      → p'.id ≡ p.id
      → is_catalogued p'.status ≡ false
      → sole_current ds ≡ true
      → (sole_current (put dataset_key p' ds) ≡ true)
        × (no_current t name (put dataset_key p' ds) ≡ true)
  unfolding sole_current put get_latest
  sole_current-supersede t name p p' [] f ei es h = ground arith
  sole_current-supersede t name p p' (x ∷ ds) f ei es h = elim (Bool-cases (is_current t name x)) [
    | inl here ↦
        let alone : no_current t name ds ≡ true =
          apart-no_current t name x ds here (ground (arith, h)) in
        let last = no_current-get_latest t name ds alone in
        let same : x.id ≡ p'.id = ground (arith, f, here, last, ei) in
        ground (arith, h, here, same, es, alone, apart-same x p' ds)
    | inr gone ↦
        let later : get_latest t name ds ≡ some p = ground (arith, f, gone) in
        let ne = (get_latest-all (apart x) t name ds p (ground (arith, h)) later).0 in
        ground (
          arith,
          h,
          gone,
          ne,
          ei,
          es,
          sole_current-supersede t name p p' ds later ei es,
          all-put (apart x) p' ds,
        )
  ]
