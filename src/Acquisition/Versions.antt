-- ===== src/Acquisition/Versions.antt =====
-- The current versions of data sets over the handlers of
-- contexts/data_acquisition/application/handlers.py.
use mathlib.Core.Path.{subst}
use text.Mathlib.Text.{◌==◌ as str_eq}
use novaapi.Common.{
  ℕ, ◌≡◌, ◌≢◌, refl, ap, ◌∙◌, String, true, not, ◌||◌, Option, none, some, List, [], ◌∷◌, all, ◌==◌,
  arith, Option-cases, Bool-cases, inl, inr, eq_iff, ltb,
}
use novaapi.Common.Text.{is_blank}
use novaapi.Common.Table.{find, put, find-put_ne, find-put_self}
use novaapi.Errors.{Result-cases, ok}
use novaapi.Session.{in_session}
use novaapi.Acquisition.Types.{Readiness, DatasetMetadata, running, described}
use novaapi.Acquisition.Catalog.{Dataset, catalog, revise, mark_superseded}
use novaapi.Acquisition.Job.{AcquisitionJob}
use novaapi.Acquisition.Database.{Db, dataset_key, job_key, is_current, get_latest, source_key}
use novaapi.Acquisition.Database.Current.{
  sole_current, no_current, get_latest-none, get_latest-all, sole_current-put_new,
  sole_current-supersede,
}
use novaapi.Acquisition.Import.{Env, Progress, goes, fails, raises, Imported, import_content}
use novaapi.Acquisition.Import.Names.{import_content-name}
use novaapi.Acquisition.Handlers.{Clock, revise_dataset, catalog_dataset, visible}
use novaapi.Acquisition.Execute.{later, run, execute_acquisition_job, cataloguing}
use novaapi.Acquisition.Execute.Outcome.{
  started, db_started, opened, outcome, execute-run, complete_job-lem, with_previous,
}
use novaapi.Acquisition.Execute.Stays.{runs-cases, execute-refused}

module _ {V : Type 0} where
  find-all_ne :
      (k : ℕ) (ds : List (Dataset V))
      → find dataset_key k ds ≡ none
      → all (λ (d : Dataset V). not (d.id == k)) ds ≡ true
  unfolding find
  find-all_ne k [] f = refl
  find-all_ne k (d ∷ ds) f = ground (arith, find-all_ne k ds)

  -- The first version of a name, in a table that has not its key.
  first-sole_current :
      (t : ℕ) (name : String) (d : Dataset V) (ds : List (Dataset V))
      → get_latest t name ds ≡ none
      → find dataset_key d.id ds ≡ none
      → d.tenant_id ≡ t
      → d.metadata.name ≡ name
      → sole_current ds ≡ true
      → sole_current (put dataset_key d ds) ≡ true
  first-sole_current t name d ds g f et en s =
      sole_current-put_new d ds f
        (ap (λ u. no_current u d.metadata.name ds) et
          ∙ ap (λ n. no_current t n ds) en
          ∙ get_latest-none t name ds g)
        s

  -- The next version of a name, with the one before superseded.
  next-sole_current :
      (t : ℕ) (name : String) (p d : Dataset V) (ds : List (Dataset V))
      → get_latest t name ds ≡ some p
      → find dataset_key d.id ds ≡ none
      → d.tenant_id ≡ t
      → d.metadata.name ≡ name
      → sole_current ds ≡ true
      → sole_current (put dataset_key d (put dataset_key (mark_superseded p) ds)) ≡ true
  unfolding mark_superseded
  next-sole_current t name p d ds g f et en s =
      let old = mark_superseded p in
      let (alone, gone) = sole_current-supersede t name p old ds g refl refl s in
      let ne : d.id ≢ p.id = λ c. absurd (
        ground (
          arith,
          c,
          (get_latest-all (λ (e : Dataset V). not (e.id == d.id)) t name ds p
              (find-all_ne d.id ds f) g).0,
        )) in
      sole_current-put_new d (put dataset_key old ds) (find-put_ne dataset_key old d.id ds ne ∙ f)
        (ap (λ u. no_current u d.metadata.name (put dataset_key old ds)) et
          ∙ ap (λ n. no_current t n (put dataset_key old ds)) en
          ∙ gone)
        alone

  every_row : (ds : List (Dataset V)) → all (λ (d : Dataset V). true) ds ≡ true
  every_row [] = refl
  every_row (d ∷ ds) = every_row ds

  get_latest-tenant :
      (t : ℕ) (name : String) (ds : List (Dataset V)) (p : Dataset V)
      → get_latest t name ds ≡ some p
      → p.tenant_id ≡ t
  get_latest-tenant t name ds p g =
      ground (arith, (get_latest-all (λ (d : Dataset V). true) t name ds p (every_row ds) g).1)

  cataloguing-sole_current :
      (new_id t : ℕ) (name : String) (clock : Clock) (j : AcquisitionJob V) (m : DatasetMetadata V)
      (found : Option (Dataset V)) (ds : List (Dataset V))
      → get_latest t name ds ≡ found
      → j.request.tenant_id ≡ t
      → m.name ≡ name
      → find dataset_key new_id ds ≡ none
      → sole_current ds ≡ true
      → sole_current (
          put dataset_key
            (cataloguing new_id clock j m found).0
            (with_previous new_id clock j m found ds))
        ≡ true
  unfolding cataloguing
  cataloguing-sole_current new_id t name clock j m none ds g et en f s =
      first-sole_current t name (cataloguing new_id clock j m none).0 ds g f et en s
  cataloguing-sole_current new_id t name clock j m (some p) ds g et en f s =
      next-sole_current t name p (cataloguing new_id clock j m (some p)).0 ds g f
        (get_latest-tenant t name ds p g) en s

  run-sole_current :
      (p : Progress (Imported V)) (new_id t : ℕ) (j : AcquisitionJob V) (clock : Clock) (db : Db V)
      → j.status ≡ running
      → j.request.tenant_id ≡ t
      → ((i : Imported V) → p ≡ goes i → i.metadata.name ≡ j.request.source_reference)
      → find dataset_key new_id db.datasets ≡ none
      → sole_current db.datasets ≡ true
      → sole_current (outcome (run new_id t j p clock (opened db))).1.datasets ≡ true
  unfolding run
  run-sole_current (goes i) new_id t j clock db r et named f s =
      ap (λ o. sole_current o.1.committed.datasets)
        (complete_job-lem new_id t j i clock db _ refl r)
      ∙ cataloguing-sole_current new_id t j.request.source_reference clock j i.metadata _
          db.datasets refl et (named i refl) f s
  run-sole_current (fails text) new_id t j clock db r et named f s = ground (arith, r, s)
  run-sole_current (raises e) new_id t j clock db r et named f s = s

  -- A run keeps one current version at most under each name of a tenant, and one row under each key,
  -- where the new key is not in the table: the import of a name that is there supersedes the version
  -- before.
  pub execute_acquisition_job-sole_current :
      (env : Env V) (new_id t k : ℕ) (clock : Clock) (db : Db V)
      → find dataset_key new_id db.datasets ≡ none
      → sole_current db.datasets ≡ true
      → sole_current (in_session (execute_acquisition_job env new_id t k clock) db).1.datasets
        ≡ true
  execute_acquisition_job-sole_current env new_id t k clock db f s =
      elim (Option-cases (find job_key k db.jobs)) [
        | inl missing ↦
            ap (λ d. sole_current d.datasets)
              (execute-refused env new_id t k clock db
                (λ y g own. absurd (ground (arith, missing, g))))
            ∙ s
        | inr (x, e) ↦ elim (runs-cases t x) [
          | inl (own, waits) ↦
              let p = import_content env (started x clock) (clock 3) in
              let db1 = db_started x t clock db in
              ap (λ o. sole_current o.1.committed.datasets)
                (execute-run env new_id t clock db k x e own waits)
              ∙ run-sole_current p new_id t (started x clock) (later 4 clock) db1 refl own
                  (import_content-name env (started x clock) (clock 3)) f s
          | inr refused ↦
              ap (λ d. sole_current d.datasets)
                (execute-refused env new_id t k clock db (λ y g own w.
                  let same : x ≡ y = cc (e, g) in
                  refused (ap (λ z. z.request.tenant_id) same ∙ own) (ap (λ z. z.status) same ∙ w)))
              ∙ s
        ]
      ]

  -- A revision keeps one current version at most under each name of a tenant, and one row under each
  -- key, where the new key is not in the table.
  pub revise_dataset-sole_current :
      (new_id t : ℕ) (m : DatasetMetadata V) (readiness : Readiness) (description by : String)
      (clock : Clock) (db : Db V)
      → find dataset_key new_id db.datasets ≡ none
      → sole_current db.datasets ≡ true
      → sole_current
          (in_session (revise_dataset new_id t m readiness description by clock) db).1.datasets
        ≡ true
  unfolding revise_dataset
  revise_dataset-sole_current new_id t m readiness description by clock db f s =
      elim (Option-cases (get_latest t m.name db.datasets)) [
        | inl missing ↦ ground (arith, missing)
        | inr (p, g) ↦
            let d = (revise new_id clock p m readiness (described description) by).0 in
            let kept =
              next-sole_current t m.name p d db.datasets g f
                (get_latest-tenant t m.name db.datasets p g) refl s in
            ground (arith, g, kept)
      ]

  -- The cataloguing of a data set does not look at the versions that are there: where a version is
  -- current under its name, it is so still, and the first version that is returned is stored beside it
  -- and as current.
  pub catalog_dataset-duplicate :
      (new_id t k : ℕ) (m : DatasetMetadata V) (readiness : Readiness) (by : String) (clock : Clock)
      (db : Db V) (d e : Dataset V)
      → find dataset_key d.id db.datasets ≡ some d
      → is_current t m.name d ≡ true
      → d.id ≢ new_id
      → (in_session (catalog_dataset new_id t k m readiness by clock) db).0 ≡ ok e
      → let ds = (in_session (catalog_dataset new_id t k m readiness by clock) db).1.datasets in
        (find dataset_key d.id ds ≡ some d)
        × (find dataset_key new_id ds ≡ some e)
        × (is_current t m.name e ≡ true)
        × (e.version ≡ 1)
  unfolding catalog_dataset
  catalog_dataset-duplicate new_id t k m readiness by clock db d e f c ne h =
      elim (Result-cases (visible t (find source_key k db.sources))) [
        | inl (source, v) ↦
            elim (Bool-cases
              (ltb m.coverage_end m.coverage_start || is_blank m.name || is_blank m.crs)) [
                | inl bad ↦ absurd (ground (arith, h, v, bad))
                | inr good ↦
                    let d' = (catalog new_id clock t k m readiness by).0 in
                    let made : d' ≡ e = ground (arith, h, v, good) in
                    let same : str_eq m.name m.name ≡ true = (eq_iff m.name m.name).1 refl in
                    (
                      ground (arith, v, good, find-put_ne dataset_key d' d.id db.datasets ne, f),
                      ground (arith, v, good, find-put_self dataset_key d' db.datasets, made),
                      subst (λ (x : Dataset V). is_current t m.name x ≡ true) made
                          (ground (arith, same)),
                      subst (λ (x : Dataset V). x.version ≡ 1) made refl,
                    )
              ]
        | inr (x, v) ↦ absurd (ground (arith, h, v))
      ]
