-- ===== src/Acquisition/Import/Names.antt =====
-- What an import that goes on says of the metadata.
use novaapi.Common.{ℕ, ◌≡◌, refl, ap, ◌∙◌, sym, false, Option, arith}
use novaapi.Common.Text.{is_blank}
use novaapi.Errors.{Result, ok, err}
use novaapi.Acquisition.Types.{DatasetMetadata, ShapefileImportResult, checked_metadata}
use novaapi.Acquisition.Job.{AcquisitionJob}
use novaapi.Acquisition.Import.{
  Env, Progress, goes, fails, raises, Imported, import_content, ◌>>=◌, checked, aoi_geometry,
  raw_content, accept, fetch, parse_shapefile, metadata_for_completed_job,
}

-- Inversion of a part that goes on.
>>=-eq-goes :
    {A B : Type 0} (m : Progress A) (f : A → Progress B) {b : B}
    → (m >>= f) ≡ goes b
    → (a : A) × (m ≡ goes a) × (f a ≡ goes b)
>>=-eq-goes (goes a) f h = (a, refl, h)
>>=-eq-goes (fails text) f h = cc
>>=-eq-goes (raises e) f h = cc

checked-eq-goes : {A : Type 0} (r : Result A) (a : A) → checked r ≡ goes a → r ≡ ok a
checked-eq-goes (ok b) a h = ground arith
checked-eq-goes (err e) a h = cc

module _ {V : Type 0} where
  checked_metadata-eq_ok : (m m' : DatasetMetadata V) → checked_metadata m ≡ ok m' → m' ≡ m
  unfolding checked_metadata
  checked_metadata-eq_ok m m' h = ground arith

  checked_metadata-not_blank :
      (m m' : DatasetMetadata V) → checked_metadata m ≡ ok m' → is_blank m.name ≡ false
  unfolding checked_metadata
  checked_metadata-not_blank m m' h = ground arith

  metadata-name :
      (env : Env V) (j : AcquisitionJob V) (now : ℕ) (s : Option (ShapefileImportResult V))
      (m : DatasetMetadata V)
      → metadata_for_completed_job env j now s ≡ ok m
      → (m.name ≡ j.request.source_reference) × (is_blank j.request.source_reference ≡ false)
  unfolding metadata_for_completed_job
  metadata-name env j now s m h = (
    ap (λ (x : DatasetMetadata V). x.name) (checked_metadata-eq_ok _ m h),
    checked_metadata-not_blank _ m h,
  )

  import_content-metadata :
      (env : Env V) (j : AcquisitionJob V) (now : ℕ) (i : Imported V)
      → import_content env j now ≡ goes i
      → (i.metadata.name ≡ j.request.source_reference)
        × (is_blank j.request.source_reference ≡ false)
  unfolding import_content
  import_content-metadata env j now i h =
      let (g, e1, h1) = >>=-eq-goes (aoi_geometry env j.request) _ h in
      let (b, e2, h2) = >>=-eq-goes (raw_content env j.request.raw_content_base64) _ h1 in
      let (u, e3, h3) = >>=-eq-goes (accept env j.request (fetch env j.request b g)) _ h2 in
      let (s, e4, h4) =
        >>=-eq-goes (parse_shapefile env j.request.format (fetch env j.request b g)) _ h3 in
      let (m, e5, h5) = >>=-eq-goes (checked (metadata_for_completed_job env j now s)) _ h4 in
      let made : m ≡ i.metadata = cc h5 in
      let (name, not_blank) = metadata-name env j now s m (checked-eq-goes _ m e5) in
      (ap (λ (x : DatasetMetadata V). x.name) (sym made) ∙ name, not_blank)

  -- The import gives the data set the name that the job refers to.
  pub import_content-name :
      (env : Env V) (j : AcquisitionJob V) (now : ℕ) (i : Imported V)
      → import_content env j now ≡ goes i
      → i.metadata.name ≡ j.request.source_reference
  import_content-name env j now i h = (import_content-metadata env j now i h).0

  -- An import goes on only where that name is no blank.
  pub import_content-not_blank :
      (env : Env V) (j : AcquisitionJob V) (now : ℕ) (i : Imported V)
      → import_content env j now ≡ goes i
      → is_blank j.request.source_reference ≡ false
  import_content-not_blank env j now i h = (import_content-metadata env j now i h).1
