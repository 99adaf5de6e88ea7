-- ===== src/Acquisition/Import.antt =====
-- The body of `ExecuteAcquisitionJobHandler.handle` between the start of a job and its end: fetch,
-- validate, parse, extract and describe. Nothing of it touches a table.
pub mod Names
use Prim.Native.String.{◌++◌ as str_append}
use novaapi.Common.{ℕ, String, Bool, true, false, Option, none, some, List, [], ◌∷◌, if◌then◌else◌}
use novaapi.Common.Text.{is_empty, join}
use novaapi.Errors.{Error, Result, ok, err, external}
use novaapi.Acquisition.Json.{Json}
use novaapi.Acquisition.Types.{
  DataProvider, google_earth_engine, usgs, nasa, copernicus, local_upload, sentinel, smap, viirs,
  grace, gpm, era5_land, merra2, ncep, cru, worldclim, user_upload, sensor, manual,
  AcquisitionFormat, geojson, csv, geotiff, shapefile, json, RemoteSensingSource, PreprocessingStep,
  SpectralIndex, DatasetType, raster, vector, tabular, raw, DatasetMetadata, checked_metadata,
  ShapefileImportResult,
}
use novaapi.Acquisition.Job.{Request, AcquisitionJob}
use novaapi.Acquisition.Features.{Floats, Features, extract_features, assign}
use novaapi.Acquisition.Validation.{
  Bytes, Decoded, decoded, malformed, crashed, Stdlib, validate_dataset_content,
}

pub record RemoteSensingFetchSpec : Type 0 where
  pub remote_sensing_source : Option RemoteSensingSource
  pub declared_crs : String
  pub temporal_start : Option ℕ
  pub temporal_end : Option ℕ
  pub comparison_temporal_start : Option ℕ
  pub comparison_temporal_end : Option ℕ
  pub aoi_geometry : Option Json
  pub requested_preprocessing : List PreprocessingStep

pub record FetchResult (V : Type 0) : Type 0 where
  pub success : Bool
  pub content : Option Bytes
  pub error : Option String
  pub applied_preprocessing : List PreprocessingStep
  pub band_statistics : Option (List (String × V))
  pub comparison_band_statistics : Option (List (String × V))
  pub raster_skipped_reason : Option String

-- A call that may raise, with the text of the exception.
pub data Answer (A : Type 0) : Type 0 where
  answered : A → Answer A
  raised : String → Answer A

abbrev pub Adapter : Type 0 → Type 0
Adapter V = String → Option Bytes → RemoteSensingFetchSpec → Answer (FetchResult V)

-- The library, the ports and the registry of the handler; `parse_shapefile_archive` is `malformed`
-- where it raises one of the four errors that the handler expects.
pub record Env (V : Type 0) : Type 0 where
  pub stdlib : Stdlib
  pub floats : Floats V
  pub b64decode : String → Answer Bytes
  pub get_aoi_geometry : ℕ → String → Answer (Option Json)
  pub providers : DataProvider → Option (Adapter V)
  pub parse_shapefile_archive : Bytes → Decoded (ShapefileImportResult V)
  pub str_id : ℕ → String
  pub str_bounding_box : V × V × V × V → String
  pub date : ℕ → ℕ

-- What a part of the body does: it goes on, it ends the job by `_fail`, or it raises.
pub data Progress (A : Type 0) : Type 0 where
  goes : A → Progress A
  fails : String → Progress A
  raises : Error → Progress A

infixl 5 ◌>>=◌ ◌>>◌
abbrev pub ◌>>=◌ : {A B : Type 0} → Progress A → (A → Progress B) → Progress B
goes a >>= f = f a
fails text >>= f = fails text
raises e >>= f = raises e

abbrev pub ◌>>◌ : {A B : Type 0} → Progress A → Progress B → Progress B
m >> k = m >>= λ _. k

abbrev pub called : {A : Type 0} → Answer A → Progress A
called (answered a) = goes a
called (raised text) = raises (external text)

abbrev pub checked : {A : Type 0} → Result A → Progress A
checked (ok a) = goes a
checked (err e) = raises e

-- `error or fallback`
abbrev pub or_text : Option String → String → String
or_text none fallback = fallback
or_text (some s) fallback = if is_empty s then fallback else s

-- `features or None`
abbrev pub or_none : {A : Type 0} → List A → Option (List A)
or_none [] = none
or_none (a ∷ as') = some (a ∷ as')

-- `LocalUploadProvider.fetch`
abbrev pub local_upload_fetch : {V : Type 0} → Adapter V
local_upload_fetch reference none spec = answered (record {
  success = false;
  content = none;
  error = some "No file content provided for local upload";
  applied_preprocessing = [];
  band_statistics = none;
  comparison_band_statistics = none;
  raster_skipped_reason = none;
})
local_upload_fetch reference (some bytes) spec = answered (record {
  success = true;
  content = some bytes;
  error = none;
  applied_preprocessing = [];
  band_statistics = none;
  comparison_band_statistics = none;
  raster_skipped_reason = none;
})

-- `provider.value`
abbrev pub provider_value : DataProvider → String
provider_value google_earth_engine = "GOOGLE_EARTH_ENGINE"
provider_value usgs = "USGS"
provider_value nasa = "NASA"
provider_value copernicus = "COPERNICUS"
provider_value local_upload = "LOCAL_UPLOAD"
provider_value DataProvider.chirps = "CHIRPS"
provider_value DataProvider.era5 = "ERA5"
provider_value DataProvider.modis = "MODIS"
provider_value sentinel = "SENTINEL"
provider_value DataProvider.landsat = "LANDSAT"
provider_value smap = "SMAP"
provider_value viirs = "VIIRS"
provider_value grace = "GRACE"
provider_value gpm = "GPM"
provider_value era5_land = "ERA5_LAND"
provider_value merra2 = "MERRA2"
provider_value ncep = "NCEP"
provider_value cru = "CRU"
provider_value worldclim = "WORLDCLIM"
provider_value user_upload = "USER_UPLOAD"
provider_value sensor = "SENSOR"
provider_value manual = "MANUAL"
provider_value DataProvider.other = "OTHER"

-- `_DATASET_TYPE_BY_ACQUISITION_FORMAT`
abbrev pub dataset_type_of : AcquisitionFormat → DatasetType
dataset_type_of geojson = vector
dataset_type_of shapefile = vector
dataset_type_of geotiff = raster
dataset_type_of csv = tabular
dataset_type_of json = tabular

-- What a run has in hand when it goes on to the tables.
pub record Imported (V : Type 0) : Type 0 where
  pub metadata : DatasetMetadata V
  pub result : FetchResult V
  pub features : Features V
  pub shapefile_result : Option (ShapefileImportResult V)

module _ {V : Type 0} (env : Env V) where
  unfoldable pub aoi_geometry : Request → Progress (Option Json)
  aoi_geometry r = elim r.aoi_id [
    | none ↦ goes none
    | some aoi ↦ called (env.get_aoi_geometry r.tenant_id aoi) >>= λ found. elim found [
      | none ↦ fails (str_append "AreaOfInterest " (str_append aoi " not found"))
      | some g ↦ goes (some g)
    ]
  ]

  unfoldable pub raw_content : Option String → Progress (Option Bytes)
  unfolding is_empty
  raw_content none = goes none
  raw_content (some s) =
      if is_empty s then goes none else called (env.b64decode s) >>= λ bytes. goes (some bytes)

  abbrev pub spec_of : Request → Option Json → RemoteSensingFetchSpec
  spec_of r geometry = record {
    remote_sensing_source = r.remote_sensing_source;
    declared_crs = r.declared_crs;
    temporal_start = r.temporal_start;
    temporal_end = r.temporal_end;
    comparison_temporal_start = r.comparison_temporal_start;
    comparison_temporal_end = r.comparison_temporal_end;
    aoi_geometry = geometry;
    requested_preprocessing = r.requested_preprocessing;
  }

  abbrev pub fetch_failed : String → FetchResult V
  fetch_failed text = record {
    success = false;
    content = none;
    error = some text;
    applied_preprocessing = [];
    band_statistics = none;
    comparison_band_statistics = none;
    raster_skipped_reason = none;
  }

  -- `ProviderRegistry.resolve` and `fetch`, with the `except` around both.
  unfoldable pub fetch : Request → Option Bytes → Option Json → FetchResult V
  fetch r bytes geometry = elim (env.providers r.provider) [
    | none ↦
        fetch_failed
          (str_append "No AcquisitionProvider registered for " (provider_value r.provider))
    | some adapter ↦ elim (adapter r.source_reference bytes (spec_of r geometry)) [
      | answered result ↦ result
      | raised text ↦ fetch_failed text
    ]
  ]

  abbrev pub valid_or_fails : List String → Progress (Unit {0})
  valid_or_fails [] = goes tt
  valid_or_fails (e ∷ es) = fails (join "; " (e ∷ es))

  -- The checks of what was fetched.
  unfoldable pub accept : Request → FetchResult V → Progress (Unit {0})
  unfolding validate_dataset_content is_empty join
  accept r result =
      if result.success
      then elim result.content [
        | none ↦ elim result.raster_skipped_reason [
          | none ↦ fails (or_text result.error "Fetch returned no content")
          | some reason ↦ goes tt
        ]
        | some bytes ↦
            checked (validate_dataset_content env.stdlib r.format bytes r.declared_crs)
            >>= valid_or_fails
      ]
      else fails (or_text result.error "Fetch failed")

  abbrev parsed : Decoded (ShapefileImportResult V) → Progress (Option (ShapefileImportResult V))
  parsed (decoded s) = goes (some s)
  parsed (malformed text) = fails text
  parsed (crashed text) = raises (external text)

  abbrev parse_content : Option Bytes → Progress (Option (ShapefileImportResult V))
  parse_content none = raises (external "AssertionError")
  parse_content (some bytes) = parsed (env.parse_shapefile_archive bytes)

  -- The parse of a shapefile, which the other formats skip.
  unfoldable pub parse_shapefile :
      AcquisitionFormat → FetchResult V → Progress (Option (ShapefileImportResult V))
  parse_shapefile shapefile result = parse_content result.content
  parse_shapefile _ result = goes none

  unfoldable pub skip_all :
      List SpectralIndex → List (SpectralIndex × String) → List (SpectralIndex × String)
  unfolding assign
  skip_all [] acc = acc
  skip_all (i ∷ is) acc = skip_all is (assign i "provider returned no band statistics" acc)

  -- The feature extraction of the handler; it does nothing where no index is requested.
  unfoldable pub features_of : Request → FetchResult V → Features V
  unfolding extract_features skip_all
  features_of r result = elim r.remote_sensing_source [
    | none ↦ ([], [])
    | some source ↦ elim result.band_statistics [
      | none ↦ ([], skip_all r.requested_indices [])
      | some statistics ↦
          extract_features env.floats source statistics r.requested_indices
            result.comparison_band_statistics
    ]
  ]

  abbrev pub crs_of : Request → Option (ShapefileImportResult V) → String
  crs_of r none = r.declared_crs
  crs_of r (some s) = s.crs

  abbrev pub coverage_of : Option (ShapefileImportResult V) → String
  coverage_of none =
      "Not derived — Sprint 13's Dataset Validation is structural (format/CRS), not full geospatial extent computation"
  coverage_of (some s) =
      str_append "BBOX" (str_append (env.str_bounding_box s.bounding_box) (str_append " in " s.crs))

  -- `_metadata_for_completed_job`
  unfoldable pub metadata_for_completed_job :
      AcquisitionJob V → ℕ → Option (ShapefileImportResult V) → Result (DatasetMetadata V)
  unfolding checked_metadata
  metadata_for_completed_job j now s = checked_metadata (record {
    name = j.request.source_reference;
    dataset_type = dataset_type_of j.request.format;
    source =
        str_append "AcquisitionJob "
          (str_append (env.str_id j.id) (str_append " via " (provider_value j.request.provider)));
    provider = j.request.provider;
    acquisition_date = env.date now;
    spatial_resolution_m = none;
    temporal_resolution = none;
    crs = crs_of j.request s;
    spatial_coverage = coverage_of s;
    coverage_start = now;
    coverage_end = now;
    processing_method = raw;
    model_used = none;
  })

  unfoldable pub import_content : AcquisitionJob V → ℕ → Progress (Imported V)
  unfolding aoi_geometry raw_content fetch accept parse_shapefile features_of
      metadata_for_completed_job
  import_content j now = do
    geometry ← aoi_geometry j.request
    bytes ← raw_content j.request.raw_content_base64
    let result = fetch j.request bytes geometry
    accept j.request result
    s ← parse_shapefile j.request.format result
    m ← checked (metadata_for_completed_job j now s)
    goes (record {
      metadata = m;
      result = result;
      features = features_of j.request result;
      shapefile_result = s;
    })
