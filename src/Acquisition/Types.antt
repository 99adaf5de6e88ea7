-- ===== src/Acquisition/Types.antt =====
-- contexts/data_acquisition/domain/value_objects.py. `V` stands for `float`.
use novaapi.Common.{ℕ, String, Bool, true, false, Option, List, if◌then◌else◌, ltb, ◌||◌}
use novaapi.Common.Text.{is_blank}
use novaapi.Acquisition.Json.{Json}
use novaapi.Errors.{Result, ok, err, value_error}

pub data DataProvider : Type 0 where
  chirps era5 modis sentinel landsat smap viirs grace gpm era5_land merra2 ncep : DataProvider
  cru worldclim user_upload sensor manual other : DataProvider
  google_earth_engine usgs nasa copernicus local_upload : DataProvider

-- `provider in ACQUISITION_CAPABLE_PROVIDERS`
abbrev pub acquisition_capable : DataProvider → Bool
acquisition_capable google_earth_engine = true
acquisition_capable usgs = true
acquisition_capable nasa = true
acquisition_capable copernicus = true
acquisition_capable local_upload = true
acquisition_capable _ = false

pub data AcquisitionFormat : Type 0 where
  geojson csv geotiff shapefile json : AcquisitionFormat

pub data AcquisitionJobStatus : Type 0 where
  scheduled running completed failed : AcquisitionJobStatus

pub data RemoteSensingSource : Type 0 where
  sentinel_1 sentinel_2 landsat modis chirps era5 : RemoteSensingSource

pub data PreprocessingStep : Type 0 where
  cloud_masking atmospheric_correction radiometric_correction reprojection : PreprocessingStep
  aoi_clipping : PreprocessingStep

pub data SpectralIndex : Type 0 where
  ndvi evi savi ndwi lst nbr dnbr spei : SpectralIndex

pub data DatasetType : Type 0 where
  raster vector tabular time_series point_observations : DatasetType

pub data TemporalResolution : Type 0 where
  sub_daily daily weekly dekadal monthly seasonal annual static : TemporalResolution

pub data ProcessingMethod : Type 0 where
  raw cloud_masked composited derived_index aggregated other : ProcessingMethod

pub data DatasetStatus : Type 0 where
  catalogued superseded archived : DatasetStatus

-- A `frozenset[DatasetReadinessTag]`: which of its two members it has.
pub record Readiness : Type 0 where
  pub mlr_ready : Bool
  pub correlation_ready : Bool

pub record DatasetMetadata (V : Type 0) : Type 0 where
  pub name : String
  pub dataset_type : DatasetType
  pub source : String
  pub provider : DataProvider
  pub acquisition_date : ℕ
  pub spatial_resolution_m : Option V
  pub temporal_resolution : Option TemporalResolution
  pub crs : String
  pub spatial_coverage : String
  pub coverage_start : ℕ
  pub coverage_end : ℕ
  pub processing_method : ProcessingMethod
  pub model_used : Option String

-- `DatasetMetadata(...)` of a `DateRange(...)`: the checks of the two `__post_init__` methods.
unfoldable pub checked_metadata : {V : Type 0} → DatasetMetadata V → Result (DatasetMetadata V)
checked_metadata m =
    if ltb m.coverage_end m.coverage_start || is_blank m.name || is_blank m.crs
    then err value_error
    else ok m

-- `ShapefileImportResult` of infrastructure/shapefile_importer.py.
pub record ShapefileImportResult (V : Type 0) : Type 0 where
  pub geometry_type : String
  pub crs : String
  pub feature_count : ℕ
  pub bounding_box : V × V × V × V
  pub field_names : List String
  pub first_feature_attributes : Json

-- The text of an entry, as what the source formats it from.
pub data Description (V : Type 0) : Type 0 where
  initial_cataloguing : String → Description V
  scheduled_from : DataProvider → Description V
  fetch_started : Description V
  reuploaded : ℕ → Description V
  described : String → Description V
  -- The extracted features, the warning, and the shapefile with the name of the file.
  catalogued_successfully :
      Option (List (SpectralIndex × V))
      → Option String
      → Option (String × ShapefileImportResult V)
      → Description V

-- What an entry was derived from: a data set, or a reference of the caller.
pub data SourceReference : Type 0 where
  dataset_reference : ℕ → SourceReference
  external_reference : String → SourceReference

pub data Action : Type 0 where
  catalogued_action revised_action scheduled_action started_action : Action
  completed_action failed_action : Action

pub data Actor : Type 0 where
  system : Actor
  person : String → Actor

pub record ProvenanceEntry (V : Type 0) : Type 0 where
  pub timestamp : ℕ
  pub actor : Actor
  pub action : Action
  pub description : Description V
  pub source_reference : Option SourceReference

pub data VariableCategory : Type 0 where
  vegetation_and_fuel surface_energy meteorological terrain soil_moisture : VariableCategory
  human_influence drought other : VariableCategory

pub data VariableRole : Type 0 where
  dependent independent derived control : VariableRole

pub data VariableDataType : Type 0 where
  continuous categorical binary ordinal : VariableDataType

pub data VariableSelectionStatus : Type 0 where
  draft confirmed : VariableSelectionStatus
