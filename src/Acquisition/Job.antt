-- ===== src/Acquisition/Job.antt =====
-- `AcquisitionJob` of contexts/data_acquisition/domain/entities.py.
use novaapi.Common.{
  ℕ, String, Bool, true, false, not, ◌&&◌, ◌||◌, Option, none, some, List, [], ◌∷◌, ◌++◌,
  if◌then◌else◌,
}
use novaapi.Common.Text.{is_empty}
use novaapi.Errors.{Result, ok, err, invalid_acquisition_job, illegal_acquisition_job_transition}
use novaapi.Acquisition.Types.{
  DataProvider, google_earth_engine, local_upload, acquisition_capable, AcquisitionFormat, geotiff,
  AcquisitionJobStatus, scheduled, running, completed, failed, RemoteSensingSource,
  PreprocessingStep, SpectralIndex, ShapefileImportResult, ProvenanceEntry, Description,
  scheduled_from, fetch_started, described, catalogued_successfully, dataset_reference,
  external_reference, Action, scheduled_action, started_action, completed_action, failed_action,
  SourceReference, Actor, system, person,
}
use novaapi.Acquisition.Events.{
  Event, acquisition_job_scheduled, acquisition_job_started, acquisition_job_completed,
  acquisition_job_failed,
}

-- What the caller of `schedule` asks for.
pub record Request : Type 0 where
  pub tenant_id : ℕ
  pub provider : DataProvider
  pub source_reference : String
  pub format : AcquisitionFormat
  pub dataset_source_id : ℕ
  pub declared_crs : String
  pub raw_content_base64 : Option String
  pub requested_by : String
  pub remote_sensing_source : Option RemoteSensingSource
  pub aoi_id : Option String
  pub temporal_start : Option ℕ
  pub temporal_end : Option ℕ
  pub comparison_temporal_start : Option ℕ
  pub comparison_temporal_end : Option ℕ
  pub requested_preprocessing : List PreprocessingStep
  pub requested_indices : List SpectralIndex

-- `request` holds the fields that no method assigns. The five shapefile fields, which are set
-- together or not at all, are those of one import.
pub record AcquisitionJob (V : Type 0) : Type 0 where
  pub id : ℕ
  pub request : Request
  pub status : AcquisitionJobStatus
  pub provenance : List (ProvenanceEntry V)
  pub dataset_id : Option ℕ
  pub error : Option String
  pub scheduled_at : ℕ
  pub started_at : Option ℕ
  pub completed_at : Option ℕ
  pub applied_preprocessing : List PreprocessingStep
  pub extracted_features : Option (List (SpectralIndex × V))
  pub skipped_features : Option (List (SpectralIndex × String))
  pub shapefile : Option (ShapefileImportResult V)

-- `not text`
abbrev pub is_missing : Option String → Bool
is_missing none = true
is_missing (some s) = is_empty s

abbrev pub is_none : {A : Type 0} → Option A → Bool
is_none none = true
is_none (some a) = false

abbrev pub is_local_upload : DataProvider → Bool
is_local_upload local_upload = true
is_local_upload _ = false

abbrev pub is_earth_engine : DataProvider → Bool
is_earth_engine google_earth_engine = true
is_earth_engine _ = false

abbrev pub is_geotiff : AcquisitionFormat → Bool
is_geotiff geotiff = true
is_geotiff _ = false

-- The guards of `schedule`, in their order.
abbrev pub refused : Request → Bool
refused r =
    not (acquisition_capable r.provider)
    || (is_local_upload r.provider && is_missing r.raw_content_base64)
    || (is_earth_engine r.provider && is_none r.remote_sensing_source)
    || (is_earth_engine r.provider && is_none r.aoi_id)
    || (is_earth_engine r.provider && not (is_geotiff r.format))

module _ {V : Type 0} where
  abbrev pub entry_of :
      ℕ → Actor → Action → Description V → Option SourceReference → List (ProvenanceEntry V)
  entry_of now actor action description reference =
      record {
        timestamp = now;
        actor = actor;
        action = action;
        description = description;
        source_reference = reference;
      }
      ∷ []

  -- The job that `schedule` makes.
  abbrev pub scheduled_job : ℕ → (ℕ → ℕ) → Request → AcquisitionJob V
  scheduled_job new_id clock r = record {
    id = new_id;
    request = r;
    status = scheduled;
    provenance =
        entry_of (clock 1) (person r.requested_by) scheduled_action (scheduled_from r.provider)
          (some (external_reference r.source_reference));
    dataset_id = none;
    error = none;
    scheduled_at = clock 0;
    started_at = none;
    completed_at = none;
    applied_preprocessing = [];
    extracted_features = none;
    skipped_features = none;
    shapefile = none;
  }

  -- `AcquisitionJob.schedule`
  unfoldable pub schedule : ℕ → (ℕ → ℕ) → Request → Result (AcquisitionJob V × Event)
  schedule new_id clock r =
      if refused r
      then err invalid_acquisition_job
      else ok (
        scheduled_job new_id clock r,
        acquisition_job_scheduled new_id r.tenant_id r.provider r.format,
      )

  -- `AcquisitionJob.start`
  abbrev pub start_from :
      AcquisitionJobStatus → AcquisitionJob V → (ℕ → ℕ) → Result (AcquisitionJob V × Event)
  start_from scheduled j clock = ok (
    record j {
      status = running;
      started_at = some (clock 0);
      provenance = j.provenance ++ entry_of (clock 1) system started_action fetch_started none;
    },
    acquisition_job_started j.id j.request.tenant_id,
  )
  start_from _ j clock = err illegal_acquisition_job_transition

  unfoldable pub start : AcquisitionJob V → (ℕ → ℕ) → Result (AcquisitionJob V × Event)
  start j clock = start_from j.status j clock

-- The arguments of `complete`.
pub record Completion (V : Type 0) : Type 0 where
  pub dataset_id : ℕ
  pub applied_preprocessing : List PreprocessingStep
  pub extracted_features : Option (List (SpectralIndex × V))
  pub skipped_features : Option (List (SpectralIndex × String))
  pub shapefile : Option (ShapefileImportResult V)
  pub raster_download_warning : Option String

module _ {V : Type 0} where
  -- The description that `complete` builds, with the name of the file where there is a shapefile.
  abbrev pub completion_text : Completion V → String → Description V
  completion_text c file =
      catalogued_successfully c.extracted_features c.raster_download_warning
        (elim c.shapefile [ none ↦ none | some s ↦ some (file, s) ])

  -- `AcquisitionJob.complete`
  abbrev complete_from :
      AcquisitionJobStatus
      → AcquisitionJob V
      → Completion V
      → (ℕ → ℕ)
      → Result (AcquisitionJob V × Event)
  complete_from running j c clock = ok (
    record j {
      status = completed;
      completed_at = some (clock 0);
      dataset_id = some c.dataset_id;
      applied_preprocessing = c.applied_preprocessing;
      extracted_features = c.extracted_features;
      skipped_features = c.skipped_features;
      shapefile = c.shapefile;
      provenance =
          j.provenance
          ++ entry_of (clock 1) system completed_action
              (completion_text c j.request.source_reference)
              (some (dataset_reference c.dataset_id));
    },
    acquisition_job_completed j.id j.request.tenant_id c.dataset_id,
  )
  complete_from _ j c clock = err illegal_acquisition_job_transition

  unfoldable pub complete :
      AcquisitionJob V → Completion V → (ℕ → ℕ) → Result (AcquisitionJob V × Event)
  complete j c clock = complete_from j.status j c clock

  -- `AcquisitionJob.fail`
  abbrev fail_from :
      AcquisitionJobStatus → AcquisitionJob V → String → (ℕ → ℕ) → Result (AcquisitionJob V × Event)
  fail_from running j error clock = ok (
    record j {
      status = failed;
      completed_at = some (clock 0);
      error = some error;
      provenance = j.provenance ++ entry_of (clock 1) system failed_action (described error) none;
    },
    acquisition_job_failed j.id j.request.tenant_id error,
  )
  fail_from _ j error clock = err illegal_acquisition_job_transition

  unfoldable pub fail : AcquisitionJob V → String → (ℕ → ℕ) → Result (AcquisitionJob V × Event)
  fail j error clock = fail_from j.status j error clock
