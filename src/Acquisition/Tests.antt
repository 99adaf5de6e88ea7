-- ===== src/Acquisition/Tests.antt =====
-- The theorems on acquisition at concrete inputs; measured values are whole numbers here.
use novaapi.Common.{
  ℕ, ◌+◌, ◌-◌, ◌*◌, ◌/◌, ◌≡◌, ◌&&◌, not, refl, arith, String, true, false, none, some, List, [],
  ◌∷◌, leb, ◌==◌, if◌then◌else◌,
}
use novaapi.Common.Text.{is_blank}
use novaapi.Common.Table.{find}
use novaapi.Session.{in_session}
use novaapi.Acquisition.Types.{
  local_upload, csv, sentinel_2, ndvi, lst, tabular, raw, Readiness, DatasetMetadata, catalogued,
}
use novaapi.Acquisition.Catalog.{Dataset, catalog}
use novaapi.Acquisition.Job.{Request, AcquisitionJob, scheduled_job}
use novaapi.Acquisition.Database.{Db, job_key, dataset_key, is_current}
use novaapi.Acquisition.Database.Current.{sole_current}
use novaapi.Acquisition.Features.{Floats, extract_features}
use novaapi.Acquisition.Features.Exact.{
  is_some, feature_at, requested_in, available, extract_features-available,
}
use novaapi.Acquisition.Validation.{Stdlib, decoded, malformed}
use novaapi.Acquisition.Import.{Env, answered, raised, local_upload_fetch, import_content}
use novaapi.Acquisition.Handlers.{revise_dataset, catalog_dataset, schedule_acquisition_job}
use novaapi.Acquisition.Execute.{execute_acquisition_job}
use novaapi.Acquisition.Execute.Outcome.{started, Ended, execute_acquisition_job-Ended}
use novaapi.Acquisition.Execute.Blank.{
  refer_to, Unfinished, scheduling_of, blank_reference-Unfinished,
}
use novaapi.Errors.{Result, ok}
use novaapi.Acquisition.Execute.Stays.{
  Command, executing, scheduling, handle_all, handle_all-job_stays,
}
use novaapi.Acquisition.Versions.{
  execute_acquisition_job-sole_current, revise_dataset-sole_current, catalog_dataset-duplicate,
}

abbrev whole : Floats ℕ
whole = record {
  literal = λ s. 1;
  add = λ a b. a + b;
  sub = λ a b. a - b;
  mul = λ a b. a * b;
  div = λ a b. a / b;
  pow = λ a b. a;
  tanh = λ a. a;
  is_zero = λ a. a == 0;
  is_nonpositive = λ a. a == 0;
}

-- Every text is a table of one row, and the digits are those of ASCII.
abbrev stdlib : Stdlib
stdlib = record {
  json_loads = λ b. malformed "no JSON";
  csv_rows = λ b. decoded (("a" ∷ []) ∷ []);
  namelist = λ b. malformed "no ZIP";
  lower = λ s. s;
  repr = λ s. s;
  repr_json = λ v. "";
  str_nat = λ n. "n";
  is_digit = λ c. leb 48 c && leb c 57;
}

-- `b64decode` raises on blank texts, and uploads are the only provider.
abbrev env : Env ℕ
env = record {
  stdlib = stdlib;
  floats = whole;
  b64decode = λ s. if is_blank s then raised "padding" else answered (97 ∷ []);
  get_aoi_geometry = λ t a. answered none;
  providers = λ p. elim p [ local_upload ↦ some local_upload_fetch | _ ↦ none ];
  parse_shapefile_archive = λ b. malformed "no shapefile";
  str_id = λ n. "id";
  str_bounding_box = λ b. "box";
  date = λ n. n;
}

abbrev upload : Request
upload = record {
  tenant_id = 9;
  provider = local_upload;
  source_reference = "rain.csv";
  format = csv;
  dataset_source_id = 3;
  declared_crs = "EPSG:4326";
  raw_content_base64 = some "YQ==";
  requested_by = "ana";
  remote_sensing_source = none;
  aoi_id = none;
  temporal_start = none;
  temporal_end = none;
  comparison_temporal_start = none;
  comparison_temporal_end = none;
  requested_preprocessing = [];
  requested_indices = [];
}

abbrev waiting : AcquisitionJob ℕ
waiting = scheduled_job 1 (λ k. k) upload

abbrev nameless : AcquisitionJob ℕ
nameless = scheduled_job 2 (λ k. k) (record upload { source_reference = " " })

abbrev metadata : DatasetMetadata ℕ
metadata = record {
  name = "rain.csv";
  dataset_type = tabular;
  source = "upload";
  provider = local_upload;
  acquisition_date = 1;
  spatial_resolution_m = none;
  temporal_resolution = none;
  crs = "EPSG:4326";
  spatial_coverage = "all";
  coverage_start = 1;
  coverage_end = 1;
  processing_method = raw;
  model_used = none;
}

abbrev unready : Readiness
unready = record { mlr_ready = false; correlation_ready = false }

abbrev rain : Dataset ℕ
rain = record {
  id = 5;
  tenant_id = 9;
  dataset_source_id = 3;
  version = 1;
  status = catalogued;
  metadata = metadata;
  provenance = [];
  readiness = unready;
  catalogued_by = "bo";
  created_at = 1;
}

abbrev db : Db ℕ
db = record {
  sources =
      record {
        id = 3;
        tenant_id = none;
        name = "all";
        provider = local_upload;
        description = "";
        is_active = true;
        created_by = "bo";
        created_at = 1;
      }
      ∷ [];
  datasets = rain ∷ [];
  variables = [];
  selections = [];
  jobs = waiting ∷ nameless ∷ [];
  outbox = [];
}

abbrev clock : ℕ → ℕ
clock k = k

execute_acquisition_job-Ended_example :
    Ended
      (import_content env (started waiting clock) (clock 3))
      7
      9
      (started waiting clock)
      db
      (in_session (execute_acquisition_job env 7 9 1 clock) db)
unfolding find
execute_acquisition_job-Ended_example =
    execute_acquisition_job-Ended env 7 9 clock db 1 waiting refl refl refl

abbrev stuck : Db ℕ
stuck = record db { jobs = started waiting clock ∷ [] }

abbrev commands : List Command
commands = executing 7 9 1 clock ∷ scheduling 4 upload clock ∷ executing 8 9 4 clock ∷ []

handle_all-job_stays_example :
    find job_key 1 (handle_all env commands stuck).jobs ≡ some (started waiting clock)
unfolding find
handle_all-job_stays_example =
    handle_all-job_stays env commands 1 stuck (started waiting clock) refl (ground arith)
      (ground arith, tt)

-- The upload is accepted under its own name, and asked for under a blank one.
abbrev blank_outcome : Result (AcquisitionJob ℕ) × Db ℕ
blank_outcome =
    in_session (execute_acquisition_job env 7 9 4 clock)
      (scheduling_of 4 clock db (refer_to " " upload)).1

blank_reference-Unfinished_example :
    ((scheduling_of 4 clock db (refer_to " " upload)).0
      ≡ ok (scheduled_job 4 clock (refer_to " " upload)))
    × ((j' : AcquisitionJob ℕ) × Unfinished blank_outcome.0 j'
        × (find job_key 4 (handle_all env (executing 8 9 4 clock ∷ []) blank_outcome.1).jobs
            ≡ some j'))
unfolding find schedule_acquisition_job is_blank novaapi.Common.Text.is_empty
blank_reference-Unfinished_example =
    blank_reference-Unfinished env 4 7 clock clock db upload " " (scheduled_job 4 clock upload)
      (executing 8 9 4 clock ∷ []) refl refl tt

abbrev statistics : List (String × ℕ)
statistics = ("B8", 6) ∷ ("B4", 2) ∷ []

-- The index of vegetation is there, the temperature of the surface is not.
extract_features-available_example :
    let o = extract_features whole sentinel_2 statistics (ndvi ∷ lst ∷ []) none in
    (is_some (feature_at ndvi o.0)
      ≡ (requested_in ndvi (ndvi ∷ lst ∷ []) && available whole sentinel_2 statistics none ndvi))
    × (is_some (feature_at ndvi o.1) ≡ (
        requested_in ndvi (ndvi ∷ lst ∷ [])
        && not (available whole sentinel_2 statistics none ndvi)))
extract_features-available_example =
    extract_features-available whole sentinel_2 statistics none (ndvi ∷ lst ∷ []) ndvi

execute_acquisition_job-sole_current_example :
    sole_current (in_session (execute_acquisition_job env 7 9 1 clock) db).1.datasets ≡ true
unfolding find sole_current
execute_acquisition_job-sole_current_example =
    execute_acquisition_job-sole_current env 7 9 1 clock db refl refl

revise_dataset-sole_current_example :
    sole_current
      (in_session (revise_dataset 7 9 metadata unready "again" "ana" clock) db).1.datasets
    ≡ true
unfolding find sole_current
revise_dataset-sole_current_example =
    revise_dataset-sole_current 7 9 metadata unready "again" "ana" clock db refl refl

-- A second first version of the name.
abbrev twin : Dataset ℕ
twin = (catalog 7 clock 9 3 metadata unready "ana").0

catalog_dataset-duplicate_example :
    let ds = (in_session (catalog_dataset 7 9 3 metadata unready "ana" clock) db).1.datasets in
    (find dataset_key 5 ds ≡ some rain)
    × (find dataset_key 7 ds ≡ some twin)
    × (is_current 9 "rain.csv" twin ≡ true)
    × (twin.version ≡ 1)
unfolding catalog_dataset find is_blank
catalog_dataset-duplicate_example =
    catalog_dataset-duplicate 7 9 3 metadata unready "ana" clock db rain twin refl refl
      (ground arith) refl
