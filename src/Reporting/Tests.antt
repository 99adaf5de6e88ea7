-- ===== src/Reporting/Tests.antt =====
-- The theorems on reports at concrete inputs; measured values and the copied entries are whole
-- numbers here.
use novaapi.Common.{ℕ, ◌≡◌, refl, arith, true, none, some, List, [], ◌∷◌, ◌==◌, if◌then◌else◌}
use novaapi.Common.Table.{find}
use novaapi.Errors.{ok}
use novaapi.Session.{in_session}
use novaapi.Reporting.Sections.{AssessmentSummary, StageResultInfo, read, raised, Env, gather}
use novaapi.Reporting.Report.{Report, finalized}
use novaapi.Reporting.Handlers.{Db, report_key, next_version, generate_report}
use novaapi.Reporting.Queries.{get_latest_report, get_report}
use novaapi.Reporting.Latest.{generate_report-get_latest_report}
use novaapi.Reporting.Versions.{distinct_versions, handle_all-distinct_versions}
use novaapi.Reporting.Immutable.{
  Generated, generate_report-Generated, Command, generating, finalizing, handle_all,
  handle_all-stays,
}

abbrev delta : AssessmentSummary ℕ
delta = record {
  assessment_id = 4;
  name = "delta";
  hazard_type = "FLOOD";
  status = "VALIDATED";
  created_at = 1;
  aoi_name = none;
  aoi_version = none;
  aoi_area_m2 = none;
  sampling_campaign_name = none;
  sample_count = none;
}

abbrev risk : StageResultInfo ℕ
risk = record {
  stage_type = "RISK";
  status = "SUCCEEDED";
  confidence_tier = none;
  formula_version = some "2";
  strategy_version = some "flood-1";
  indicators = ("FRI", 80) ∷ [];
  computed_at = 2;
}

-- There is one assessment, 4 of tenant 9, and the catalogue of data sets is down for tenant 8.
abbrev env : Env ℕ ℕ ℕ ℕ
env = record {
  get_assessment_info = λ t a. if a == 4 then read (some delta) else read none;
  list_latest_stage_results = λ t a h. read (risk ∷ []);
  list_latest_prediction_runs = λ t a. read [];
  list_current_datasets = λ t. if t == 8 then raised "down" else read (7 ∷ []);
  get_latest_validation = λ t a. read none;
  not_available = λ a. "not found";
}

abbrev closed : Report ℕ ℕ ℕ ℕ
closed = record {
  id = 1;
  tenant_id = 9;
  assessment_id = 4;
  version = 1;
  status = finalized;
  generated_at = 3;
  issued_by = "ana";
  content = none;
  error = none;
  finalized_by = some "bo";
  finalized_at = some 5;
}

abbrev db : Db ℕ ℕ ℕ ℕ
db = record { reports = closed ∷ []; outbox = [] }

generate_report-Generated_example :
    Generated (gather env 9 4) 2 9 4 db (in_session (generate_report env 2 9 4 "ana" (λ k. k)) db)
generate_report-Generated_example = generate_report-Generated env 2 9 4 "ana" (λ k. k) db

-- The second report on the assessment has the second version.
second_version : next_version 9 4 db.reports ≡ 2
unfolding next_version
second_version = refl

-- The exception of a reader is the answer.
catalogue_down : gather env 8 4 ≡ raised "down"
unfolding gather
catalogue_down = refl

no_assessment : gather env 9 5 ≡ raised "not found"
unfolding gather
no_assessment = refl

abbrev commands : List Command
commands =
    finalizing 9 1 "cy" (λ k. k)
    ∷ generating 2 9 4 "ana" (λ k. k)
    ∷ finalizing 9 2 "cy" (λ k. k)
    ∷ []

handle_all-stays_example : find report_key 1 (handle_all env commands db).reports ≡ some closed
unfolding find
handle_all-stays_example =
    handle_all-stays env commands 1 db closed refl (ground arith) (ground arith, tt)

generate_report-get_latest_report_example :
    let (answer, db') = in_session (generate_report env 2 9 4 "ana" (λ k. k)) db in
    (r : Report ℕ ℕ ℕ ℕ) × (answer ≡ ok r)
    × ((in_session (get_latest_report 9 4) db').0 ≡ ok r)
    × ((in_session (get_report 9 2) db').0 ≡ ok r)
generate_report-get_latest_report_example =
    generate_report-get_latest_report env 2 9 4 "ana" (λ k. k) db

handle_all-distinct_versions_example : distinct_versions (handle_all env commands db).reports ≡ true
unfolding distinct_versions
handle_all-distinct_versions_example = handle_all-distinct_versions env commands db refl
