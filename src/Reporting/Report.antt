-- ===== src/Reporting/Report.antt =====
-- The `Report` aggregate of contexts/reporting/domain/entities.py, with its events.
use novaapi.Common.{ℕ, String, Bool, true, false, Option, none, some, length, ltb}
use novaapi.Errors.{Result, ok, err, illegal_report_status_transition}
use novaapi.Reporting.Sections.{Content}

pub data ReportStatus : Type 0 where
  draft finalized failed : ReportStatus

-- The sections are there unless the generation failed.
pub record Report (V P D W : Type 0) : Type 0 where
  pub id : ℕ
  pub tenant_id : ℕ
  pub assessment_id : ℕ
  pub version : ℕ
  pub status : ReportStatus
  pub generated_at : ℕ
  pub issued_by : String
  pub content : Option (Content V P D W)
  pub error : Option String
  pub finalized_by : Option String
  pub finalized_at : Option ℕ

pub data Event : Type 0 where
  report_generated : ℕ → ℕ → ℕ → ℕ → String → Bool → Bool → Bool → ℕ → Event
  report_finalized : ℕ → ℕ → ℕ → ℕ → String → Event
  report_generation_failed : ℕ → ℕ → ℕ → ℕ → String → Event

abbrev is_some : {A : Type 0} → Option A → Bool
is_some none = false
is_some (some a) = true

module _ {V P D W : Type 0} where
  -- `Report.generate`
  unfoldable pub generate : ℕ → ℕ → ℕ → ℕ → ℕ → Content V P D W → String → Report V P D W × Event
  generate new_id now tenant_id assessment_id version c issued_by = (
    record {
      id = new_id;
      tenant_id = tenant_id;
      assessment_id = assessment_id;
      version = version;
      status = draft;
      generated_at = now;
      issued_by = issued_by;
      content = some c;
      error = none;
      finalized_by = none;
      finalized_at = none;
    },
    report_generated new_id tenant_id assessment_id version c.assessment_summary.hazard_type
        (is_some c.risk_summary) (ltb 0 (length c.predictor_summary)) (is_some c.validation_summary)
        (length c.dataset_provenance),
  )

  -- `Report.failed`
  unfoldable pub generation_failed : ℕ → ℕ → ℕ → ℕ → ℕ → String → String → Report V P D W × Event
  generation_failed new_id now tenant_id assessment_id version error issued_by = (
    record {
      id = new_id;
      tenant_id = tenant_id;
      assessment_id = assessment_id;
      version = version;
      status = failed;
      generated_at = now;
      issued_by = issued_by;
      content = none;
      error = some error;
      finalized_by = none;
      finalized_at = none;
    },
    report_generation_failed new_id tenant_id assessment_id version error,
  )

  -- `Report.finalize`
  abbrev finalize_from :
      ReportStatus → Report V P D W → String → ℕ → Result (Report V P D W × Event)
  finalize_from draft r by now = ok (
    record r { status = finalized; finalized_by = some by; finalized_at = some now },
    report_finalized r.id r.tenant_id r.assessment_id r.version by,
  )
  finalize_from _ r by now = err illegal_report_status_transition

  unfoldable pub finalize : Report V P D W → String → ℕ → Result (Report V P D W × Event)
  finalize r by now = finalize_from r.status r by now
