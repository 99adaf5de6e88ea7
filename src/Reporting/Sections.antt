-- ===== src/Reporting/Sections.antt =====
-- The sections of a report, and how contexts/reporting/application/handlers.py builds them. `V` stands
-- for `float`; the entries that the handler copies field by field from a prediction run, a data set
-- and a validation run are of types `P`, `D` and `W`.
use novaapi.Common.{ℕ, String, Option, none, some, List, [], ◌∷◌, map, if◌then◌else◌}
use novaapi.Common.Text.{is_empty}

-- `AssessmentInfo` and `AssessmentSummary`, which have the same fields.
pub record AssessmentSummary (V : Type 0) : Type 0 where
  pub assessment_id : ℕ
  pub name : String
  pub hazard_type : String
  pub status : String
  pub created_at : ℕ
  pub aoi_name : Option String
  pub aoi_version : Option ℕ
  pub aoi_area_m2 : Option V
  pub sampling_campaign_name : Option String
  pub sample_count : Option ℕ

pub record StageResultInfo (V : Type 0) : Type 0 where
  pub stage_type : String
  pub status : String
  pub confidence_tier : Option String
  pub formula_version : Option String
  pub strategy_version : Option String
  pub indicators : List (String × V)
  pub computed_at : ℕ

pub record StageSummary (V : Type 0) : Type 0 where
  pub stage_type : String
  pub status : String
  pub confidence_tier : Option String
  pub indicators : List (String × V)
  pub computed_at : ℕ

pub record RiskSummarySection (V : Type 0) : Type 0 where
  pub hazard_type : String
  pub stages : List (StageSummary V)

pub record StageFormulaVersion : Type 0 where
  pub stage_type : String
  pub formula_version : Option String

pub record Content (V P D W : Type 0) : Type 0 where
  pub assessment_summary : AssessmentSummary V
  pub risk_summary : Option (RiskSummarySection V)
  pub predictor_summary : List P
  pub dataset_provenance : List D
  pub validation_summary : Option W
  pub formula_versions : List StageFormulaVersion
  pub strategy_version : Option String

-- What a reader answers: a value, or an exception with its text.
pub data Reading (A : Type 0) : Type 0 where
  read : A → Reading A
  raised : String → Reading A

infixl 5 ◌>>=◌
abbrev pub ◌>>=◌ : {A B : Type 0} → Reading A → (A → Reading B) → Reading B
read a >>= f = f a
raised text >>= f = raised text

-- The readers of the handler, on a tenant and an assessment.
pub record Env (V P D W : Type 0) : Type 0 where
  pub get_assessment_info : ℕ → ℕ → Reading (Option (AssessmentSummary V))
  pub list_latest_stage_results : ℕ → ℕ → String → Reading (List (StageResultInfo V))
  pub list_latest_prediction_runs : ℕ → ℕ → Reading (List P)
  pub list_current_datasets : ℕ → Reading (List D)
  pub get_latest_validation : ℕ → ℕ → Reading (Option W)
  -- The text of `AssessmentNotAvailableError`.
  pub not_available : ℕ → String

module _ {V : Type 0} where
  -- `next((r.strategy_version for r in stage_results if r.strategy_version), None)`
  unfoldable pub first_strategy_version : List (StageResultInfo V) → Option String
  first_strategy_version [] = none
  first_strategy_version (r ∷ rs) =
      let rest = first_strategy_version rs in
      elim r.strategy_version [ none ↦ rest | some v ↦ if is_empty v then rest else some v ]

  abbrev summary_of : StageResultInfo V → StageSummary V
  summary_of r = record {
    stage_type = r.stage_type;
    status = r.status;
    confidence_tier = r.confidence_tier;
    indicators = r.indicators;
    computed_at = r.computed_at;
  }

  abbrev formula_version_of : StageResultInfo V → StageFormulaVersion
  formula_version_of r = record { stage_type = r.stage_type; formula_version = r.formula_version }

  -- `_build_risk_summary`
  unfoldable pub build_risk_summary :
      String
      → List (StageResultInfo V)
      → Option (RiskSummarySection V) × List StageFormulaVersion × Option String
  unfolding first_strategy_version
  build_risk_summary hazard_type [] = (none, [], none)
  build_risk_summary hazard_type (r ∷ rs) = (
    some (record { hazard_type = hazard_type; stages = map summary_of (r ∷ rs) }),
    map formula_version_of (r ∷ rs),
    first_strategy_version (r ∷ rs),
  )

-- `if assessment_info is None: raise AssessmentNotAvailableError`
abbrev available : {A : Type 0} → String → Option A → Reading A
available text none = raised text
available text (some a) = read a

module _ {V P D W : Type 0} (env : Env V P D W) (tenant_id assessment_id : ℕ) where
  -- The body of the `try` of `GenerateReportHandler`, up to the version.
  unfoldable pub gather : Reading (Content V P D W)
  unfolding build_risk_summary
  gather = do
    found ← env.get_assessment_info tenant_id assessment_id
    info ← available (env.not_available assessment_id) found
    stage_results ← env.list_latest_stage_results tenant_id assessment_id info.hazard_type
    let (risk, formulas, strategy) = build_risk_summary info.hazard_type stage_results
    runs ← env.list_latest_prediction_runs tenant_id assessment_id
    datasets ← env.list_current_datasets tenant_id
    validation ← env.get_latest_validation tenant_id assessment_id
    read (record {
      assessment_summary = info;
      risk_summary = risk;
      predictor_summary = runs;
      dataset_provenance = datasets;
      validation_summary = validation;
      formula_versions = formulas;
      strategy_version = strategy;
    })
