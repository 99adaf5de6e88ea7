-- ===== src/Validation/Handlers.antt =====
-- contexts/validation/application/handlers.py, the tables and the writes of
-- contexts/validation/infrastructure/repositories.py, and the single-run query of
-- contexts/validation/application/queries.py. A resolver answers, or raises an exception with a text.
use text.Mathlib.Text.{◌==◌ as str_eq}
use novaapi.Common.{
  ℕ, String, not, Option, none, some, List, [], ◌∷◌, ◌++◌, Eq, ==_iff, ◌==◌, if◌then◌else◌,
}
use novaapi.Common.Table.{find}
use novaapi.Errors.{Result, ok, err, value_error, validation_run_not_found}
use novaapi.Session.{Exec, pure, lift, commit, gets, modify, ◌>>=◌, ◌>>◌}
use novaapi.Outbox.{OutboxEvent, append_event}
use novaapi.Validation.Types.{
  Floats, SubjectType, stage_result, prediction, classification, regression, ValidationDataset,
  RegressionMetricSet, RegressionModelMetadata,
}
use novaapi.Validation.Metrics.{compute_metric_set, default_validation_thresholds}
use novaapi.Validation.Regression.{default_regression_validation_thresholds}
use novaapi.Validation.Run.{ValidationRun, Event, Built, complete, complete_regression, errored}

-- `SubjectType(text)`
unfoldable pub subject_type_of : String → Result SubjectType
subject_type_of text =
    if str_eq text "STAGE_RESULT"
    then ok stage_result
    else if str_eq text "PREDICTION"
    then ok prediction
    else err value_error

pub data Resolution (A : Type 0) : Type 0 where
  resolved : A → Resolution A
  raised : String → Resolution A

pub record RegressionValidationSubject (V : Type 0) : Type 0 where
  pub metrics : RegressionMetricSet V
  pub model_metadata : Option RegressionModelMetadata

-- The one aggregate type is `ValidationRun`; an aggregate is its id.
instance abbrev pub run_id_eq : Eq ℕ
run_id_eq = record { beq = ◌==◌; beq_iff = ==_iff }

pub record Db (V : Type 0) : Type 0 where
  pub runs : List (ValidationRun V)
  pub outbox : List (OutboxEvent ℕ (Event V))

module _ {V : Type 0} where
  abbrev pub run_key : ValidationRun V → ℕ
  run_key r = r.id

  -- The repository's `save`: a new row each time.
  unfoldable pub save : ValidationRun V → Exec (Db V) (Unit {0})
  save r = modify (λ (db : Db V). record db { runs = db.runs ++ r ∷ [] })

  unfoldable pub append : ℕ → Event V → ℕ → ℕ → Exec (Db V) (Unit {0})
  unfolding append_event
  append k e tenant_id now =
      modify (λ (db : Db V). record db { outbox = append_event k e (some tenant_id) now db.outbox })

  -- `repo.save(run)`, the loop over the two events and the commit.
  unfoldable pub store : ℕ → Built V → (ℕ → ℕ) → Exec (Db V) (ValidationRun V)
  unfolding save append
  store tenant_id (run, started, outcome) clock = do
    save run
    append run.id started tenant_id (clock 1)
    append run.id outcome tenant_id (clock 2)
    commit
    pure run

  -- The check of `GetValidationRunQuery` on what `get_by_id` found.
  abbrev visible : ℕ → Option (ValidationRun V) → Result (ValidationRun V)
  visible tenant_id none = err validation_run_not_found
  visible tenant_id (some r) =
      if not (r.tenant_id == tenant_id) then err validation_run_not_found else ok r

  unfoldable pub get_validation_run : ℕ → ℕ → Exec (Db V) (ValidationRun V)
  get_validation_run k tenant_id = do
    found ← gets (λ (db : Db V). find run_key k db.runs)
    lift (visible tenant_id found)

module _ {V : Type 0} (fl : Floats V) (new_id : ℕ) (clock : ℕ → ℕ) (tenant_id assessment_id : ℕ)
    (subject_id : String) where
  -- The `try` of `RunValidationHandler`.
  unfoldable pub judge : Resolution (ValidationDataset V) → SubjectType → String → Built V
  unfolding complete errored
  judge (resolved dataset) subject_type issued_by =
      complete fl new_id (clock 0) tenant_id assessment_id subject_id subject_type
        (default_validation_thresholds fl) (compute_metric_set fl dataset) issued_by
  judge (raised text) subject_type issued_by =
      errored fl new_id (clock 0) tenant_id assessment_id subject_id subject_type
        (default_validation_thresholds fl) text issued_by classification

  -- The `try` of `RunRegressionValidationHandler`.
  unfoldable pub judge_regression : Resolution (RegressionValidationSubject V) → String → Built V
  unfolding complete_regression errored
  judge_regression (resolved s) issued_by =
      complete_regression fl new_id (clock 0) tenant_id assessment_id subject_id
        (default_regression_validation_thresholds fl) s.metrics s.model_metadata issued_by
  judge_regression (raised text) issued_by =
      errored fl new_id (clock 0) tenant_id assessment_id subject_id prediction
        (default_regression_validation_thresholds fl) text issued_by regression

  -- `RunValidationHandler`
  unfoldable pub run_validation :
      (String → SubjectType → ℕ → Resolution (ValidationDataset V))
      → String
      → String
      → Exec (Db V) (ValidationRun V)
  unfolding subject_type_of judge store
  run_validation resolve text issued_by = do
    subject_type ← lift (subject_type_of text)
    store tenant_id (judge (resolve subject_id subject_type assessment_id) subject_type issued_by)
        clock

  -- `RunRegressionValidationHandler`
  unfoldable pub run_regression_validation :
      (String → ℕ → ℕ → Resolution (RegressionValidationSubject V))
      → String
      → Exec (Db V) (ValidationRun V)
  unfolding judge_regression store
  run_regression_validation resolve issued_by =
      store tenant_id (judge_regression (resolve subject_id assessment_id tenant_id) issued_by)
        clock
