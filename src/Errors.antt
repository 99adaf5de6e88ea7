-- ===== src/Errors.antt =====
-- shared_kernel/errors.py, the error classes of the contexts, and the status codes of
-- api/middleware/error_handling.py.
use novaapi.Common.{ℕ, String, ◌≡◌, refl, ◌⊎◌, inl, inr}

-- The base classes of shared_kernel/errors.py; `unhandled` is every exception that is none of them.
pub data ErrorKind : Type 0 where
  not_found validation_failed guard_rejected illegal_state_transition : ErrorKind
  concurrency_conflict authentication_failed authorization_denied : ErrorKind
  idempotency_conflict rate_limit_exceeded unhandled : ErrorKind

-- The exceptions that the modelled code raises. `out_of_fuel` is no exception of the program: it
-- marks a run of the model that was given too few steps.
pub data Error : Type 0 where
  value_error : Error
  assessment_not_found illegal_assessment_status_transition : Error
  assessment_concurrency workflow_template_not_found : Error
  cyclic_workflow_template unknown_stage_predecessor : Error
  illegal_workflow_template_status_transition illegal_stage_execution_transition : Error
  workflow_not_complete guard_error : Error
  user_not_found invalid_credentials user_not_active illegal_user_status_transition : Error
  last_owner_removal weak_password invalid_or_expired_token refresh_token_reuse_detected : Error
  role_not_found tenant_not_found identity_concurrency email_already_registered : Error
  not_authenticated permission_denied : Error
  rate_limited : ℕ → Error
  illegal_report_status_transition report_not_found : Error
  invalid_variable_selection invalid_acquisition_job illegal_acquisition_job_transition : Error
  dataset_source_not_found dataset_not_found variable_selection_not_found : Error
  acquisition_job_not_found : Error
  -- An exception that a called library raises, with its text.
  external : String → Error
  invalid_alert_rule invalid_subscription alert_rule_not_found subscription_not_found : Error
  validation_run_not_found : Error
  out_of_fuel : Error

unfoldable pub kind : Error → ErrorKind
kind value_error = unhandled
kind assessment_not_found = not_found
kind illegal_assessment_status_transition = illegal_state_transition
kind assessment_concurrency = concurrency_conflict
kind workflow_template_not_found = not_found
kind cyclic_workflow_template = validation_failed
kind unknown_stage_predecessor = validation_failed
kind illegal_workflow_template_status_transition = illegal_state_transition
kind illegal_stage_execution_transition = illegal_state_transition
kind workflow_not_complete = guard_rejected
kind guard_error = guard_rejected
kind user_not_found = not_found
kind invalid_credentials = authentication_failed
kind user_not_active = authentication_failed
kind illegal_user_status_transition = illegal_state_transition
kind last_owner_removal = guard_rejected
kind weak_password = validation_failed
kind invalid_or_expired_token = authentication_failed
kind refresh_token_reuse_detected = authentication_failed
kind role_not_found = not_found
kind tenant_not_found = not_found
kind identity_concurrency = concurrency_conflict
kind email_already_registered = guard_rejected
kind not_authenticated = authentication_failed
kind permission_denied = authorization_denied
kind (rate_limited n) = rate_limit_exceeded
kind illegal_report_status_transition = illegal_state_transition
kind report_not_found = not_found
kind invalid_variable_selection = validation_failed
kind invalid_acquisition_job = validation_failed
kind illegal_acquisition_job_transition = illegal_state_transition
kind dataset_source_not_found = not_found
kind dataset_not_found = not_found
kind variable_selection_not_found = not_found
kind acquisition_job_not_found = not_found
kind (external s) = unhandled
kind invalid_alert_rule = validation_failed
kind invalid_subscription = validation_failed
kind alert_rule_not_found = not_found
kind subscription_not_found = not_found
kind validation_run_not_found = not_found
kind out_of_fuel = unhandled

-- `_STATUS_MAP`, with the 500 of the handler for everything else.
unfoldable pub http_status : ErrorKind → ℕ
http_status validation_failed = 400
http_status authentication_failed = 401
http_status authorization_denied = 403
http_status not_found = 404
http_status guard_rejected = 422
http_status illegal_state_transition = 409
http_status concurrency_conflict = 409
http_status idempotency_conflict = 409
http_status rate_limit_exceeded = 429
http_status unhandled = 500

pub data Result {ℓ} (A : Type ℓ) : Type ℓ where
  ok : A → Result A
  err : Error → Result A

pub Result-cases {ℓ} :
    {A : Type ℓ} (r : Result A) → ((a : A) × (r ≡ ok a)) ⊎ ((e : Error) × (r ≡ err e))
Result-cases (ok a) = inl (a, refl)
Result-cases (err e) = inr (e, refl)
