-- ===== src/Identity/User/Status.antt =====
-- The status of an account.
use novaapi.Common.{ℕ, String, ◌≡◌, true, none, arith}
use novaapi.Errors.{ok, err, illegal_user_status_transition}
use novaapi.Identity.Types.{invited, active}
use novaapi.Identity.User.{User, activate, reactivate, is_login_eligible}
use novaapi.Identity.Events.{Event, user_status_changed}

-- `reactivate` takes an invited user without a password past the invitation: the account is active,
-- has no password, and `activate`, which accepts the invitation, is refused from then on.
pub reactivate_invited :
    (u : User) (who hashed : String) (now later : ℕ)
    → u.status ≡ invited
    → u.hashed_password ≡ none
    → (v : User) × (e : Event) × (reactivate u who now ≡ ok (v, e))
      × (is_login_eligible v ≡ true)
      × (v.hashed_password ≡ none)
      × (activate v hashed later ≡ err illegal_user_status_transition)
unfolding reactivate activate is_login_eligible
reactivate_invited u who hashed now later i p = (
  record u { status = active; updated_at = now },
  user_status_changed u.id u.tenant_id u.status active who "",
  ground arith,
  ground arith,
  p,
  ground arith,
)
