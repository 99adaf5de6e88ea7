-- ===== src/Identity/User.antt =====
-- The `User` aggregate of contexts/identity/domain/entities.py. A method that mutates the object
-- returns the new record; what `datetime.now` returns is an argument.
pub mod Status
use novaapi.Common.{ℕ, ◌+◌, String, Bool, true, false, Option, none, some, if◌then◌else◌}
use novaapi.Errors.{Result, ok, err, illegal_user_status_transition}
use novaapi.Identity.Types.{
  Role, UserStatus, invited, active, suspended, deactivated, PermissionCode, has_permission,
  is_active_status,
}
use novaapi.Identity.Events.{
  Event, user_invited, user_activated, user_role_changed, user_status_changed,
}

pub record User : Type 0 where
  pub id : ℕ
  pub tenant_id : ℕ
  pub email : String
  pub hashed_password : Option String
  pub role : Role
  pub status : UserStatus
  pub created_at : ℕ
  pub updated_at : ℕ
  pub last_login_at : Option ℕ
  pub version : ℕ
  pub token_generation : ℕ

unfoldable pub invite : ℕ → ℕ → ℕ → String → Role → String → User × Event
invite new_id now tenant_id email role invited_by = (
  record {
    id = new_id;
    tenant_id = tenant_id;
    email = email;
    hashed_password = none;
    role = role;
    status = invited;
    created_at = now;
    updated_at = now;
    last_login_at = none;
    version = 0;
    token_generation = 0;
  },
  user_invited new_id tenant_id email role.name invited_by,
)

-- `_LEGAL_STATUS_TRANSITIONS`: whether the second status may follow the first.
unfoldable pub legal_status : UserStatus → UserStatus → Bool
legal_status invited active = true
legal_status active suspended = true
legal_status active deactivated = true
legal_status suspended active = true
legal_status suspended deactivated = true
legal_status deactivated active = true
legal_status _ _ = false

unfoldable pub transition_status : User → UserStatus → String → String → ℕ → Result (User × Event)
unfolding legal_status
transition_status u new_status changed_by reason now =
    if legal_status u.status new_status
    then ok (
      record u { status = new_status; updated_at = now },
      user_status_changed u.id u.tenant_id u.status new_status changed_by reason,
    )
    else err illegal_user_status_transition

abbrev is_invited : UserStatus → Bool
is_invited invited = true
is_invited _ = false

unfoldable pub activate : User → String → ℕ → Result (User × Event)
activate u hashed now =
    if is_invited u.status
    then ok (
      record u { hashed_password = some hashed; status = active; updated_at = now },
      user_activated u.id u.tenant_id,
    )
    else err illegal_user_status_transition

unfoldable pub suspend : User → String → String → ℕ → Result (User × Event)
unfolding transition_status
suspend u changed_by reason now = transition_status u suspended changed_by reason now

unfoldable pub reactivate : User → String → ℕ → Result (User × Event)
unfolding transition_status
reactivate u changed_by now = transition_status u active changed_by "" now

unfoldable pub deactivate_account : User → String → String → ℕ → Result (User × Event)
unfolding transition_status
deactivate_account u changed_by reason now = transition_status u deactivated changed_by reason now

unfoldable pub change_role : User → Role → String → ℕ → User × Event
change_role u new_role changed_by now = (
  record u { role = new_role; updated_at = now },
  user_role_changed u.id u.tenant_id u.role.name new_role.name changed_by,
)

unfoldable pub set_password : User → String → ℕ → User
set_password u hashed now = record u { hashed_password = some hashed; updated_at = now }

unfoldable pub record_login : User → ℕ → User
record_login u now = record u { last_login_at = some now }

unfoldable pub revoke_all_sessions : User → ℕ → User
revoke_all_sessions u now = record u { token_generation = u.token_generation + 1; updated_at = now }

unfoldable pub user_has_permission : User → PermissionCode → Bool
unfolding has_permission
user_has_permission u code = has_permission u.role code

unfoldable pub is_login_eligible : User → Bool
unfolding is_active_status
is_login_eligible u = is_active_status u.status
