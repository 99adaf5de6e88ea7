-- ===== src/Identity/Auth.antt =====
-- contexts/identity/application/handlers_auth.py and the checks of a request's access token in
-- interface/dependencies.py. Password hashing, token generation and the access token's encoding are
-- parameters; a fresh id, raw token and clock readings are arguments of a command.
pub mod Rotation
use Prim.Native.String.{String, count}
use novaapi.Common.{
  ℕ, ◌+◌, Bool, true, false, not, ◌&&◌, ◌||◌, Option, none, some, List, ltb, ◌==◌, if◌then◌else◌,
}
use novaapi.Common.Text.{is_empty}
use novaapi.Errors.{
  Error, Result, ok, err, invalid_credentials, user_not_active, user_not_found,
  invalid_or_expired_token, refresh_token_reuse_detected, weak_password, not_authenticated,
  permission_denied,
}
use novaapi.Session.{Exec, Session, pure, raise, lift, commit, gets, modify, ◌>>=◌, ◌>>◌}
use novaapi.Identity.Types.{
  RoleName, PermissionCode, UserStatus, invited, active, suspended, deactivated,
}
use novaapi.Identity.User.{User, is_login_eligible, record_login, set_password, revoke_all_sessions}
use novaapi.Identity.Tokens.{
  RefreshToken, issue_refresh, revoke, assert_active, OneTimeToken, issue_password_reset,
  assert_valid, mark_used, is_none, RevokedAccessToken,
}
use novaapi.Identity.Events.{
  user_logged_in, user_login_failed, refresh_token_issued, refresh_token_rotated,
  refresh_token_reused, refresh_token_revoked, password_reset_requested, password_reset_completed,
  all_sessions_revoked,
}
use novaapi.Identity.Database.{
  Db, user, refresh_token, login_attempt, user_by_id, user_by_email, refresh_by_hash,
  one_time_by_hash, is_revoked, save_user, save_refresh, save_reset, revoke_all_active_for_user,
  revoke_access, append,
}

abbrev pub Clock : Type 0
Clock = ℕ → ℕ

pub record AccessTokenClaims : Type 0 where
  pub user_id : ℕ
  pub tenant_id : ℕ
  pub role_name : RoleName
  pub permissions : PermissionCode → Bool
  pub token_generation : ℕ
  pub jti : String

-- `PasswordHasher`, `OpaqueTokenGenerator.hash_token` and `AccessTokenIssuer.issue`.
pub record Crypto : Type 0 where
  pub hash : String → String
  pub verify : String → String → Bool
  pub hash_token : String → String
  pub issue : AccessTokenClaims → String

-- `_claims_for`
unfoldable pub claims_for : User → AccessTokenClaims
claims_for u = record {
  user_id = u.id;
  tenant_id = u.tenant_id;
  role_name = u.role.name;
  permissions = u.role.permissions;
  token_generation = u.token_generation;
  jti = "";
}

-- `PasswordPolicy.validate`
unfoldable pub validate_password : String → Result (Unit {0})
validate_password password = if ltb (count password) 12 then err weak_password else ok tt

pub record AuthenticatedSession : Type 0 where
  pub user : User
  pub raw_refresh_token : String
  pub access_token : String

pub record RefreshedSession : Type 0 where
  pub raw_refresh_token : String
  pub access_token : String

abbrev status_reason : UserStatus → String
status_reason invited = "status_invited"
status_reason active = "status_active"
status_reason suspended = "status_suspended"
status_reason deactivated = "status_deactivated"

module _ (crypto : Crypto) where
  -- `_record_failure`: the failure is committed before the handler raises.
  unfoldable pub record_failure : {A : Type 0} → String → String → Error → ℕ → Exec Db A
  unfolding append
  record_failure email reason e now = do
    append (login_attempt email) (user_login_failed email reason) none now
    commit
    raise e

  -- `user.hashed_password is None or not verify(password, user.hashed_password)`
  abbrev pub wrong_password : String → Option String → Bool
  wrong_password password none = true
  wrong_password password (some hashed) = not (crypto.verify password hashed)

  -- `LoginHandler` behind its three checks.
  unfoldable pub open_session : ℕ → String → Clock → User → Exec Db AuthenticatedSession
  unfolding record_login save_user issue_refresh save_refresh append
  open_session new_id raw_refresh clock u = do
    let logged_in = record_login u (clock 0)
    save_user logged_in (some logged_in.version)
    let t = issue_refresh new_id (clock 1) u.id u.tenant_id (crypto.hash_token raw_refresh)
    save_refresh t
    append (user u.id) (user_logged_in u.id u.tenant_id) (some u.tenant_id) (clock 2)
    append (refresh_token t.id) (refresh_token_issued u.id u.tenant_id t.id) (some u.tenant_id)
        (clock 3)
    commit
    pure (record {
      user = logged_in;
      raw_refresh_token = raw_refresh;
      access_token = crypto.issue (claims_for logged_in);
    })

  login_checks : String → String → ℕ → String → Clock → Option User → Exec Db AuthenticatedSession
  unfolding record_failure open_session is_login_eligible
  login_checks email password new_id raw_refresh clock none =
      record_failure email "user_not_found" invalid_credentials (clock 0)
  login_checks email password new_id raw_refresh clock (some u) =
      if not (is_login_eligible u)
      then record_failure email (status_reason u.status) user_not_active (clock 0)
      else if wrong_password password u.hashed_password
      then record_failure email "wrong_password" invalid_credentials (clock 0)
      else open_session new_id raw_refresh clock u

  unfoldable pub login : String → String → ℕ → String → Clock → Exec Db AuthenticatedSession
  unfolding login_checks
  login email password new_id raw_refresh clock = do
    found ← gets (user_by_email email)
    login_checks email password new_id raw_refresh clock found

  -- A revoked token was presented again: every refresh token of the user is revoked.
  unfoldable pub reuse_detected : RefreshToken → Clock → Exec Db RefreshedSession
  unfolding revoke_all_active_for_user append
  reuse_detected t clock = do
    revoke_all_active_for_user t.user_id (clock 0)
    append (refresh_token t.id) (refresh_token_reused t.user_id t.tenant_id t.id) (some t.tenant_id)
        (clock 1)
    commit
    raise refresh_token_reuse_detected

  -- `if user is None or not user.is_login_eligible(): raise UserNotActiveError`
  abbrev eligible : Option User → Result User
  eligible none = err user_not_active
  eligible (some u) = if not (is_login_eligible u) then err user_not_active else ok u

  -- The rotation of an active token.
  unfoldable pub rotate : RefreshToken → ℕ → String → Clock → Exec Db RefreshedSession
  unfolding assert_active issue_refresh revoke save_refresh append is_login_eligible
  rotate t new_id raw_refresh clock = do
    lift (assert_active t (clock 0))
    found ← gets (user_by_id t.user_id)
    u ← lift (eligible found)
    let new_token =
        issue_refresh new_id (clock 1) t.user_id t.tenant_id (crypto.hash_token raw_refresh)
    save_refresh new_token
    save_refresh (revoke t (some new_token.id) (clock 2))
    append (refresh_token new_token.id) (refresh_token_rotated u.id u.tenant_id t.id new_token.id)
        (some u.tenant_id) (clock 3)
    commit
    pure (record { raw_refresh_token = raw_refresh; access_token = crypto.issue (claims_for u) })

  refresh_checks : ℕ → String → Clock → Option RefreshToken → Exec Db RefreshedSession
  unfolding reuse_detected rotate
  refresh_checks new_id raw_refresh clock none = raise invalid_or_expired_token
  refresh_checks new_id raw_refresh clock (some t) =
      if not (is_none t.revoked_at)
      then reuse_detected t clock
      else rotate t new_id raw_refresh clock

  unfoldable pub refresh_access_token : String → ℕ → String → Clock → Exec Db RefreshedSession
  unfolding refresh_checks
  refresh_access_token presented new_id raw_refresh clock = do
    found ← gets (refresh_by_hash (crypto.hash_token presented))
    refresh_checks new_id raw_refresh clock found
