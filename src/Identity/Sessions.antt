-- ===== src/Identity/Sessions.antt =====
-- The rest of contexts/identity/application/handlers_auth.py, the end of sessions, and the check of
-- a request's access token in contexts/identity/interface/dependencies.py.
pub mod Revocation
use novaapi.Common.{
  ℕ, ◌+◌, String, Bool, true, false, not, ◌&&◌, ◌||◌, Option, none, some, ◌==◌, if◌then◌else◌,
}
use novaapi.Common.Text.{is_empty}
use novaapi.Errors.{
  Result, ok, err, invalid_credentials, user_not_active, user_not_found, invalid_or_expired_token,
  not_authenticated, permission_denied,
}
use novaapi.Session.{Exec, Session, pure, raise, lift, commit, gets, modify, ◌>>=◌, ◌>>◌}
use novaapi.Identity.Types.{PermissionCode}
use novaapi.Identity.User.{User, is_login_eligible, set_password, revoke_all_sessions}
use novaapi.Identity.Tokens.{
  RefreshToken, revoke, OneTimeToken, issue_password_reset, assert_valid, mark_used, is_none,
  RevokedAccessToken,
}
use novaapi.Identity.Events.{
  refresh_token_revoked, password_reset_requested, password_reset_completed, password_changed,
  all_sessions_revoked,
}
use novaapi.Identity.Database.{
  Db, user, refresh_token, user_by_id, user_by_email, refresh_by_hash, one_time_by_hash, is_revoked,
  save_user, save_refresh, save_reset, revoke_all_active_for_user, revoke_access, append,
}
use novaapi.Identity.Auth.{Clock, Crypto, AccessTokenClaims, validate_password, wrong_password}

-- `if user is None: raise UserNotFoundError`
abbrev pub user_or_404 : Option User → Result User
user_or_404 none = err user_not_found
user_or_404 (some u) = ok u

-- The refresh half of a logout, and whether it changed anything.
unfoldable pub end_refresh : Option RefreshToken → Clock → Exec Db Bool
unfolding revoke save_refresh append
end_refresh none clock = pure false
end_refresh (some t) clock =
    if is_none t.revoked_at
    then (do
      save_refresh (revoke t none (clock 0))
      append (refresh_token t.id) (refresh_token_revoked t.user_id t.tenant_id t.id "logout")
          (some t.tenant_id) (clock 1)
      pure true)
    else pure false

-- The access half: the token's `jti` goes on the denylist.
unfoldable pub end_access : Option (AccessTokenClaims × Option ℕ) → Clock → Exec Db Bool
unfolding revoke_access is_revoked
end_access none clock = pure false
end_access (some (claims, none)) clock = pure false
end_access (some (claims, some expires_at)) clock = do
  known ← gets (is_revoked claims.jti)
  if is_empty claims.jti || known then pure false else (do
    revoke_access (record {
      jti = claims.jti;
      user_id = claims.user_id;
      tenant_id = claims.tenant_id;
      revoked_at = clock 2;
      expires_at = expires_at;
    })
    pure true)

module _ (crypto : Crypto) where
  unfoldable pub logout :
      String → Option (AccessTokenClaims × Option ℕ) → Clock → Exec Db (Unit {0})
  unfolding end_refresh end_access
  logout presented access clock = do
    found ← gets (refresh_by_hash (crypto.hash_token presented))
    refresh_changed ← end_refresh found clock
    access_changed ← end_access access clock
    if refresh_changed || access_changed then commit else pure tt

  request_reset_for : ℕ → String → Clock → Option User → Exec Db (Unit {0})
  unfolding issue_password_reset save_reset append
  request_reset_for new_id raw_token clock none = pure tt
  request_reset_for new_id raw_token clock (some u) = do
    save_reset
        (issue_password_reset new_id (clock 0) u.id u.tenant_id (crypto.hash_token raw_token))
    append (user u.id) (password_reset_requested u.id u.tenant_id) (some u.tenant_id) (clock 1)
    commit

  unfoldable pub request_password_reset : String → ℕ → String → Clock → Exec Db (Unit {0})
  unfolding request_reset_for
  request_password_reset email new_id raw_token clock = do
    found ← gets (user_by_email email)
    request_reset_for new_id raw_token clock found

  -- `if reset_token is None: raise`, then `assert_valid`.
  abbrev usable : Clock → Option OneTimeToken → Result OneTimeToken
  usable clock none = err invalid_or_expired_token
  usable clock (some t) = assert_valid t (clock 0)

  unfoldable pub reset_password : String → String → Clock → Exec Db User
  unfolding assert_valid validate_password set_password revoke_all_sessions save_user mark_used
      save_reset revoke_all_active_for_user append user_by_id
  reset_password presented new_password clock = do
    lift (validate_password new_password)
    found ← gets (λ db. one_time_by_hash (crypto.hash_token presented) db.reset_tokens)
    t ← lift (usable clock found)
    owner ← gets (user_by_id t.user_id)
    u ← lift (user_or_404 owner)
    let u' = revoke_all_sessions (set_password u (crypto.hash new_password) (clock 1)) (clock 2)
    save_user u' (some u'.version)
    save_reset (mark_used t (clock 3))
    revoke_all_active_for_user u'.id (clock 4)
    append (user u'.id) (password_reset_completed u'.id u'.tenant_id) (some u'.tenant_id) (clock 5)
    append (user u'.id) (all_sessions_revoked u'.id u'.tenant_id "password reset")
        (some u'.tenant_id) (clock 6)
    commit
    pure u'

  -- `ChangePasswordHandler` of handlers_user.py.
  unfoldable pub change_password : ℕ → String → String → Clock → Exec Db User
  unfolding validate_password set_password revoke_all_sessions save_user revoke_all_active_for_user
      append user_by_id
  change_password user_id current_password new_password clock = do
    found ← gets (user_by_id user_id)
    u ← lift (user_or_404 found)
    if wrong_password crypto current_password u.hashed_password
        then raise invalid_credentials
        else (do
          lift (validate_password new_password)
          let u' =
              revoke_all_sessions (set_password u (crypto.hash new_password) (clock 0)) (clock 1)
          save_user u' (some u'.version)
          revoke_all_active_for_user u'.id (clock 2)
          append (user u'.id) (password_changed u'.id u'.tenant_id) (some u'.tenant_id) (clock 3)
          append (user u'.id) (all_sessions_revoked u'.id u'.tenant_id "password changed")
              (some u'.tenant_id) (clock 4)
          commit
          pure u')

unfoldable pub revoke_all_user_sessions : ℕ → Clock → Exec Db (Unit {0})
unfolding revoke_all_sessions save_user revoke_all_active_for_user append user_by_id
revoke_all_user_sessions user_id clock = do
  found ← gets (user_by_id user_id)
  u ← lift (user_or_404 found)
  let u' = revoke_all_sessions u (clock 0)
  save_user u' (some u'.version)
  revoke_all_active_for_user u'.id (clock 1)
  append (user u'.id) (all_sessions_revoked u'.id u'.tenant_id "user requested") (some u'.tenant_id)
      (clock 2)
  commit

-- The checks of `get_current_claims` on the user that the claims name.
unfoldable pub check_user : AccessTokenClaims → Option User → Result AccessTokenClaims
unfolding is_login_eligible
check_user claims none = err user_not_found
check_user claims (some u) =
    if not (is_login_eligible u)
    then err user_not_active
    else if not (u.token_generation == claims.token_generation)
    then err not_authenticated
    else ok claims

-- `get_current_claims` on the claims that the token decodes to.
unfoldable pub get_current_claims : AccessTokenClaims → Db → Result AccessTokenClaims
unfolding check_user is_revoked user_by_id
get_current_claims claims db =
    if not (is_empty claims.jti) && is_revoked claims.jti db
    then err not_authenticated
    else check_user claims (user_by_id claims.user_id db)

abbrev allow : PermissionCode → Result AccessTokenClaims → Result AccessTokenClaims
allow code (ok claims) = if claims.permissions code then ok claims else err permission_denied
allow code (err e) = err e

-- `require_permission`
unfoldable pub require_permission :
    PermissionCode → AccessTokenClaims → Db → Result AccessTokenClaims
unfolding get_current_claims
require_permission code claims db = allow code (get_current_claims claims db)
