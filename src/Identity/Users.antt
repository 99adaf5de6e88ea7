-- ===== src/Identity/Users.antt =====
-- contexts/identity/application/handlers_user.py: invitations, roles and the status of accounts.
-- `ChangePasswordHandler` stands with the other commands that end sessions.
pub mod Owners
use novaapi.Common.{ℕ, String, Bool, true, false, not, Option, none, some, leb, ◌==◌, if◌then◌else◌}
use novaapi.Errors.{
  Result, ok, err, user_not_found, role_not_found, email_already_registered, last_owner_removal,
  invalid_or_expired_token,
}
use novaapi.Session.{Exec, Session, pure, raise, lift, commit, gets, modify, ◌>>=◌, ◌>>◌}
use novaapi.Identity.Types.{Role, RoleName, same_role, is_owner}
use novaapi.Identity.User.{
  User, invite, activate, suspend, reactivate, deactivate_account, change_role, revoke_all_sessions,
}
use novaapi.Identity.Tokens.{OneTimeToken, issue_invitation, assert_valid, mark_used}
use novaapi.Identity.Events.{Event, all_sessions_revoked}
use novaapi.Identity.Database.{
  Db, user, user_by_id, email_exists, role_by_name, one_time_by_hash, count_active_owners,
  save_user, save_invitation, revoke_all_active_for_user, append,
}
use novaapi.Identity.Auth.{Clock, Crypto, validate_password}
use novaapi.Identity.Sessions.{user_or_404}

-- The user as a command of the tenant finds it: another tenant's user is not found.
abbrev visible : ℕ → Option User → Result User
visible tenant_id none = err user_not_found
visible tenant_id (some u) = if not (u.tenant_id == tenant_id) then err user_not_found else ok u

-- `get_by_id`, the check for `None` and `_assert_same_tenant`.
unfoldable pub load_user : ℕ → ℕ → Exec Db User
unfolding user_by_id
load_user user_id tenant_id = do found ← gets (user_by_id user_id); lift (visible tenant_id found)

-- `_assert_not_last_owner`, on the number of active owners that the query counts.
unfoldable pub assert_not_last_owner : User → ℕ → Result (Unit {0})
unfolding is_owner
assert_not_last_owner u active_owners =
    if not (is_owner u.role.name)
    then ok tt
    else if leb active_owners 1
    then err last_owner_removal
    else ok tt

abbrev role_or_404 : Option Role → Result Role
role_or_404 none = err role_not_found
role_or_404 (some r) = ok r

-- The writes of a command that changes a user and appends the event of it.
unfoldable pub store_user : User → Event → ℕ → Exec Db User
unfolding save_user append
store_user u event now = do
  save_user u (some u.version)
  append (user u.id) event (some u.tenant_id) now
  commit
  pure u

-- The writes of a command that also ends the sessions of the user.
unfoldable pub store_and_revoke : User → Event → String → Clock → Exec Db User
unfolding save_user revoke_all_active_for_user append revoke_all_sessions
store_and_revoke u event reason clock = do
  let u' = revoke_all_sessions u (clock 1)
  save_user u' (some u'.version)
  revoke_all_active_for_user u'.id (clock 2)
  append (user u'.id) event (some u'.tenant_id) (clock 3)
  append (user u'.id) (all_sessions_revoked u'.id u'.tenant_id reason) (some u'.tenant_id) (clock 4)
  commit
  pure u'

abbrev absent : Bool → Result (Unit {0})
absent true = err email_already_registered
absent false = ok tt

-- The result is the user; the raw token is the caller's argument.
unfoldable pub invite_user :
    Crypto → ℕ → ℕ → String → ℕ → String → RoleName → String → Clock → Exec Db User
unfolding email_exists role_by_name invite save_user append issue_invitation save_invitation
invite_user crypto new_id token_id raw_token tenant_id email role_name invited_by clock = do
  known ← gets (email_exists email)
  lift (absent known)
  found ← gets (role_by_name role_name)
  role ← lift (role_or_404 found)
  let (u, event) = invite new_id (clock 0) tenant_id email role invited_by
  save_user u none
  append (user u.id) event (some tenant_id) (clock 1)
  save_invitation (issue_invitation token_id (clock 2) u.id tenant_id (crypto.hash_token raw_token))
  commit
  pure u

abbrev usable : Clock → Option OneTimeToken → Result OneTimeToken
usable clock none = err invalid_or_expired_token
usable clock (some t) = assert_valid t (clock 0)

unfoldable pub accept_invitation : Crypto → String → String → Clock → Exec Db User
unfolding validate_password assert_valid activate save_user mark_used save_invitation append
    user_by_id
accept_invitation crypto presented password clock = do
  lift (validate_password password)
  found ← gets (λ db. one_time_by_hash (crypto.hash_token presented) db.invitation_tokens)
  t ← lift (usable clock found)
  owner ← gets (user_by_id t.user_id)
  u ← lift (user_or_404 owner)
  (u', event) ← lift (activate u (crypto.hash password) (clock 1))
  save_user u' (some u'.version)
  save_invitation (mark_used t (clock 2))
  append (user u'.id) event (some u'.tenant_id) (clock 3)
  commit
  pure u'

-- The check of the last owner runs only where the role changes.
abbrev guard_owner : Role → User → ℕ → Result (Unit {0})
guard_owner new_role u owners =
    if not (same_role new_role.name u.role.name) then assert_not_last_owner u owners else ok tt

unfoldable pub change_user_role : ℕ → ℕ → RoleName → String → Clock → Exec Db User
unfolding load_user role_by_name assert_not_last_owner same_role change_role store_user
    count_active_owners
change_user_role tenant_id user_id new_role_name changed_by clock = do
  u ← load_user user_id tenant_id
  found ← gets (role_by_name new_role_name)
  new_role ← lift (role_or_404 found)
  owners ← gets (count_active_owners u.tenant_id)
  lift (guard_owner new_role u owners)
  let (u', event) = change_role u new_role changed_by (clock 0)
  store_user u' event (clock 1)

unfoldable pub suspend_user : ℕ → ℕ → String → String → Clock → Exec Db User
unfolding load_user assert_not_last_owner suspend store_and_revoke count_active_owners
suspend_user tenant_id user_id changed_by reason clock = do
  u ← load_user user_id tenant_id
  owners ← gets (count_active_owners u.tenant_id)
  lift (assert_not_last_owner u owners)
  (u', event) ← lift (suspend u changed_by reason (clock 0))
  store_and_revoke u' event "user suspended" clock

unfoldable pub reactivate_user : ℕ → ℕ → String → Clock → Exec Db User
unfolding load_user reactivate store_user
reactivate_user tenant_id user_id changed_by clock = do
  u ← load_user user_id tenant_id
  (u', event) ← lift (reactivate u changed_by (clock 0))
  store_user u' event (clock 1)

unfoldable pub deactivate_user : ℕ → ℕ → String → String → Clock → Exec Db User
unfolding load_user assert_not_last_owner deactivate_account store_and_revoke count_active_owners
deactivate_user tenant_id user_id changed_by reason clock = do
  u ← load_user user_id tenant_id
  owners ← gets (count_active_owners u.tenant_id)
  lift (assert_not_last_owner u owners)
  (u', event) ← lift (deactivate_account u changed_by reason (clock 0))
  store_and_revoke u' event "user deactivated" clock
