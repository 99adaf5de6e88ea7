-- ===== src/Identity/Tests.antt =====
-- The theorems on sessions and accounts at concrete inputs.
use text.Mathlib.Text.{◌==◌ as str_eq}
use novaapi.Common.{◌+◌, ◌≤◌, String, ◌≡◌, refl, ◌≢◌, true, false, none, some, [], ◌∷◌, arith, all}
use novaapi.Common.Table.{find}
use novaapi.Errors.{ok, err, illegal_user_status_transition, refresh_token_reuse_detected}
use novaapi.Session.{in_session}
use novaapi.Identity.Types.{Role, owner, analyst, active, invited, role_permissions}
use novaapi.Identity.Events.{Event}
use novaapi.Identity.User.{User, reactivate, activate, is_login_eligible, record_login}
use novaapi.Identity.User.Status.{reactivate_invited}
use novaapi.Identity.Tokens.{
  RefreshToken, OneTimeToken, is_active, issue_refresh, revoke, mark_used, assert_valid,
}
use novaapi.Identity.Database.{
  Db, user_by_id, user_by_email, refresh_key, one_time_key, count_active_owners, refresh_by_hash,
  one_time_by_hash, is_active_owner,
}
use novaapi.Identity.Database.Dead.{is_dead}
use novaapi.Identity.Auth.{
  Clock, Crypto, login, wrong_password, validate_password, refresh_access_token, claims_for,
}
use novaapi.Identity.Auth.Rotation.{login_sound, rotate_lem, reuse_lem}
use novaapi.Identity.Sessions.{
  get_current_claims, reset_password, change_password, revoke_all_user_sessions,
}
use novaapi.Identity.Sessions.Revocation.{
  SessionsEnded, SessionsEnded-refuses, SessionsEnded-refresh_access_token, reset_to,
  reset_password-SessionsEnded, change_to, change_password-SessionsEnded,
}
use novaapi.Identity.Users.{suspend_user}
use novaapi.Identity.Users.Owners.{suspend_user-owner}

abbrev clock : Clock
clock k = 100 + k

-- A stand-in for the hashing and signing that the program takes from elsewhere.
abbrev plain_text : Crypto
plain_text = record {
  hash = λ p. p;
  verify = λ p h. str_eq p h;
  hash_token = λ t. t;
  issue = λ c. "signed";
}

abbrev owner_role : Role
owner_role = record { id = 1; name = owner; description = ""; permissions = role_permissions owner }

abbrev analyst_role : Role
analyst_role = record {
  id = 2;
  name = analyst;
  description = "";
  permissions = role_permissions analyst;
}

abbrev ana : User
ana = record {
  id = 1;
  tenant_id = 9;
  email = "ana@x";
  hashed_password = some "correct horse";
  role = owner_role;
  status = active;
  created_at = 1;
  updated_at = 1;
  last_login_at = none;
  version = 4;
  token_generation = 2;
}

abbrev bo : User
bo = record ana { id = 2; email = "bo@x" }

abbrev guest : User
guest = record ana { id = 3; email = "c@x"; status = invited; hashed_password = none }

abbrev live : RefreshToken
live = record {
  id = 20;
  user_id = 1;
  tenant_id = 9;
  token_hash = "r";
  issued_at = 1;
  expires_at = 500;
  revoked_at = none;
  replaced_by_id = none;
}

abbrev spent : RefreshToken
spent = record live { id = 21; token_hash = "s"; revoked_at = some 2 }

abbrev ticket : OneTimeToken
ticket = record {
  id = 30;
  user_id = 1;
  tenant_id = 9;
  token_hash = "t";
  created_at = 1;
  expires_at = 500;
  used_at = none;
}

abbrev db : Db
db = record {
  users = ana ∷ bo ∷ guest ∷ [];
  roles = owner_role ∷ analyst_role ∷ [];
  refresh_tokens = live ∷ spent ∷ [];
  reset_tokens = ticket ∷ [];
  invitation_tokens = [];
  revoked_access_tokens = [];
  outbox = [];
}

reactivate_invited_example :
    (v : User) × (e : Event) × (reactivate guest "root" 5 ≡ ok (v, e))
    × (is_login_eligible v ≡ true)
    × (v.hashed_password ≡ none)
    × (activate v "h" 6 ≡ err illegal_user_status_transition)
reactivate_invited_example = reactivate_invited guest "root" "h" 5 6 refl refl

abbrev after_revoke : Db
after_revoke = (in_session (revoke_all_user_sessions 1 clock) db).1

abbrev new_password : String
new_password = "a longer secret"

reset_password-SessionsEnded_example :
    SessionsEnded 1 ana
      (reset_to plain_text clock ana db new_password)
      db
      (in_session (reset_password plain_text "t" new_password clock) db).1
    × (find one_time_key 30
          (in_session (reset_password plain_text "t" new_password clock) db).1.reset_tokens
        ≡ some (mark_used ticket (clock 3)))
unfolding validate_password one_time_by_hash assert_valid user_by_id
reset_password-SessionsEnded_example =
    reset_password-SessionsEnded plain_text clock ana db "t" new_password ticket refl refl refl refl

ana-SessionsEnded :
    SessionsEnded 1 ana
      (change_to plain_text clock ana db new_password)
      db
      (in_session (change_password plain_text 1 "correct horse" new_password clock) db).1
unfolding validate_password user_by_id
ana-SessionsEnded =
    change_password-SessionsEnded plain_text clock ana db 1 "correct horse" new_password refl refl
      refl

SessionsEnded-refuses_example :
    get_current_claims
      (claims_for ana)
      (in_session (change_password plain_text 1 "correct horse" new_password clock) db).1
    ≢ ok (claims_for ana)
unfolding claims_for
SessionsEnded-refuses_example =
    SessionsEnded-refuses 1 ana (change_to plain_text clock ana db new_password) db
      (in_session (change_password plain_text 1 "correct horse" new_password clock) db).1
      (claims_for ana) ana-SessionsEnded refl (omega arith)

SessionsEnded-refresh_access_token_example :
    (in_session
      (refresh_access_token plain_text "r" 40 "raw" clock)
      (in_session (change_password plain_text 1 "correct horse" new_password clock) db).1).0
    ≡ err refresh_token_reuse_detected
unfolding refresh_by_hash change_password
SessionsEnded-refresh_access_token_example =
    SessionsEnded-refresh_access_token plain_text clock 1 ana
      (change_to plain_text clock ana db new_password) db
      (in_session (change_password plain_text 1 "correct horse" new_password clock) db).1 "r" "raw"
      40 (record live { revoked_at = some 102 }) ana-SessionsEnded refl refl

suspend_user-owner_example :
    1 ≤ count_active_owners 9 (in_session (suspend_user 9 1 "root" "x" clock) db).1
unfolding count_active_owners is_active_owner
suspend_user-owner_example = suspend_user-owner 9 1 "root" clock db 9 (omega arith) "x"

login_sound_example :
    (u : User) × (user_by_email "ana@x" db ≡ some u)
    × (is_login_eligible u ≡ true)
    × (wrong_password plain_text "correct horse" u.hashed_password ≡ false)
    × (record_login ana 100 ≡ record_login u 100)
unfolding login user_by_email find
login_sound_example =
    login_sound plain_text clock db "ana@x" "correct horse" "raw" 40
      (record { user = record_login ana 100; raw_refresh_token = "raw"; access_token = "signed" })
      refl

rotate_lem_example :
    let fresh = issue_refresh 40 (clock 1) 1 9 "raw" in
    let after = (in_session (refresh_access_token plain_text "r" 40 "raw" clock) db).1 in
    (find refresh_key 20 after.refresh_tokens ≡ some (revoke live (some 40) (clock 2)))
    × (find refresh_key 40 after.refresh_tokens ≡ some fresh)
    × (is_active (revoke live (some 40) (clock 2)) (clock 2) ≡ false)
    × (after.users ≡ db.users)
unfolding refresh_by_hash is_active user_by_id is_login_eligible
rotate_lem_example =
    rotate_lem plain_text clock db "r" "raw" 40 live ana refl refl refl refl (omega arith)

reuse_lem_example :
    let (result, after) = in_session (refresh_access_token plain_text "s" 40 "raw" clock) db in
    (result ≡ err refresh_token_reuse_detected)
    × (all (is_dead 1) after.refresh_tokens ≡ true)
    × (after.users ≡ db.users)
unfolding refresh_by_hash
reuse_lem_example = reuse_lem plain_text clock db "s" "raw" 40 spent refl refl
