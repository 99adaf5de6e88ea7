-- ===== src/Identity/Sessions/Revocation.antt =====
-- The commands that end every session of a user: password reset, password change and revocation.
use text.Mathlib.Text.{◌==◌ as str_eq}
use novaapi.Common.{ℕ, ◌+◌, ◌≤◌, String, ◌≡◌, refl, ◌≢◌, true, false, some, all, arith}
use novaapi.Common.Table.{find, find-put_self, find-key}
use novaapi.Errors.{Error, ok, err, refresh_token_reuse_detected}
use novaapi.Session.{in_session}
use novaapi.Identity.User.{User}
use novaapi.Identity.Tokens.{RefreshToken, OneTimeToken, assert_valid, mark_used}
use novaapi.Identity.Database.{
  Db, user_key, user_by_id, one_time_key, one_time_by_hash, refresh_by_hash,
}
use novaapi.Identity.Database.Dead.{is_dead, revoke_all-all_dead, find_where-all}
use novaapi.Identity.Auth.{
  refresh_access_token, Clock, Crypto, AccessTokenClaims, validate_password, wrong_password,
}
use novaapi.Identity.Sessions.{
  reset_password, change_password, revoke_all_user_sessions, get_current_claims,
}

-- Between two states of the tables every session of the user has ended.
pub record SessionsEnded (user_id : ℕ) (old new : User) (db db' : Db) : Type 0 where
  pub was : user_by_id user_id db ≡ some old
  pub is_now : user_by_id user_id db' ≡ some new
  pub bumped : new.token_generation ≡ old.token_generation + 1
  pub no_refresh : all (is_dead user_id) db'.refresh_tokens ≡ true

-- Once every session of a user has ended, an access token of the user that carries a generation up
-- to the old one is refused.
pub SessionsEnded-refuses :
    (user_id : ℕ) (old new : User) (db db' : Db) (claims : AccessTokenClaims)
    → SessionsEnded user_id old new db db'
    → claims.user_id ≡ user_id
    → claims.token_generation ≤ old.token_generation
    → get_current_claims claims db' ≢ ok claims
unfolding get_current_claims
SessionsEnded-refuses user_id old new db db' claims s e g =
    let p : find user_key claims.user_id db'.users ≡ some new = rw e s.is_now in rw p (ground arith)

-- Once every session of a user has ended, each refresh token of the user that is presented is refused
-- as one that was used before.
pub SessionsEnded-refresh_access_token :
    (crypto : Crypto) (clock : Clock) (user_id : ℕ) (old new : User) (db db' : Db)
    (presented raw : String) (new_id : ℕ) (t : RefreshToken)
    → SessionsEnded user_id old new db db'
    → refresh_by_hash (crypto.hash_token presented) db' ≡ some t
    → t.user_id ≡ user_id
    → (in_session (refresh_access_token crypto presented new_id raw clock) db').0
      ≡ err refresh_token_reuse_detected
unfolding refresh_access_token refresh_by_hash
SessionsEnded-refresh_access_token crypto clock user_id old new db db' presented raw new_id t s f
      e =
    let dead : is_dead user_id t ≡ true =
      find_where-all (λ (x : RefreshToken). str_eq x.token_hash (crypto.hash_token presented))
        (is_dead user_id) db'.refresh_tokens t s.no_refresh f in
    ground arith

-- Revoking all sessions of a user that exists succeeds and ends every session of that user: the
-- generation goes up by one and no refresh token of the user is alive.
pub revoke_all_user_sessions-SessionsEnded :
    (user_id : ℕ) (clock : Clock) (old : User) (db : Db)
    → user_by_id user_id db ≡ some old
    → (new : User) × ((in_session (revoke_all_user_sessions user_id clock) db).0 ≡ ok tt)
      × SessionsEnded user_id old new db (in_session (revoke_all_user_sessions user_id clock) db).1
unfolding revoke_all_user_sessions
revoke_all_user_sessions-SessionsEnded user_id clock old db h =
    let same : old.id ≡ user_id = find-key user_key user_id db.users old h in
    let new : User = record old {
      updated_at = clock 0;
      version = old.version + 1;
      token_generation = old.token_generation + 1;
    } in
    (
      new,
      ground arith,
      record {
        was = h;
        is_now = ground (arith, find-put_self user_key new db.users);
        bumped = refl;
        no_refresh = ground (arith, revoke_all-all_dead user_id (clock 1) db.refresh_tokens);
      },
    )

module _ (crypto : Crypto) (clock : Clock) (old : User) (db : Db) where
  -- The user that a password reset at the given readings leaves.
  abbrev pub reset_to : String → User
  reset_to password = record old {
    hashed_password = some (crypto.hash password);
    updated_at = clock 2;
    version = old.version + 1;
    token_generation = old.token_generation + 1;
  }

  -- Where the new password is strong enough and the presented token is stored and valid, a password
  -- reset sets the password, ends every session of the user and uses the token up.
  pub reset_password-SessionsEnded :
      (presented password : String) (t : OneTimeToken)
      → validate_password password ≡ ok tt
      → one_time_by_hash (crypto.hash_token presented) db.reset_tokens ≡ some t
      → assert_valid t (clock 0) ≡ ok t
      → user_by_id t.user_id db ≡ some old
      → SessionsEnded t.user_id old
          (reset_to password)
          db
          (in_session (reset_password crypto presented password clock) db).1
        × (find one_time_key t.id
              (in_session (reset_password crypto presented password clock) db).1.reset_tokens
            ≡ some (mark_used t (clock 3)))
  unfolding reset_password
  reset_password-SessionsEnded presented password t strong found valid h =
      let same : old.id ≡ t.user_id = find-key user_key t.user_id db.users old h in
      (
        record {
          was = h;
          is_now = ground (arith, find-put_self user_key (reset_to password) db.users);
          bumped = refl;
          no_refresh = ground (arith, revoke_all-all_dead t.user_id (clock 4) db.refresh_tokens);
        },
        ground (arith, find-put_self one_time_key (mark_used t (clock 3)) db.reset_tokens),
      )

  abbrev pub change_to : String → User
  change_to password = record old {
    hashed_password = some (crypto.hash password);
    updated_at = clock 1;
    version = old.version + 1;
    token_generation = old.token_generation + 1;
  }

  -- Where the new password is strong enough and the current one verifies, a change of the password
  -- sets it and ends every session of the user.
  pub change_password-SessionsEnded :
      (user_id : ℕ) (current password : String)
      → validate_password password ≡ ok tt
      → wrong_password crypto current old.hashed_password ≡ false
      → user_by_id user_id db ≡ some old
      → SessionsEnded user_id old
          (change_to password)
          db
          (in_session (change_password crypto user_id current password clock) db).1
  unfolding change_password
  change_password-SessionsEnded user_id current password strong right h =
      let same : old.id ≡ user_id = find-key user_key user_id db.users old h in
      record {
        was = h;
        is_now = ground (arith, find-put_self user_key (change_to password) db.users);
        bumped = refl;
        no_refresh = ground (arith, revoke_all-all_dead user_id (clock 2) db.refresh_tokens);
      }

-- A password change that fails on the way leaves the tables as they were.
pub change_password_atomic :
    (crypto : Crypto) (clock : Clock) (user_id : ℕ) (current password : String) (db : Db)
    (e : Error)
    → (in_session (change_password crypto user_id current password clock) db).0 ≡ err e
    → (in_session (change_password crypto user_id current password clock) db).1 ≡ db
unfolding change_password
change_password_atomic crypto clock user_id current password db e h = ground arith
