-- ===== src/Identity/Auth/Rotation.antt =====
-- What a login and the rotation of a refresh token do.
use novaapi.Common.{ℕ, String, ◌≡◌, ◌≢◌, ◌⊎◌, true, false, some, all, arith, Option-cases, inl, inr}
use novaapi.Common.Table.{find, put, find-put_self, find-put_ne}
use novaapi.Errors.{
  Error, ok, err, invalid_credentials, user_not_active, refresh_token_reuse_detected,
}
use novaapi.Session.{in_session}
use novaapi.Identity.User.{User, is_login_eligible, record_login}
use novaapi.Identity.Tokens.{RefreshToken, is_none, is_active, issue_refresh, revoke}
use novaapi.Identity.Database.{Db, user_by_email, user_by_id, refresh_by_hash, refresh_key}
use novaapi.Identity.Database.Dead.{is_dead, revoke_all-all_dead}
use novaapi.Identity.Auth.{
  Clock, Crypto, AuthenticatedSession, login, refresh_access_token, wrong_password,
}

module _ (crypto : Crypto) (clock : Clock) (db : Db) where
  -- A login that succeeds is one of the user of that email, who is active and whose password
  -- verifies, and it returns that user with the time of the login.
  pub login_sound :
      (email password raw : String) (new_id : ℕ) (s : AuthenticatedSession)
      → (in_session (login crypto email password new_id raw clock) db).0 ≡ ok s
      → (u : User) × (user_by_email email db ≡ some u)
        × (is_login_eligible u ≡ true)
        × (wrong_password crypto password u.hashed_password ≡ false)
        × (s.user ≡ record_login u (clock 0))
  unfolding login
  login_sound email password raw new_id s h = elim (Option-cases (user_by_email email db)) [
    | inl missing ↦ ground arith
    | inr (u, f) ↦ (u, f, ground arith, ground arith, ground arith)
  ]

  -- Where an email is found under its own key, a login that fails changes no user and no refresh
  -- token, and raises the error for wrong credentials or the one for an account that is not active.
  pub login_failure :
      (email password raw : String) (new_id : ℕ) (e : Error)
      → ((u : User) → user_by_email email db ≡ some u → user_by_id u.id db ≡ some u)
      → (in_session (login crypto email password new_id raw clock) db).0 ≡ err e
      → ((in_session (login crypto email password new_id raw clock) db).1.users ≡ db.users)
        × ((in_session (login crypto email password new_id raw clock) db).1.refresh_tokens
            ≡ db.refresh_tokens)
        × ((e ≡ invalid_credentials) ⊎ (e ≡ user_not_active))
  unfolding login user_by_id
  login_failure email password raw new_id e unique h =
      elim (Option-cases (user_by_email email db)) [
        | inl missing ↦ ground arith
        | inr (u, f) ↦ ground (arith, unique u f)
      ]

  -- For an active user and a new id that is not the old one, the rotation of an active refresh token
  -- stores it as revoked and replaced by the new one, stores the new one, and changes no user; the
  -- old token is active no more.
  pub rotate_lem :
      (presented raw : String) (new_id : ℕ) (t : RefreshToken) (u : User)
      → refresh_by_hash (crypto.hash_token presented) db ≡ some t
      → is_active t (clock 0) ≡ true
      → user_by_id t.user_id db ≡ some u
      → is_login_eligible u ≡ true
      → new_id ≢ t.id
      → let fresh = issue_refresh new_id (clock 1) t.user_id t.tenant_id (crypto.hash_token raw) in
        let after = (in_session (refresh_access_token crypto presented new_id raw clock) db).1 in
        (find refresh_key t.id after.refresh_tokens ≡ some (revoke t (some new_id) (clock 2)))
        × (find refresh_key new_id after.refresh_tokens ≡ some fresh)
        × (is_active (revoke t (some new_id) (clock 2)) (clock 2) ≡ false)
        × (after.users ≡ db.users)
  unfolding refresh_access_token
  rotate_lem presented raw new_id t u f a v e ne =
      let fresh : RefreshToken =
        issue_refresh new_id (clock 1) t.user_id t.tenant_id (crypto.hash_token raw) in
      let old : RefreshToken = revoke t (some new_id) (clock 2) in
      let one = put refresh_key fresh db.refresh_tokens in
      (
        ground (arith, find-put_self refresh_key old one),
        ground (
          arith,
          find-put_ne refresh_key old new_id one ne,
          find-put_self refresh_key fresh db.refresh_tokens,
        ),
        ground arith,
        ground arith,
      )

  -- A revoked token that is presented again revokes every refresh token of its user, and leaves the
  -- users, with the generation of their access tokens, as they were.
  pub reuse_lem :
      (presented raw : String) (new_id : ℕ) (t : RefreshToken)
      → refresh_by_hash (crypto.hash_token presented) db ≡ some t
      → is_none t.revoked_at ≡ false
      → let (result, after) =
          in_session (refresh_access_token crypto presented new_id raw clock) db in
        (result ≡ err refresh_token_reuse_detected)
        × (all (is_dead t.user_id) after.refresh_tokens ≡ true)
        × (after.users ≡ db.users)
  unfolding refresh_access_token
  reuse_lem presented raw new_id t f r = (
    ground arith,
    ground (arith, revoke_all-all_dead t.user_id (clock 0) db.refresh_tokens),
    ground arith,
  )
