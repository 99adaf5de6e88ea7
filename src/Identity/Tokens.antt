-- ===== src/Identity/Tokens.antt =====
-- contexts/identity/domain/tokens.py. Times are seconds; the raw token is never stored, only what
-- the token generator hashes it to.
use novaapi.Common.{
  ℕ, ◌+◌, ◌*◌, String, Bool, true, false, ◌&&◌, Option, none, some, ltb, if◌then◌else◌,
}
use novaapi.Errors.{Result, ok, err, invalid_or_expired_token}

abbrev pub refresh_token_ttl : ℕ
refresh_token_ttl = 30 * 86400

abbrev pub password_reset_token_ttl : ℕ
password_reset_token_ttl = 3600

abbrev pub invitation_token_ttl : ℕ
invitation_token_ttl = 7 * 86400

-- `x is None`
abbrev pub is_none : {A : Type 0} → Option A → Bool
is_none none = true
is_none (some x) = false

pub record RefreshToken : Type 0 where
  pub id : ℕ
  pub user_id : ℕ
  pub tenant_id : ℕ
  pub token_hash : String
  pub issued_at : ℕ
  pub expires_at : ℕ
  pub revoked_at : Option ℕ
  pub replaced_by_id : Option ℕ

unfoldable pub issue_refresh : ℕ → ℕ → ℕ → ℕ → String → RefreshToken
issue_refresh new_id now user_id tenant_id token_hash = record {
  id = new_id;
  user_id = user_id;
  tenant_id = tenant_id;
  token_hash = token_hash;
  issued_at = now;
  expires_at = now + refresh_token_ttl;
  revoked_at = none;
  replaced_by_id = none;
}

unfoldable pub is_active : RefreshToken → ℕ → Bool
is_active t now = is_none t.revoked_at && ltb now t.expires_at

unfoldable pub revoke : RefreshToken → Option ℕ → ℕ → RefreshToken
revoke t replaced_by now = record t { revoked_at = some now; replaced_by_id = replaced_by }

unfoldable pub assert_active : RefreshToken → ℕ → Result RefreshToken
unfolding is_active
assert_active t now = if is_active t now then ok t else err invalid_or_expired_token

-- `PasswordResetToken` and `InvitationToken` have the same fields, methods and checks; they differ
-- in the time that they live.
pub record OneTimeToken : Type 0 where
  pub id : ℕ
  pub user_id : ℕ
  pub tenant_id : ℕ
  pub token_hash : String
  pub created_at : ℕ
  pub expires_at : ℕ
  pub used_at : Option ℕ

unfoldable pub issue_password_reset : ℕ → ℕ → ℕ → ℕ → String → OneTimeToken
issue_password_reset new_id now user_id tenant_id token_hash = record {
  id = new_id;
  user_id = user_id;
  tenant_id = tenant_id;
  token_hash = token_hash;
  created_at = now;
  expires_at = now + password_reset_token_ttl;
  used_at = none;
}

unfoldable pub issue_invitation : ℕ → ℕ → ℕ → ℕ → String → OneTimeToken
issue_invitation new_id now user_id tenant_id token_hash = record {
  id = new_id;
  user_id = user_id;
  tenant_id = tenant_id;
  token_hash = token_hash;
  created_at = now;
  expires_at = now + invitation_token_ttl;
  used_at = none;
}

unfoldable pub is_valid : OneTimeToken → ℕ → Bool
is_valid t now = is_none t.used_at && ltb now t.expires_at

unfoldable pub mark_used : OneTimeToken → ℕ → OneTimeToken
mark_used t now = record t { used_at = some now }

unfoldable pub assert_valid : OneTimeToken → ℕ → Result OneTimeToken
unfolding is_valid
assert_valid t now = if is_valid t now then ok t else err invalid_or_expired_token

pub record RevokedAccessToken : Type 0 where
  pub jti : String
  pub user_id : ℕ
  pub tenant_id : ℕ
  pub revoked_at : ℕ
  pub expires_at : ℕ
