-- ===== src/Identity/Events.antt =====
-- contexts/identity/domain/events.py: an event is its payload.
use novaapi.Common.{ℕ, String}
use novaapi.Identity.Types.{RoleName, UserStatus}

pub data Event : Type 0 where
  -- user, tenant, email, role, invited by
  user_invited : ℕ → ℕ → String → RoleName → String → Event
  -- user, tenant
  user_activated : ℕ → ℕ → Event
  -- user, tenant, old role, new role, changed by
  user_role_changed : ℕ → ℕ → RoleName → RoleName → String → Event
  -- user, tenant, old status, new status, changed by, reason
  user_status_changed : ℕ → ℕ → UserStatus → UserStatus → String → String → Event
  user_logged_in : ℕ → ℕ → Event
  -- email, reason
  user_login_failed : String → String → Event
  -- user, tenant, refresh token
  refresh_token_issued : ℕ → ℕ → ℕ → Event
  -- user, tenant, old refresh token, new refresh token
  refresh_token_rotated : ℕ → ℕ → ℕ → ℕ → Event
  refresh_token_reused : ℕ → ℕ → ℕ → Event
  -- user, tenant, refresh token, reason
  refresh_token_revoked : ℕ → ℕ → ℕ → String → Event
  password_reset_requested password_reset_completed password_changed : ℕ → ℕ → Event
  -- user, tenant, reason
  all_sessions_revoked : ℕ → ℕ → String → Event
