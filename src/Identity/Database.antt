-- ===== src/Identity/Database.antt =====
-- contexts/identity/infrastructure/repositories.py: the tables that the session and account
-- commands use, a row and the object that the mappers make of it being one record.
pub mod Dead
use Prim.Native.String.{String}
use text.Mathlib.Text.{◌==◌ as str_eq}
use novaapi.Common.{
  ℕ, suc, ◌+◌, ◌≡◌, Bool, true, false, ◌&&◌, not, Option, none, some, List, [], ◌∷◌, map, filter,
  length, Eq, eq_iff, ◌==◌, if◌then◌else◌, arith, any,
}
use novaapi.Common.Table.{find, put}
use novaapi.Errors.{Result, ok, err, identity_concurrency}
use novaapi.Session.{Exec, Session, gets, modify}
use novaapi.Outbox.{OutboxEvent, append_event}
use novaapi.Identity.Types.{Role, RoleName, same_role, is_owner, UserStatus, is_active_status}
use novaapi.Identity.User.{User}
use novaapi.Identity.Tokens.{RefreshToken, OneTimeToken, RevokedAccessToken, is_none}
use novaapi.Identity.Events.{Event}

-- `aggregate_type` with `aggregate_id`.
pub data Aggregate : Type 0 where
  user : ℕ → Aggregate
  refresh_token : ℕ → Aggregate
  login_attempt : String → Aggregate

abbrev pub same_aggregate : Aggregate → Aggregate → Bool
same_aggregate (user a) (user b) = a == b
same_aggregate (refresh_token a) (refresh_token b) = a == b
same_aggregate (login_attempt a) (login_attempt b) = str_eq a b
same_aggregate _ _ = false

pub same_aggregate→≡ : (a b : Aggregate) → same_aggregate a b ≡ true → a ≡ b
same_aggregate→≡ (user a) (user b) h = ground arith
same_aggregate→≡ (login_attempt a) (login_attempt b) h = ground (arith, eq_iff a b)
same_aggregate→≡ _ _ h = ground arith

pub ≡→same_aggregate : (a b : Aggregate) → a ≡ b → same_aggregate a b ≡ true
≡→same_aggregate (user a) (user b) h = ground arith
≡→same_aggregate (login_attempt a) (login_attempt b) h = ground (arith, eq_iff a b)
≡→same_aggregate _ _ h = ground arith

instance abbrev pub aggregate_eq : Eq Aggregate
aggregate_eq = record {
  beq = same_aggregate;
  beq_iff = λ a b. (same_aggregate→≡ a b, ≡→same_aggregate a b);
}

pub record Db : Type 0 where
  pub users : List User
  pub roles : List Role
  pub refresh_tokens : List RefreshToken
  pub reset_tokens : List OneTimeToken
  pub invitation_tokens : List OneTimeToken
  pub revoked_access_tokens : List RevokedAccessToken
  pub outbox : List (OutboxEvent Aggregate Event)

abbrev pub user_key : User → ℕ
user_key u = u.id

abbrev pub refresh_key : RefreshToken → ℕ
refresh_key t = t.id

abbrev pub one_time_key : OneTimeToken → ℕ
one_time_key t = t.id

-- The first row that passes a test, as `scalar_one_or_none` where a unique index leaves one.
unfoldable pub find_where {ℓ} : {A : Type ℓ} → (A → Bool) → List A → Option A
find_where p [] = none
find_where p (x ∷ xs) = if p x then some x else find_where p xs

unfoldable pub user_by_id : ℕ → Db → Option User
unfolding find
user_by_id k db = find user_key k db.users

unfoldable pub user_by_email : String → Db → Option User
unfolding find_where
user_by_email email db = find_where (λ (u : User). str_eq u.email email) db.users

unfoldable pub email_exists : String → Db → Bool
email_exists email db = any (λ (u : User). str_eq u.email email) db.users

unfoldable pub role_by_name : RoleName → Db → Option Role
unfolding find_where
role_by_name name db = find_where (λ (r : Role). same_role r.name name) db.roles

-- An active user of the tenant with the role OWNER.
unfoldable pub is_active_owner : ℕ → User → Bool
unfolding is_owner is_active_status
is_active_owner tenant_id u =
    u.tenant_id == tenant_id && (is_owner u.role.name && is_active_status u.status)

unfoldable pub count_active_owners : ℕ → Db → ℕ
count_active_owners tenant_id db = length (filter (is_active_owner tenant_id) db.users)

unfoldable pub refresh_by_hash : String → Db → Option RefreshToken
unfolding find_where
refresh_by_hash h db = find_where (λ (t : RefreshToken). str_eq t.token_hash h) db.refresh_tokens

unfoldable pub one_time_by_hash : String → List OneTimeToken → Option OneTimeToken
unfolding find_where
one_time_by_hash h ts = find_where (λ (t : OneTimeToken). str_eq t.token_hash h) ts

unfoldable pub is_revoked : String → Db → Bool
is_revoked jti db = any (λ (t : RevokedAccessToken). str_eq t.jti jti) db.revoked_access_tokens

abbrev put_user : User → Db → Db
put_user u db = record db { users = put user_key u db.users }

-- `SqlAlchemyUserRepository.save` on the row that it finds.
abbrev save_row : User → Option ℕ → Option User → Db → Result Db
save_row u expected none db = ok (put_user (record u { version = 0 }) db)
save_row u none (some row) db = ok (put_user (record u { version = row.version + 1 }) db)
save_row u (some v) (some row) db =
    if not (row.version == v)
    then err identity_concurrency
    else ok (put_user (record u { version = row.version + 1 }) db)

abbrev write : Session Db → Result Db → Result (Unit {0}) × Session Db
write s (ok db) = (ok tt, record s { work = db })
write s (err e) = (err e, s)

unfoldable pub save_user : User → Option ℕ → Exec Db (Unit {0})
save_user u expected s = write s (save_row u expected (find user_key u.id s.work.users) s.work)

unfoldable pub save_refresh : RefreshToken → Exec Db (Unit {0})
save_refresh t = modify (λ db. record db { refresh_tokens = put refresh_key t db.refresh_tokens })

unfoldable pub save_reset : OneTimeToken → Exec Db (Unit {0})
save_reset t = modify (λ db. record db { reset_tokens = put one_time_key t db.reset_tokens })

unfoldable pub save_invitation : OneTimeToken → Exec Db (Unit {0})
save_invitation t =
    modify (λ db. record db { invitation_tokens = put one_time_key t db.invitation_tokens })

-- One row of `revoke_all_active_for_user`.
unfoldable pub revoke_if_active : ℕ → ℕ → RefreshToken → RefreshToken
revoke_if_active user_id now t =
    if t.user_id == user_id && is_none t.revoked_at then record t { revoked_at = some now } else t

unfoldable pub revoke_all_active_for_user : ℕ → ℕ → Exec Db (Unit {0})
unfolding revoke_if_active
revoke_all_active_for_user user_id now =
    modify
      (λ db. record db { refresh_tokens = map (revoke_if_active user_id now) db.refresh_tokens })

-- The denylist; the row of a known `jti` is overwritten.
put_revoked : RevokedAccessToken → List RevokedAccessToken → List RevokedAccessToken
put_revoked t [] = t ∷ []
put_revoked t (x ∷ xs) = if str_eq x.jti t.jti then t ∷ xs else x ∷ put_revoked t xs

unfoldable pub revoke_access : RevokedAccessToken → Exec Db (Unit {0})
unfolding put_revoked
revoke_access t =
    modify (λ db. record db { revoked_access_tokens = put_revoked t db.revoked_access_tokens })

unfoldable pub append : Aggregate → Event → Option ℕ → ℕ → Exec Db (Unit {0})
append k e tenant_id now =
    modify (λ db. record db { outbox = append_event k e tenant_id now db.outbox })
