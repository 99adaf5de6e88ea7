-- ===== src/Identity/Users/Owners.antt =====
-- Active owners of a tenant under the account commands of application/handlers_user.py.
use novaapi.Common.{
  ℕ, ◌+◌, ◌≤◌, String, ◌≡◌, true, some, List, [], ◌∷◌, filter, length, arith, if◌then◌else◌,
  Option-cases, Bool-cases, inl, inr,
}
use novaapi.Common.Table.{find, put, find-key}
use novaapi.Session.{in_session}
use novaapi.Identity.Types.{Role, RoleName, is_owner, UserStatus, suspended, deactivated, same_role}
use novaapi.Identity.User.{User}
use novaapi.Identity.Database.{Db, user_key, role_by_name, is_active_owner, count_active_owners}
use novaapi.Identity.Auth.{Clock}
use novaapi.Identity.Users.{change_user_role, suspend_user, deactivate_user}

-- The number of active owners of a tenant among some users.
abbrev owners : ℕ → List User → ℕ
owners tenant_id us = length (filter (is_active_owner tenant_id) us)

abbrev weight : ℕ → User → ℕ
weight tenant_id u = if is_active_owner tenant_id u then 1 else 0

-- Writing one row changes the number by that row alone.
owners-put :
    (tenant_id : ℕ) (old new : User) (us : List User)
    → find user_key new.id us ≡ some old
    → owners tenant_id (put user_key new us) + weight tenant_id old
      ≡ owners tenant_id us + weight tenant_id new
unfolding find put
owners-put tenant_id old new [] h = ground arith
owners-put tenant_id old new (u ∷ us) h = ground (arith, owners-put tenant_id old new us)

-- Any write of a row whose tenant keeps at least one active owner beside it.
owners-kept :
    (tenant_id : ℕ) (old new : User) (us : List User)
    → find user_key new.id us ≡ some old
    → 2 ≤ owners tenant_id us
    → 1 ≤ owners tenant_id (put user_key new us)
owners-kept tenant_id old new us h two = ground (arith, owners-put tenant_id old new us h)

is_active_owner-owner :
    (t : ℕ) (u : User)
    → is_active_owner t u ≡ true
    → (u.tenant_id ≡ t) × (is_owner u.role.name ≡ true)
unfolding is_active_owner
is_active_owner-owner t u h = ground arith

-- A user whose row may be written: no active owner of the tenant, or one of several.
abbrev MayClose : ℕ → User → List User → Type 0
MayClose t u us = is_owner u.role.name ≡ true → 2 ≤ owners u.tenant_id us

owners-close :
    (t : ℕ) (old new : User) (us : List User)
    → find user_key new.id us ≡ some old
    → MayClose t old us
    → 1 ≤ owners t us
    → 1 ≤ owners t (put user_key new us)
owners-close t old new us h may one = elim (Bool-cases (is_active_owner t old)) [
  | inl e ↦
      let (ten, own) = is_active_owner-owner t old e in
      let two : 2 ≤ owners t us = rw (← ten) (may own) in owners-kept t old new us h two
  | inr e ↦ ground (arith, owners-put t old new us h)
]

-- The row that a suspension or a deactivation writes.
abbrev closed_to : UserStatus → Clock → User → User
closed_to s clock u = record u {
  status = s;
  updated_at = clock 1;
  version = u.version + 1;
  token_generation = u.token_generation + 1;
}

module _ (tenant_id user_id : ℕ) (changed_by : String) (clock : Clock) (db : Db) (t : ℕ)
    (kept : 1 ≤ count_active_owners t db) where
  -- A suspension leaves every tenant that had an active owner with one.
  pub suspend_user-owner :
      (reason : String)
      → 1
        ≤ count_active_owners t
            (in_session (suspend_user tenant_id user_id changed_by reason clock) db).1
  unfolding suspend_user
  suspend_user-owner reason = elim (Option-cases (find user_key user_id db.users)) [
    | inl missing ↦ ground arith
    | inr (u, h) ↦
        let same : u.id ≡ user_id = find-key user_key user_id db.users u h in
        rw (h, in_session) (ground (arith, owners-close t u (closed_to suspended clock u) db.users))
  ]

  -- A deactivation leaves every tenant that had an active owner with one.
  pub deactivate_user-owner :
      (reason : String)
      → 1
        ≤ count_active_owners t
            (in_session (deactivate_user tenant_id user_id changed_by reason clock) db).1
  unfolding deactivate_user
  deactivate_user-owner reason = elim (Option-cases (find user_key user_id db.users)) [
    | inl missing ↦ ground arith
    | inr (u, h) ↦
        let same : u.id ≡ user_id = find-key user_key user_id db.users u h in
        rw (h, in_session)
          (ground (arith, owners-close t u (closed_to deactivated clock u) db.users))
  ]

-- A role of the same name leaves a user an active owner, or none, as before.
weight-same_role :
    (t : ℕ) (u : User) (r : Role) (now : ℕ)
    → same_role r.name u.role.name ≡ true
    → weight t (record u { role = r; updated_at = now; version = u.version + 1 }) ≡ weight t u
unfolding is_active_owner same_role
weight-same_role t u r now h = ground arith

-- A change of role leaves every tenant that had an active owner with one.
pub change_user_role-owner :
    (tenant_id user_id : ℕ) (new_role_name : RoleName) (changed_by : String) (clock : Clock)
    (db : Db) (t : ℕ)
    → 1 ≤ count_active_owners t db
    → 1
      ≤ count_active_owners t
          (in_session (change_user_role tenant_id user_id new_role_name changed_by clock) db).1
unfolding change_user_role
change_user_role-owner tenant_id user_id new_role_name changed_by clock db t kept =
    elim (Option-cases (find user_key user_id db.users)) [
      | inl missing ↦ ground arith
      | inr (u, h) ↦ elim (Option-cases (role_by_name new_role_name db)) [
        | inl unknown ↦ ground arith
        | inr (r, g) ↦
            let same : u.id ≡ user_id = find-key user_key user_id db.users u h in
            let new : User = record u { role = r; updated_at = clock 0; version = u.version + 1 } in
            rw (h, in_session)
              (ground (
                arith,
                owners-close t u new db.users,
                owners-put t u new db.users,
                weight-same_role t u r (clock 0),
              ))
      ]
    ]
