-- ===== src/Session.antt =====
-- db/session.py and the unit of work of an SQLAlchemy session: a handler works on a copy of the
-- tables, `commit` publishes the copy, and what was not committed is lost when the session ends.
use novaapi.Errors.{Error, Result, ok, err}

pub record Session {ℓ} (S : Type ℓ) : Type ℓ where
  pub committed : S
  pub work : S

abbrev pub Exec {ℓ} : Type ℓ → Type ℓ → Type ℓ
Exec S A = Session S → Result A × Session S

module _ {ℓ} {S A : Type ℓ} where
  abbrev pub pure : A → Exec S A
  pure a s = (ok a, s)

  abbrev pub raise : Error → Exec S A
  raise e s = (err e, s)

  -- A step on the domain objects, which may raise and touches no table.
  abbrev pub lift : Result A → Exec S A
  lift r s = (r, s)

  -- A query.
  abbrev pub gets : (S → A) → Exec S A
  gets f s = (ok (f s.work), s)

module _ {ℓ} {S : Type ℓ} where
  -- `session.add(row)`, or a change to a loaded row.
  abbrev pub modify : (S → S) → Exec S (Unit {ℓ})
  modify f s = (ok tt, record s { work = f s.work })

  -- `await session.commit()`
  abbrev pub commit : Exec S (Unit {ℓ})
  commit s = (ok tt, record s { committed = s.work })

infixl 5 ◌>>=◌ ◌>>◌
abbrev pub ◌>>=◌ {ℓ} : {S A B : Type ℓ} → Exec S A → (A → Exec S B) → Exec S B
◌>>=◌ m f s = let (r, s') = m s in elim r [ ok a ↦ f a s' | err e ↦ (err e, s') ]

abbrev pub ◌>>◌ {ℓ} : {S A B : Type ℓ} → Exec S A → Exec S B → Exec S B
m >> k = m >>= λ _. k

-- `async with db.session() as session: ...`: the tables as they were committed.
abbrev pub in_session {ℓ} : {S A : Type ℓ} → Exec S A → S → Result A × S
in_session m s = let (r, t) = m (record { committed = s; work = s }) in (r, t.committed)
