-- ===== src/Validation/Reachable.antt =====
-- The tables that the two handlers can reach, from empty ones.
use novaapi.Common.{ℕ, ◌≡◌, ◌⊎◌, inl, inr, refl, String, Option, some, List, [], ◌∷◌, ◌++◌}
use novaapi.Errors.{Result, Result-cases}
use novaapi.Session.{in_session}
use novaapi.Outbox.{OutboxEvent, append_event}
use novaapi.Validation.Types.{Floats, SubjectType, ValidationDataset}
use novaapi.Validation.Run.{ValidationRun, Event, Built}
use novaapi.Validation.Handlers.{
  Db, Resolution, RegressionValidationSubject, run_id_eq, run_validation, run_regression_validation,
  subject_type_of,
}
use novaapi.Validation.Stored.{
  IsSound, outcome_of, Announced, Leaves, run_validation-Leaves, run_regression_validation-Leaves,
  run_validation-unknown,
}

-- The tables after any handlers in a row, with any resolvers, ids and clocks.
pub data Reachable {V : Type 0} (fl : Floats V) : Db V → Type 0 where
  empty : Reachable fl (record { runs = []; outbox = [] })
  validated :
      {db : Db V}
      → Reachable fl db
      → (k : ℕ) (clock : ℕ → ℕ) (t a : ℕ) (subject : String)
        (resolve : String → SubjectType → ℕ → Resolution (ValidationDataset V)) (text by : String)
      → Reachable fl (in_session (run_validation fl k clock t a subject resolve text by) db).1
  regressed :
      {db : Db V}
      → Reachable fl db
      → (k : ℕ) (clock : ℕ → ℕ) (t a : ℕ) (subject : String)
        (resolve : String → ℕ → ℕ → Resolution (RegressionValidationSubject V)) (by : String)
      → Reachable fl (in_session (run_regression_validation fl k clock t a subject resolve by) db).1

module _ {V : Type 0} where
  -- The event stands in the outbox under the aggregate.
  abbrev pub Told : ℕ → Event V → List (OutboxEvent ℕ (Event V)) → Type 0
  Told k e [] = ⊥
  Told k e (x ∷ xs) = ((x.aggregate ≡ k) × (x.event ≡ e)) ⊎ Told k e xs

  Told-append :
      (k : ℕ) (e : Event V) (xs ys : List (OutboxEvent ℕ (Event V)))
      → Told k e xs
      → Told k e (xs ++ ys)
  Told-append k e [] ys told = elim told [ ]
  Told-append k e (x ∷ xs) ys (inl here) = inl here
  Told-append k e (x ∷ xs) ys (inr there) = inr (Told-append k e xs ys there)

  Told-append_last :
      (k : ℕ) (e : Event V) (xs : List (OutboxEvent ℕ (Event V))) (x : OutboxEvent ℕ (Event V))
      → x.aggregate ≡ k
      → x.event ≡ e
      → Told k e (xs ++ x ∷ [])
  Told-append_last k e [] x p q = inl (p, q)
  Told-append_last k e (y ∷ ys) x p q = inr (Told-append_last k e ys x p q)

  Told-append_event :
      (k k' : ℕ) (e e' : Event V) (t : Option ℕ) (now : ℕ) (xs : List (OutboxEvent ℕ (Event V)))
      → Told k e xs
      → Told k e (append_event k' e' t now xs)
  unfolding append_event
  Told-append_event k k' e e' t now xs told = Told-append k e xs _ told

  append_event-Told :
      (k : ℕ) (e : Event V) (t : Option ℕ) (now : ℕ) (xs : List (OutboxEvent ℕ (Event V)))
      → Told k e (append_event k e t now xs)
  unfolding append_event
  append_event-Told k e t now xs = Told-append_last k e xs _ refl refl

module _ {V : Type 0} (fl : Floats V) where
  -- A run is sound and its outcome is in the outbox.
  abbrev pub IsRecorded : List (OutboxEvent ℕ (Event V)) → ValidationRun V → Type 0
  IsRecorded outbox r =
      IsSound fl r × (f : Event V) × (outcome_of fl r ≡ some f) × Told r.id f outbox

  abbrev pub AllRecorded : List (OutboxEvent ℕ (Event V)) → List (ValidationRun V) → Type 0
  AllRecorded outbox [] = Unit {0}
  AllRecorded outbox (r ∷ rs) = IsRecorded outbox r × AllRecorded outbox rs

  AllRecorded-append_event :
      (k : ℕ) (e : Event V) (t : Option ℕ) (now : ℕ) (xs : List (OutboxEvent ℕ (Event V)))
      (rs : List (ValidationRun V))
      → AllRecorded xs rs
      → AllRecorded (append_event k e t now xs) rs
  AllRecorded-append_event k e t now xs [] all = tt
  AllRecorded-append_event k e t now xs (r ∷ rs) ((sound, f, is_f, told), all) = (
    (sound, f, is_f, Told-append_event r.id k f e t now xs told),
    AllRecorded-append_event k e t now xs rs all,
  )

  AllRecorded-append :
      (xs : List (OutboxEvent ℕ (Event V))) (rs : List (ValidationRun V)) (r : ValidationRun V)
      → AllRecorded xs rs
      → IsRecorded xs r
      → AllRecorded xs (rs ++ r ∷ [])
  AllRecorded-append xs [] r all recorded = (recorded, tt)
  AllRecorded-append xs (s ∷ rs) r (first, all) recorded =
      (first, AllRecorded-append xs rs r all recorded)

  -- The tables that a handler leaves.
  AllRecorded-Leaves :
      (k : ℕ) (clock : ℕ → ℕ) (t a : ℕ) (subject : String) (db : Db V) (b : Built V)
      (out : Result (ValidationRun V) × Db V)
      → Announced fl k t a subject b
      → Leaves b clock t db out
      → AllRecorded db.outbox db.runs
      → AllRecorded out.1.outbox out.1.runs
  AllRecorded-Leaves k clock t a subject db (r, e, f) out (sound, _, _, _, _, _, is_f)
        (_, runs, outbox) all =
      rw (runs, outbox)
        (AllRecorded-append
          (append_event r.id f (some t) (clock 2)
            (append_event r.id e (some t) (clock 1) db.outbox))
          db.runs r
          (AllRecorded-append_event r.id f (some t) (clock 2)
            (append_event r.id e (some t) (clock 1) db.outbox) db.runs
            (AllRecorded-append_event r.id e (some t) (clock 1) db.outbox db.runs all))
          (
            sound,
            f,
            is_f,
            append_event-Told r.id f (some t) (clock 2)
                (append_event r.id e (some t) (clock 1) db.outbox),
          ))

  -- In tables that any sequence of the two handlers can reach from empty ones, every run either completed
  -- with the metrics of its mode and the verdict that these and its thresholds give, or failed with a
  -- text and neither; and the event of that outcome is in the outbox under the id of the run.
  pub Reachable-AllRecorded : {db : Db V} → Reachable fl db → AllRecorded db.outbox db.runs
  Reachable-AllRecorded empty = tt
  Reachable-AllRecorded (validated {db} before k clock t a subject resolve text by) =
      elim (Result-cases (subject_type_of text)) [
        | inl (st, known) ↦
            let (b, announced, leaves) =
              run_validation-Leaves fl k clock t a subject db resolve text by st known in
            AllRecorded-Leaves k clock t a subject db b
              (in_session (run_validation fl k clock t a subject resolve text by) db) announced
              leaves (Reachable-AllRecorded before)
        | inr (e, unknown) ↦
            rw (run_validation-unknown fl k clock t a subject db resolve text by e unknown)
              (Reachable-AllRecorded before)
      ]
  Reachable-AllRecorded (regressed {db} before k clock t a subject resolve by) =
      let (b, announced, leaves) =
        run_regression_validation-Leaves fl k clock t a subject db resolve by in
      AllRecorded-Leaves k clock t a subject db b
        (in_session (run_regression_validation fl k clock t a subject resolve by) db) announced
        leaves (Reachable-AllRecorded before)
