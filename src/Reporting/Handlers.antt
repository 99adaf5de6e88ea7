-- ===== src/Reporting/Handlers.antt =====
-- The handlers of contexts/reporting/application/handlers.py, and the table of
-- contexts/reporting/infrastructure/repositories.py that they use.
use Prim.Native.Nat.{max}
use novaapi.Common.{
  ℕ, ◌+◌, String, not, ◌&&◌, Option, none, some, List, [], ◌∷◌, ◌==◌, if◌then◌else◌, nat_eq,
}
use novaapi.Common.Table.{find, put}
use novaapi.Errors.{Result, ok, err, report_not_found}
use novaapi.Session.{Exec, pure, lift, commit, gets, modify, ◌>>=◌, ◌>>◌}
use novaapi.Outbox.{OutboxEvent, append_event}
use novaapi.Reporting.Sections.{Content, Reading, read, raised, Env, gather}
use novaapi.Reporting.Report.{Report, Event, generate, generation_failed, finalize}

abbrev pub Clock : Type 0
Clock = ℕ → ℕ

-- The aggregates of the outbox are the reports, by their ids.
pub record Db (V P D W : Type 0) : Type 0 where
  pub reports : List (Report V P D W)
  pub outbox : List (OutboxEvent ℕ Event)

module _ {V P D W : Type 0} where
  abbrev pub report_key : Report V P D W → ℕ
  report_key r = r.id

  -- `coalesce(max(version), 0)` over the reports on an assessment.
  unfoldable pub last_version : ℕ → ℕ → List (Report V P D W) → ℕ
  last_version tenant_id assessment_id [] = 0
  last_version tenant_id assessment_id (r ∷ rs) =
      let rest = last_version tenant_id assessment_id rs in
      if r.tenant_id == tenant_id && r.assessment_id == assessment_id
      then max r.version rest
      else rest

  -- `next_version`
  unfoldable pub next_version : ℕ → ℕ → List (Report V P D W) → ℕ
  unfolding last_version
  next_version tenant_id assessment_id rs = last_version tenant_id assessment_id rs + 1

  unfoldable pub save : Report V P D W → Exec (Db V P D W) (Unit {0})
  save r = modify (λ db. record db { reports = put report_key r db.reports })

  unfoldable pub append : ℕ → Event → ℕ → ℕ → Exec (Db V P D W) (Unit {0})
  append k e tenant_id now =
      modify (λ db. record db { outbox = append_event k e (some tenant_id) now db.outbox })

  -- The report that the `try` or its `except` makes.
  unfoldable pub report_of :
      Reading (Content V P D W) → ℕ → ℕ → ℕ → ℕ → ℕ → String → Report V P D W × Event
  unfolding generate generation_failed
  report_of (read c) new_id now tenant_id assessment_id version issued_by =
      generate new_id now tenant_id assessment_id version c issued_by
  report_of (raised text) new_id now tenant_id assessment_id version issued_by =
      generation_failed new_id now tenant_id assessment_id version text issued_by

  unfoldable pub generate_report :
      Env V P D W → ℕ → ℕ → ℕ → String → Clock → Exec (Db V P D W) (Report V P D W)
  unfolding gather report_of save append next_version
  generate_report env new_id tenant_id assessment_id issued_by clock = do
    version ← gets (λ (db : Db V P D W). next_version tenant_id assessment_id db.reports)
    let (r, event) =
        report_of (gather env tenant_id assessment_id) new_id (clock 0) tenant_id assessment_id
          version issued_by
    save r
    append r.id event tenant_id (clock 1)
    commit
    pure r

  -- `if report is None or report.tenant_id != tenant_id: raise ReportNotFoundError`
  abbrev pub owned : ℕ → Option (Report V P D W) → Result (Report V P D W)
  owned tenant_id none = err report_not_found
  owned tenant_id (some r) = if not (r.tenant_id == tenant_id) then err report_not_found else ok r

  unfoldable pub finalize_report : ℕ → ℕ → String → Clock → Exec (Db V P D W) (Report V P D W)
  unfolding finalize save append
  finalize_report tenant_id k by clock = do
    found ← gets (λ (db : Db V P D W). find report_key k db.reports)
    r ← lift (owned tenant_id found)
    (r', event) ← lift (finalize r by (clock 0))
    save r'
    append r'.id event tenant_id (clock 1)
    commit
    pure r'
