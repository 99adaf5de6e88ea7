-- ===== src/Reporting/Queries.antt =====
-- The queries of contexts/reporting/application/queries.py for one report.
use novaapi.Common.{ℕ, Option, none, some, List, [], ◌∷◌, ◌==◌, ◌&&◌, ltb, if◌then◌else◌}
use novaapi.Common.Table.{find}
use novaapi.Errors.{Result, ok, err, report_not_found}
use novaapi.Session.{Exec, lift, gets, ◌>>=◌}
use novaapi.Reporting.Report.{Report}
use novaapi.Reporting.Handlers.{Db, report_key, owned}

module _ {V P D W : Type 0} where
  -- `get_latest`: the report with the largest version, the first of those in the list where several
  -- have it.
  unfoldable pub get_latest : ℕ → ℕ → List (Report V P D W) → Option (Report V P D W)
  get_latest tenant_id assessment_id [] = none
  get_latest tenant_id assessment_id (r ∷ rs) =
      let rest = get_latest tenant_id assessment_id rs in
      if r.tenant_id == tenant_id && r.assessment_id == assessment_id
      then elim rest [ none ↦ some r | some x ↦ if ltb r.version x.version then some x else some r ]
      else rest

  unfoldable pub get_report : ℕ → ℕ → Exec (Db V P D W) (Report V P D W)
  get_report tenant_id k = do
    found ← gets (λ (db : Db V P D W). find report_key k db.reports)
    lift (owned tenant_id found)

  -- `if report is None: raise ReportNotFoundError`
  abbrev pub present : Option (Report V P D W) → Result (Report V P D W)
  present none = err report_not_found
  present (some r) = ok r

  unfoldable pub get_latest_report : ℕ → ℕ → Exec (Db V P D W) (Report V P D W)
  unfolding get_latest
  get_latest_report tenant_id assessment_id = do
    found ← gets (λ (db : Db V P D W). get_latest tenant_id assessment_id db.reports)
    lift (present found)
