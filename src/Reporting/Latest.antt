-- ===== src/Reporting/Latest.antt =====
-- The queries of contexts/reporting/application/queries.py after its commands.
use novaapi.Common.{
  ℕ, ◌<◌, String, ◌≡◌, ap, ◌∙◌, true, some, List, [], ◌∷◌, all, arith, Option-cases, inl, inr,
}
use novaapi.Common.Table.{put}
use novaapi.Errors.{ok}
use novaapi.Session.{in_session}
use novaapi.Reporting.Sections.{Env}
use novaapi.Reporting.Report.{Report}
use novaapi.Reporting.Handlers.{Clock, Db, report_key, generate_report, owned}
use novaapi.Reporting.Queries.{get_latest, get_latest_report, get_report, present}
use novaapi.Reporting.Immutable.{older, generate_report-Generated}

module _ {V P D W : Type 0} where
  get_latest-below :
      (t a v : ℕ) (rs : List (Report V P D W)) (y : Report V P D W)
      → all (older t a v) rs ≡ true
      → get_latest t a rs ≡ some y
      → y.version < v
  unfolding get_latest
  get_latest-below t a v [] y h f = ground arith
  get_latest-below t a v (r ∷ rs) y h f = elim (Option-cases (get_latest t a rs)) [
    | inl e ↦ ground arith
    | inr (x, e) ↦ ground (arith, get_latest-below t a v rs x)
  ]

  -- A report that is above all others is the latest once it is saved.
  get_latest-put :
      (t a : ℕ) (r : Report V P D W) (rs : List (Report V P D W))
      → r.tenant_id ≡ t
      → r.assessment_id ≡ a
      → all (older t a r.version) rs ≡ true
      → get_latest t a (put report_key r rs) ≡ some r
  unfolding get_latest put
  get_latest-put t a r [] et ea h = ground arith
  get_latest-put t a r (x ∷ rs) et ea h = elim (Option-cases (get_latest t a rs)) [
    | inl e ↦ ground (arith, get_latest-put t a r rs)
    | inr (y, e) ↦ ground (arith, get_latest-put t a r rs, get_latest-below t a r.version rs y)
  ]

  -- Whoever generates a report reads it back: in every state, and whatever the readers answer, the
  -- query by its id and the query of the latest report on the assessment then return the very report
  -- that the generation returned.
  pub generate_report-get_latest_report :
      (env : Env V P D W) (new_id t a : ℕ) (by : String) (clock : Clock) (db : Db V P D W)
      → let (answer, db') = in_session (generate_report env new_id t a by clock) db in
        (r : Report V P D W) × (answer ≡ ok r)
        × ((in_session (get_latest_report t a) db').0 ≡ ok r)
        × ((in_session (get_report t new_id) db').0 ≡ ok r)
  unfolding get_latest_report get_report
  generate_report-get_latest_report env new_id t a by clock db =
      let g = generate_report-Generated env new_id t a by clock db in
      let latest =
        ap (get_latest t a) g.saved
        ∙ get_latest-put t a g.report db.reports g.of_tenant g.of_assessment g.newest in
      (
        g.report,
        g.returned,
        ap (λ x. present x) latest,
        ap (λ x. owned t x) g.stored ∙ ground (arith, g.of_tenant),
      )
