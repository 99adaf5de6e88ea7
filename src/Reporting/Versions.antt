-- ===== src/Reporting/Versions.antt =====
-- The versions of reports over the commands of contexts/reporting/application/handlers.py.
use novaapi.Common.{
  ℕ, String, ◌≡◌, refl, ap, ◌∙◌, Bool, true, not, ◌&&◌, some, List, [], ◌∷◌, all, ◌==◌, arith,
  Option-cases, inl, inr,
}
use novaapi.Common.Table.{find, put, find-all, find-key}
use novaapi.Session.{in_session}
use novaapi.Reporting.Sections.{Env}
use novaapi.Reporting.Report.{Report, finalized}
use novaapi.Reporting.Handlers.{Clock, Db, report_key, generate_report, finalize_report}
use novaapi.Reporting.Immutable.{
  older, generate_report-Generated, Command, generating, finalizing, handle_all,
}

module _ {V P D W : Type 0} where
  -- Not two reports of one tenant on one assessment under one version.
  abbrev pub apart : Report V P D W → Report V P D W → Bool
  apart r s =
      not (
        (r.tenant_id == s.tenant_id && r.assessment_id == s.assessment_id)
        && r.version == s.version)

  -- No two reports of a tenant on an assessment have the same version.
  unfoldable pub distinct_versions : List (Report V P D W) → Bool
  distinct_versions [] = true
  distinct_versions (r ∷ rs) = all (apart r) rs && distinct_versions rs

  all-put :
      (x r : Report V P D W) (rs : List (Report V P D W))
      → apart x r ≡ true
      → all (apart x) rs ≡ true
      → all (apart x) (put report_key r rs) ≡ true
  unfolding put
  all-put x r [] e h = ground arith
  all-put x r (y ∷ rs) e h = ground (arith, all-put x r rs)

  older-apart :
      (t a : ℕ) (r : Report V P D W) (rs : List (Report V P D W))
      → r.tenant_id ≡ t
      → r.assessment_id ≡ a
      → all (older t a r.version) rs ≡ true
      → all (apart r) rs ≡ true
  older-apart t a r [] et ea h = refl
  older-apart t a r (y ∷ rs) et ea h = ground (arith, older-apart t a r rs)

  distinct_versions-put_newest :
      (t a : ℕ) (r : Report V P D W) (rs : List (Report V P D W))
      → r.tenant_id ≡ t
      → r.assessment_id ≡ a
      → all (older t a r.version) rs ≡ true
      → distinct_versions rs ≡ true
      → distinct_versions (put report_key r rs) ≡ true
  unfolding distinct_versions put
  distinct_versions-put_newest t a r [] et ea h d = refl
  distinct_versions-put_newest t a r (x ∷ rs) et ea h d =
      ground (arith, distinct_versions-put_newest t a r rs, all-put x r rs, older-apart t a r rs)

  distinct_versions-put_same :
      (x x' : Report V P D W) (rs : List (Report V P D W))
      → find report_key x.id rs ≡ some x
      → x'.id ≡ x.id
      → apart x' ≡ apart x
      → ((y : Report V P D W) → apart y x' ≡ apart y x)
      → distinct_versions rs ≡ true
      → distinct_versions (put report_key x' rs) ≡ true
  unfolding distinct_versions put find
  distinct_versions-put_same x x' [] f ei e1 e2 d = ground arith
  distinct_versions-put_same x x' (y ∷ rs) f ei e1 e2 d = ground (
    arith,
    distinct_versions-put_same x x' rs,
    all-put y x' rs,
    e2 y,
    find-all report_key (apart y) x.id rs x,
    ap (λ p. all p rs) e1,
  )

  finalize_report-distinct_versions :
      (t j : ℕ) (by : String) (clock : Clock) (db : Db V P D W)
      → distinct_versions db.reports ≡ true
      → distinct_versions (in_session (finalize_report t j by clock) db).1.reports ≡ true
  unfolding finalize_report
  finalize_report-distinct_versions t j by clock db d =
      elim (Option-cases (find report_key j db.reports)) [
        | inl missing ↦ ground arith
        | inr (x, g) ↦
            let same : x.id ≡ j = find-key report_key j db.reports x g in
            let x' : Report V P D W = record x {
              status = finalized;
              finalized_by = some by;
              finalized_at = some (clock 0);
            } in
            let kept : distinct_versions (put report_key x' db.reports) ≡ true =
              distinct_versions-put_same x x' db.reports
                (ap (λ k. find report_key k db.reports) same ∙ g) refl refl (λ y. refl) d in
            ground (arith, kept)
      ]

  -- Where no two reports of a tenant on an assessment have the same version, no two have it after any
  -- commands, whatever ids the new reports are given.
  pub handle_all-distinct_versions :
      (env : Env V P D W) (cs : List Command) (db : Db V P D W)
      → distinct_versions db.reports ≡ true
      → distinct_versions (handle_all env cs db).reports ≡ true
  unfolding handle_all
  handle_all-distinct_versions env [] db d = d
  handle_all-distinct_versions env (generating new_id t a by clock ∷ cs) db d =
      let g = generate_report-Generated env new_id t a by clock db in
      handle_all-distinct_versions env cs
        (in_session (generate_report env new_id t a by clock) db).1
        (ap distinct_versions g.saved
          ∙ distinct_versions-put_newest t a g.report db.reports g.of_tenant g.of_assessment
              g.newest d)
  handle_all-distinct_versions env (finalizing t j by clock ∷ cs) db d =
      handle_all-distinct_versions env cs (in_session (finalize_report t j by clock) db).1
        (finalize_report-distinct_versions t j by clock db d)
