-- ===== src/Reporting/Immutable.antt =====
-- Reports over the commands of contexts/reporting/application/handlers.py.
use novaapi.Common.{
  ℕ, ◌+◌, ◌<◌, String, ◌≡◌, ◌≢◌, refl, ap, ◌∙◌, sym, Bool, true, ◌&&◌, none, some, List, [], ◌∷◌,
  all, ltb, ◌==◌, if◌then◌else◌, arith, Option-cases, inl, inr,
}
use novaapi.Common.Table.{find, put, find-put_self, find-put_ne, find-key}
use novaapi.Errors.{Result, ok}
use novaapi.Session.{in_session}
use novaapi.Reporting.Sections.{Content, Reading, read, raised, Env, gather}
use novaapi.Reporting.Report.{Report, draft, finalized, failed}
use novaapi.Reporting.Handlers.{
  Clock, Db, report_key, last_version, next_version, generate_report, finalize_report, report_of,
}

-- Commands, as they come one after another.
pub data Command : Type 0 where
  generating : ℕ → ℕ → ℕ → String → Clock → Command
  finalizing : ℕ → ℕ → String → Clock → Command

-- No generation is given the id.
abbrev pub Spares : ℕ → List Command → Type 0
Spares k [] = Unit
Spares k (generating new_id t a by clock ∷ cs) = (k ≢ new_id) × Spares k cs
Spares k (finalizing t j by clock ∷ cs) = Spares k cs

module _ {V P D W : Type 0} where
  -- The report is older than a version, or on something else.
  abbrev pub older : ℕ → ℕ → ℕ → Report V P D W → Bool
  older tenant_id assessment_id version r =
      if r.tenant_id == tenant_id && r.assessment_id == assessment_id
      then ltb r.version version
      else true

  last_version-older :
      (t a v : ℕ) (rs : List (Report V P D W))
      → last_version t a rs < v
      → all (older t a v) rs ≡ true
  unfolding last_version
  last_version-older t a v [] h = refl
  last_version-older t a v (r ∷ rs) h = ground (arith, last_version-older t a v rs)

  -- The status and the sections of a report that was made of what the readers answered.
  abbrev pub Made : Reading (Content V P D W) → Report V P D W → Type 0
  Made (read c) r = (r.status ≡ draft) × (r.content ≡ some c) × (r.error ≡ none)
  Made (raised text) r = (r.status ≡ failed) × (r.content ≡ none) × (r.error ≡ some text)

  -- A report that a generation has added.
  pub record Generated (answer : Reading (Content V P D W)) (new_id t a : ℕ) (db : Db V P D W)
      (o : Result (Report V P D W) × Db V P D W) : Type 0 where
    pub report : Report V P D W
    pub returned : o.0 ≡ ok report
    pub saved : o.1.reports ≡ put report_key report db.reports
    pub stored : find report_key new_id o.1.reports ≡ some report
    pub others : (k : ℕ) → k ≢ new_id → find report_key k o.1.reports ≡ find report_key k db.reports
    pub of_tenant : report.tenant_id ≡ t
    pub of_assessment : report.assessment_id ≡ a
    pub newest : all (older t a report.version) db.reports ≡ true
    pub made : Made answer report

  report_of-Made :
      (answer : Reading (Content V P D W)) (new_id now t a version : ℕ) (by : String)
      → let r = (report_of answer new_id now t a version by).0 in
        Made answer r
        × (r.id ≡ new_id)
        × (r.tenant_id ≡ t)
        × (r.assessment_id ≡ a)
        × (r.version ≡ version)
  unfolding report_of
  report_of-Made (read c) new_id now t a version by = ((refl, refl, refl), refl, refl, refl, refl)
  report_of-Made (raised text) new_id now t a version by =
      ((refl, refl, refl), refl, refl, refl, refl)

  -- Generating a report never raises, whatever the readers do: it stores and returns a report under
  -- the new id, which is a draft with the sections where each reader answers and a failed one with the
  -- text of the exception where one raises; its version is above those of all reports of the tenant on
  -- the assessment, and the reports under other ids are as before.
  pub generate_report-Generated :
      (env : Env V P D W) (new_id t a : ℕ) (by : String) (clock : Clock) (db : Db V P D W)
      → Generated
          (gather env t a)
          new_id
          t
          a
          db
          (in_session (generate_report env new_id t a by clock) db)
  unfolding generate_report next_version
  generate_report-Generated env new_id t a by clock db =
      let v = last_version t a db.reports + 1 in
      let r : Report V P D W = (report_of (gather env t a) new_id (clock 0) t a v by).0 in
      let w = report_of-Made (gather env t a) new_id (clock 0) t a v by in
      record {
        report = r;
        returned = refl;
        saved = refl;
        stored =
            ap (λ k. find report_key k (put report_key r db.reports)) (sym w.1)
            ∙ find-put_self report_key r db.reports;
        others = λ k ne. find-put_ne report_key r k db.reports (λ e. ne (e ∙ w.1));
        of_tenant = w.2;
        of_assessment = w.3;
        newest =
            ap (λ x. all (older t a x) db.reports) w.4
            ∙ last_version-older t a v db.reports (omega arith);
        made = w.0;
      }

  unfoldable pub handle : Env V P D W → Command → Db V P D W → Db V P D W
  unfolding generate_report finalize_report
  handle env (generating new_id t a by clock) db =
      (in_session (generate_report env new_id t a by clock) db).1
  handle env (finalizing t k by clock) db = (in_session (finalize_report t k by clock) db).1

  unfoldable pub handle_all : Env V P D W → List Command → Db V P D W → Db V P D W
  unfolding handle
  handle_all env [] db = db
  handle_all env (c ∷ cs) db = handle_all env cs (handle env c db)

  finalize_report-stays :
      (t j k : ℕ) (by : String) (clock : Clock) (db : Db V P D W) (r : Report V P D W)
      → find report_key k db.reports ≡ some r
      → r.status ≢ draft
      → find report_key k (in_session (finalize_report t j by clock) db).1.reports ≡ some r
  unfolding finalize_report
  finalize_report-stays t j k by clock db r f closed =
      elim (Option-cases (find report_key j db.reports)) [
        | inl missing ↦ ground arith
        | inr (x, g) ↦
            let same : x.id ≡ j = find-key report_key j db.reports x g in
            let x' : Report V P D W = record x {
              status = finalized;
              finalized_by = some by;
              finalized_at = some (clock 0);
            } in
            ground (arith, find-put_ne report_key x' k db.reports)
      ]

  -- A report that is no draft keeps its row, whatever commands follow that generate no report under
  -- its id.
  pub handle_all-stays :
      (env : Env V P D W) (cs : List Command) (k : ℕ) (db : Db V P D W) (r : Report V P D W)
      → find report_key k db.reports ≡ some r
      → r.status ≢ draft
      → Spares k cs
      → find report_key k (handle_all env cs db).reports ≡ some r
  unfolding handle_all
  handle_all-stays env [] k db r f closed s = f
  handle_all-stays env (generating new_id t a by clock ∷ cs) k db r f closed s =
      let db' = (in_session (generate_report env new_id t a by clock) db).1 in
      handle_all-stays env cs k db' r
        ((generate_report-Generated env new_id t a by clock db).others k s.0 ∙ f) closed s.1
  handle_all-stays env (finalizing t j by clock ∷ cs) k db r f closed s =
      handle_all-stays env cs k (in_session (finalize_report t j by clock) db).1 r
        (finalize_report-stays t j k by clock db r f closed) closed s
