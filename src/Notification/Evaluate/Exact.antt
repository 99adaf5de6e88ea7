-- ===== src/Notification/Evaluate/Exact.antt =====
-- `EvaluateAlertRulesHandler` against a comprehension over rules, subscriptions and channels.
use mathlib.Core.List.{append-nil}
use novaapi.Common.{
  ℕ, ◌≡◌, refl, sym, Option, none, some, List, [], ◌++◌, map, Option-cases, inl, inr,
}
use novaapi.Errors.{Result, ok}
use novaapi.Session.{Session, in_session, ◌>>=◌}
use novaapi.Notification.Rule.{AlertRule}
use novaapi.Notification.Subscription.{Notification}
use novaapi.Notification.Database.{Db}
use novaapi.Notification.Evaluate.{
  Env, AssessmentInfo, metric_of, applicable_rules, matching_subscriptions, evaluate_known,
  evaluate_alert_rules,
}
use novaapi.Notification.Evaluate.Fires.{Firing, firing_of, concat_map, fires, Sends-apply_rules}

module _ {V : Type 0} (env : Env V) (tenant_id assessment_id : ℕ) where
  -- The firings of each rule that covers the hazard, for each subscription that covers it, on each of
  -- its channels.
  abbrev pub expected : Option AssessmentInfo → Db V → List (Firing V)
  expected none db = []
  expected (some info) db =
      concat_map
        (λ (r : AlertRule V).
          fires env tenant_id assessment_id info r (metric_of env tenant_id assessment_id info r)
            (matching_subscriptions env tenant_id assessment_id info db))
        (applicable_rules env tenant_id assessment_id info db)

  -- What an evaluation returns, stores and leaves.
  pub record Evaluated (db : Db V) (fs : List (Firing V))
      (o : Result (List (Notification V)) × Db V) : Type 0 where
    pub sent : List (Notification V)
    pub returned : o.0 ≡ ok sent
    pub named : map firing_of sent ≡ fs
    pub stored : o.1.notifications ≡ db.notifications ++ sent
    pub same_rules : o.1.rules ≡ db.rules
    pub same_subscriptions : o.1.subscriptions ≡ db.subscriptions

  evaluate_known-Evaluated :
      (info : AssessmentInfo) (db : Db V)
      → Evaluated db
          (expected (some info) db)
          (in_session (evaluate_known env tenant_id assessment_id info) db)
  unfolding evaluate_known
  evaluate_known-Evaluated info db =
      let s : Session (Db V) = record { committed = db; work = db } in
      let w =
        Sends-apply_rules env tenant_id assessment_id info
          (applicable_rules env tenant_id assessment_id info db)
          (matching_subscriptions env tenant_id assessment_id info db) s [] in
      rw (w.returned, ◌>>=◌)
        (record {
          sent = w.new;
          returned = refl;
          named = w.named;
          stored = w.stored;
          same_rules = w.same_rules;
          same_subscriptions = w.same_subscriptions;
        })

  -- An evaluation returns notifications that are exactly the expected firings, in their order, adds
  -- them to the table, and changes no rule and no subscription; where there is no assessment, there
  -- are none.
  pub evaluate_alert_rules-Evaluated :
      (db : Db V)
      → Evaluated db
          (expected (env.get_assessment_info tenant_id assessment_id) db)
          (in_session (evaluate_alert_rules env tenant_id assessment_id) db)
  unfolding evaluate_alert_rules
  evaluate_alert_rules-Evaluated db =
      elim (Option-cases (env.get_assessment_info tenant_id assessment_id)) [
        | inl missing ↦ rw missing (record {
          sent = [];
          returned = refl;
          named = refl;
          stored = sym (append-nil db.notifications);
          same_rules = refl;
          same_subscriptions = refl;
        })
        | inr (info, f) ↦ rw f (evaluate_known-Evaluated info db)
      ]
