-- ===== src/Notification/Tests.antt =====
-- The theorems on notifications at concrete inputs; measured values are whole numbers here.
use novaapi.Common.{ℕ, ◌≡◌, refl, true, false, none, some, [], ◌∷◌, ltb, leb, length}
use novaapi.Common.Text.{is_empty}
use novaapi.Session.{in_session}
use novaapi.Notification.Types.{Floats, stage_result, greater_than, high, email, sms, in_app}
use novaapi.Notification.Rule.{AlertRule}
use novaapi.Notification.Subscription.{
  NotificationSubscription, subscribe, activate_subscription, deactivate_subscription,
}
use novaapi.Notification.Reachable.{IsReachable, subscribe-IsReachable}
use novaapi.Notification.Database.{Db, active_rules, active_subscriptions}
use novaapi.Notification.Evaluate.{Env, evaluate_alert_rules, resolve_recipient}
use novaapi.Notification.Evaluate.Exact.{expected, Evaluated, evaluate_alert_rules-Evaluated}

abbrev whole : Floats ℕ
whole = record { gt = λ a b. ltb b a; lt = ltb; ge = λ a b. leb b a; le = leb; show = λ n. "n" }

-- The email channel fails, there is no channel for text messages.
abbrev env : Env ℕ
env = record {
  floats = whole;
  get_assessment_info = λ t a. some (record { name = "delta"; hazard_type = "FLOOD" });
  get_metric_value = λ t a subject stage code. some 80;
  channel_for = λ c. elim c [
    | email ↦ some (λ i to subject text. record { delivered = false; error = none })
    | sms ↦ none
    | in_app ↦ some (λ i to subject text. record { delivered = true; error = none })
  ];
  show_id = λ n. "user";
  new_id = λ i. i;
  clock = λ i. i;
}

abbrev rule : AlertRule ℕ
rule = record {
  id = 1;
  tenant_id = 9;
  name = "FRI";
  subject_type = stage_result;
  hazard_type = some "FLOOD";
  stage_type = some "RISK";
  metric_code = "FRI";
  operator = greater_than;
  threshold = 70;
  severity = high;
  is_active = true;
  created_by = "ana";
  created_at = 1;
  updated_at = 1;
}

abbrev follower : NotificationSubscription
follower = record {
  id = 5;
  tenant_id = 9;
  user_id = 3;
  hazard_type = none;
  channels = email ∷ sms ∷ in_app ∷ [];
  email_address = some "a@x";
  phone_number = some "1";
  is_active = true;
  created_at = 1;
}

abbrev db : Db ℕ
db = record {
  rules = rule ∷ record rule { id = 2; threshold = 90 } ∷ [];
  subscriptions = follower ∷ record follower { id = 6; tenant_id = 8 } ∷ [];
  notifications = [];
  outbox = [];
}

evaluate_alert_rules-Evaluated_example :
    Evaluated env 9 4 db
      (expected env 9 4 (env.get_assessment_info 9 4) db)
      (in_session (evaluate_alert_rules env 9 4) db)
evaluate_alert_rules-Evaluated_example = evaluate_alert_rules-Evaluated env 9 4 db

-- One rule of two fires, for the subscription of the tenant, on the two channels that there are.
two_sent : length (in_session (evaluate_alert_rules env 9 4) db).1.notifications ≡ 2
unfolding evaluate_alert_rules active_rules active_subscriptions resolve_recipient
two_sent = refl

subscribe-IsReachable_example :
    IsReachable env.show_id follower
    × IsReachable env.show_id
        (activate_subscription {V = ℕ} (deactivate_subscription {V = ℕ} follower "ana").0 "bo").0
unfolding subscribe is_empty
subscribe-IsReachable_example =
    subscribe-IsReachable {V = ℕ} env.show_id 5 1 9 3 none (email ∷ sms ∷ in_app ∷ []) (some "a@x")
      (some "1") "ana" "bo" follower _ refl
