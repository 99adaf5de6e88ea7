-- ===== src/Notification/Handlers.antt =====
-- The handlers of contexts/notification/application/handlers.py but the evaluation: one transaction
-- for each command.
use novaapi.Common.{ℕ, String, not, Option, none, some, List, ◌==◌, if◌then◌else◌}
use novaapi.Common.Table.{find}
use novaapi.Errors.{Result, ok, err, alert_rule_not_found, subscription_not_found}
use novaapi.Session.{Exec, pure, lift, commit, gets, ◌>>=◌, ◌>>◌}
use novaapi.Notification.Types.{
  AlertSubjectType, AlertOperator, AlertSeverity, NotificationChannelType,
}
use novaapi.Notification.Rule.{AlertRule, create, update_threshold, activate, deactivate}
use novaapi.Notification.Subscription.{
  NotificationSubscription, frozenset, subscribe, activate_subscription, deactivate_subscription,
}
use novaapi.Notification.Events.{Event}
use novaapi.Notification.Database.{
  Db, alert_rule, subscription, rule_key, subscription_key, save_rule, save_subscription, append,
}

abbrev pub Clock : Type 0
Clock = ℕ → ℕ

-- The check of `_get_owned_subscription` on what `get_by_id` found.
abbrev owned_subscription : ℕ → Option NotificationSubscription → Result NotificationSubscription
owned_subscription tenant_id none = err subscription_not_found
owned_subscription tenant_id (some s) =
    if not (s.tenant_id == tenant_id) then err subscription_not_found else ok s

module _ {V : Type 0} where
  -- The check of `_get_owned_rule` on what `get_by_id` found.
  abbrev owned_rule : ℕ → Option (AlertRule V) → Result (AlertRule V)
  owned_rule tenant_id none = err alert_rule_not_found
  owned_rule tenant_id (some r) =
      if not (r.tenant_id == tenant_id) then err alert_rule_not_found else ok r

  unfoldable pub get_owned_rule : ℕ → ℕ → Exec (Db V) (AlertRule V)
  get_owned_rule tenant_id k = do
    found ← gets (λ (db : Db V). find rule_key k db.rules)
    lift (owned_rule tenant_id found)

  -- The writes of the commands on a rule.
  unfoldable pub store_rule : ℕ → AlertRule V × Event V → ℕ → Exec (Db V) (AlertRule V)
  unfolding save_rule append
  store_rule tenant_id (r, event) now = do
    save_rule r
    append (alert_rule r.id) event (some tenant_id) now
    commit
    pure r

  unfoldable pub create_alert_rule :
      ℕ
      → ℕ
      → String
      → AlertSubjectType
      → Option String
      → Option String
      → String
      → AlertOperator
      → V
      → AlertSeverity
      → String
      → Clock
      → Exec (Db V) (AlertRule V)
  unfolding create store_rule
  create_alert_rule new_id tenant_id name subject_type hazard_type stage_type metric_code operator
        threshold severity issued_by clock =
      do
        created ← lift (
            create new_id (clock 0) tenant_id name subject_type hazard_type stage_type metric_code
              operator threshold severity issued_by)
        store_rule tenant_id created (clock 1)

  unfoldable pub update_alert_rule_threshold :
      ℕ → ℕ → V → String → Clock → Exec (Db V) (AlertRule V)
  unfolding get_owned_rule update_threshold store_rule
  update_alert_rule_threshold tenant_id k threshold issued_by clock = do
    r ← get_owned_rule tenant_id k
    store_rule tenant_id (update_threshold r threshold issued_by (clock 0)) (clock 1)

  unfoldable pub activate_alert_rule : ℕ → ℕ → String → Clock → Exec (Db V) (AlertRule V)
  unfolding get_owned_rule activate store_rule
  activate_alert_rule tenant_id k issued_by clock = do
    r ← get_owned_rule tenant_id k
    store_rule tenant_id (activate r issued_by (clock 0)) (clock 1)

  unfoldable pub deactivate_alert_rule : ℕ → ℕ → String → Clock → Exec (Db V) (AlertRule V)
  unfolding get_owned_rule deactivate store_rule
  deactivate_alert_rule tenant_id k issued_by clock = do
    r ← get_owned_rule tenant_id k
    store_rule tenant_id (deactivate r issued_by (clock 0)) (clock 1)

  unfoldable pub get_owned_subscription : ℕ → ℕ → Exec (Db V) NotificationSubscription
  get_owned_subscription tenant_id k = do
    found ← gets (λ (db : Db V). find subscription_key k db.subscriptions)
    lift (owned_subscription tenant_id found)

  -- The writes of the commands on a subscription.
  unfoldable pub store_subscription :
      ℕ → NotificationSubscription × Event V → ℕ → Exec (Db V) NotificationSubscription
  unfolding save_subscription append
  store_subscription tenant_id (s, event) now = do
    save_subscription s
    append (subscription s.id) event (some tenant_id) now
    commit
    pure s

  unfoldable pub create_subscription :
      ℕ
      → ℕ
      → ℕ
      → Option String
      → List NotificationChannelType
      → Option String
      → Option String
      → Clock
      → Exec (Db V) NotificationSubscription
  unfolding frozenset subscribe store_subscription
  create_subscription new_id tenant_id user_id hazard_type channels email_address phone_number
        clock =
      do
        created ← lift (
            subscribe new_id (clock 0) tenant_id user_id hazard_type (frozenset channels)
              email_address phone_number)
        store_subscription tenant_id created (clock 1)

  unfoldable pub activate_notification_subscription :
      ℕ → ℕ → String → Clock → Exec (Db V) NotificationSubscription
  unfolding get_owned_subscription activate_subscription store_subscription
  activate_notification_subscription tenant_id k issued_by clock = do
    s ← get_owned_subscription tenant_id k
    store_subscription tenant_id (activate_subscription s issued_by) (clock 0)

  unfoldable pub deactivate_notification_subscription :
      ℕ → ℕ → String → Clock → Exec (Db V) NotificationSubscription
  unfolding get_owned_subscription deactivate_subscription store_subscription
  deactivate_notification_subscription tenant_id k issued_by clock = do
    s ← get_owned_subscription tenant_id k
    store_subscription tenant_id (deactivate_subscription s issued_by) (clock 0)
