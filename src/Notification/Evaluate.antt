-- ===== src/Notification/Evaluate.antt =====
-- `EvaluateAlertRulesHandler` of contexts/notification/application/handlers.py.
pub mod Fires
pub mod Exact
use Prim.Native.String.{◌++◌ as str_append}
use text.Mathlib.Text.{◌==◌ as str_eq}
use novaapi.Common.{
  ℕ, ◌+◌, ◌*◌, String, Bool, true, false, Option, none, some, List, [], ◌∷◌, ◌++◌, filter, length,
  if◌then◌else◌,
}
use novaapi.Common.Text.{is_empty}
use novaapi.Session.{Exec, Session, pure, commit, gets, modify, ◌>>=◌, ◌>>◌}
use novaapi.Notification.Types.{
  Floats, AlertSubjectType, AlertOperator, greater_than, less_than, greater_than_or_equal,
  less_than_or_equal, AlertSeverity, low, medium, high, critical, NotificationChannelType, email,
  sms, in_app, evaluate,
}
use novaapi.Notification.Rule.{AlertRule}
use novaapi.Notification.Subscription.{
  NotificationSubscription, Notification, notify_sent, notify_failed,
}
use novaapi.Notification.Events.{Event}
use novaapi.Notification.Database.{
  Db, notification, active_rules, active_subscriptions, save_notification, append,
}

pub record AssessmentInfo : Type 0 where
  pub name : String
  pub hazard_type : String

pub record ChannelDeliveryResult : Type 0 where
  pub delivered : Bool
  pub error : Option String

-- The ports of the handler, with `str` of a user's id. Sends are numbered, since a channel may answer
-- differently from time to time; so are the new ids and the readings of the clock.
pub record Env (V : Type 0) : Type 0 where
  pub floats : Floats V
  pub get_assessment_info : ℕ → ℕ → Option AssessmentInfo
  pub get_metric_value : ℕ → ℕ → AlertSubjectType → Option String → String → Option V
  pub channel_for :
      NotificationChannelType → Option (ℕ → String → String → String → ChannelDeliveryResult)
  pub show_id : ℕ → String
  pub new_id : ℕ → ℕ
  pub clock : ℕ → ℕ

-- `r.hazard_type is None or r.hazard_type == assessment_info.hazard_type`
abbrev pub covers : Option String → String → Bool
covers none hazard = true
covers (some h) hazard = str_eq h hazard

-- `_OPERATOR_SYMBOLS`
abbrev pub operator_symbol : AlertOperator → String
operator_symbol greater_than = ">"
operator_symbol less_than = "<"
operator_symbol greater_than_or_equal = ">="
operator_symbol less_than_or_equal = "<="

abbrev pub severity_value : AlertSeverity → String
severity_value low = "LOW"
severity_value medium = "MEDIUM"
severity_value high = "HIGH"
severity_value critical = "CRITICAL"

-- `result.error or "delivery failed"`
abbrev pub failure_text : Option String → String
failure_text none = "delivery failed"
failure_text (some s) = if is_empty s then "delivery failed" else s

-- `_resolve_recipient`
unfoldable pub resolve_recipient :
    (ℕ → String) → NotificationChannelType → NotificationSubscription → Option String
resolve_recipient show_id email s = s.email_address
resolve_recipient show_id sms s = s.phone_number
resolve_recipient show_id in_app s = some (show_id s.user_id)

abbrev join : List String → String
join [] = ""
join (s ∷ ss) = str_append s (join ss)

module _ {V : Type 0} (env : Env V) (tenant_id assessment_id : ℕ) (info : AssessmentInfo) where
  -- The text of a notification.
  unfoldable pub message_of : AlertRule V → V → String
  message_of rule value = join (
      "["
      ∷ severity_value rule.severity
      ∷ "] "
      ∷ rule.name
      ∷ ": "
      ∷ rule.metric_code
      ∷ " = "
      ∷ env.floats.show value
      ∷ " "
      ∷ operator_symbol rule.operator
      ∷ " "
      ∷ env.floats.show rule.threshold
      ∷ " on assessment '"
      ∷ info.name
      ∷ "'"
      ∷ [])

  -- The notification of a delivery and its event.
  unfoldable pub notification_of :
      AlertRule V
      → V
      → ℕ
      → NotificationChannelType
      → String
      → ℕ
      → ChannelDeliveryResult
      → Notification V × Event V
  unfolding message_of notify_sent notify_failed
  notification_of rule value subscription_id channel recipient i result =
      if result.delivered
      then notify_sent (env.new_id i) (env.clock (2 * i)) tenant_id assessment_id rule
          subscription_id channel recipient value (message_of rule value)
      else notify_failed (env.new_id i) (env.clock (2 * i)) tenant_id assessment_id rule
          subscription_id channel recipient value (message_of rule value)
          (failure_text result.error)

  -- `if recipient is None or channel is None: continue`, and the rest of the innermost loop.
  unfoldable pub notify_via :
      AlertRule V
      → V
      → ℕ
      → NotificationChannelType
      → Option String
      → Option (ℕ → String → String → String → ChannelDeliveryResult)
      → List (Notification V)
      → Exec (Db V) (List (Notification V))
  unfolding notification_of save_notification append message_of
  notify_via rule value sid channel none sender ns = pure ns
  notify_via rule value sid channel (some recipient) none ns = pure ns
  notify_via rule value sid channel (some recipient) (some send) ns = do
    let result = send (length ns) recipient rule.name (message_of rule value)
    let (n, event) = notification_of rule value sid channel recipient (length ns) result
    save_notification n
    append (notification n.id) event (some tenant_id) (env.clock (2 * length ns + 1))
    pure (ns ++ n ∷ [])

  -- `for channel_type in subscription.channels`
  unfoldable pub notify_channels :
      AlertRule V
      → V
      → NotificationSubscription
      → List NotificationChannelType
      → List (Notification V)
      → Exec (Db V) (List (Notification V))
  unfolding notify_via
  notify_channels rule value s [] ns = pure ns
  notify_channels rule value s (c ∷ cs) ns = do
    ns' ← notify_via rule value s.id c (resolve_recipient env.show_id c s) (env.channel_for c) ns
    notify_channels rule value s cs ns'

  -- `for subscription in matching_subscriptions`
  unfoldable pub notify_subscriptions :
      AlertRule V
      → V
      → List NotificationSubscription
      → List (Notification V)
      → Exec (Db V) (List (Notification V))
  unfolding notify_channels
  notify_subscriptions rule value [] ns = pure ns
  notify_subscriptions rule value (s ∷ ss) ns = do
    ns' ← notify_channels rule value s s.channels ns
    notify_subscriptions rule value ss ns'

  -- The body of the loop over the rules, on the value that the metric reader returns.
  unfoldable pub apply_rule :
      AlertRule V
      → Option V
      → List NotificationSubscription
      → List (Notification V)
      → Exec (Db V) (List (Notification V))
  unfolding evaluate notify_subscriptions
  apply_rule rule none ss ns = pure ns
  apply_rule rule (some value) ss ns =
      if evaluate env.floats rule.operator value rule.threshold
      then notify_subscriptions rule value ss ns
      else pure ns

  abbrev pub metric_of : AlertRule V → Option V
  metric_of rule =
      env.get_metric_value tenant_id assessment_id rule.subject_type rule.stage_type
        rule.metric_code

  -- `for rule in applicable_rules`
  unfoldable pub apply_rules :
      List (AlertRule V)
      → List NotificationSubscription
      → List (Notification V)
      → Exec (Db V) (List (Notification V))
  unfolding apply_rule
  apply_rules [] ss ns = pure ns
  apply_rules (r ∷ rs) ss ns = do ns' ← apply_rule r (metric_of r) ss ns; apply_rules rs ss ns'

  abbrev pub applicable_rules : Db V → List (AlertRule V)
  applicable_rules db =
      filter (λ (r : AlertRule V). covers r.hazard_type info.hazard_type)
        (active_rules tenant_id db)

  abbrev pub matching_subscriptions : Db V → List NotificationSubscription
  matching_subscriptions db =
      filter (λ (s : NotificationSubscription). covers s.hazard_type info.hazard_type)
        (active_subscriptions tenant_id db)

  unfoldable pub evaluate_known : Exec (Db V) (List (Notification V))
  unfolding apply_rules
  evaluate_known = do
    rules ← gets applicable_rules
    subscriptions ← gets matching_subscriptions
    ns ← apply_rules rules subscriptions []
    commit
    pure ns

module _ {V : Type 0} (env : Env V) (tenant_id assessment_id : ℕ) where
  abbrev evaluate_info : Option AssessmentInfo → Exec (Db V) (List (Notification V))
  evaluate_info none = do commit; pure []
  evaluate_info (some info) = evaluate_known env tenant_id assessment_id info

  unfoldable pub evaluate_alert_rules : Exec (Db V) (List (Notification V))
  unfolding evaluate_known
  evaluate_alert_rules = evaluate_info (env.get_assessment_info tenant_id assessment_id)
