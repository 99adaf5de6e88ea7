-- ===== src/Notification/Subscription.antt =====
-- The `NotificationSubscription` and `Notification` aggregates of
-- contexts/notification/domain/entities.py.
use novaapi.Common.{
  ℕ, String, Bool, true, false, ◌&&◌, Option, none, some, List, [], ◌∷◌, any, filter, if◌then◌else◌,
}
use novaapi.Errors.{Result, ok, err, invalid_subscription}
use novaapi.Notification.Types.{
  AlertOperator, AlertSeverity, NotificationChannelType, email, sms, in_app, NotificationStatus,
  sent, failed, same_channel, is_missing,
}
use novaapi.Notification.Events.{
  Event, subscription_created, subscription_activated, subscription_deactivated, notification_sent,
  notification_delivery_failed,
}
use novaapi.Notification.Rule.{AlertRule}

-- A `frozenset` of channels is a list without repetitions, in the order in which it is iterated.
pub record NotificationSubscription : Type 0 where
  pub id : ℕ
  pub tenant_id : ℕ
  pub user_id : ℕ
  pub hazard_type : Option String
  pub channels : List NotificationChannelType
  pub email_address : Option String
  pub phone_number : Option String
  pub is_active : Bool
  pub created_at : ℕ

-- `channel in channels`
unfoldable pub has_channel : NotificationChannelType → List NotificationChannelType → Bool
unfolding same_channel
has_channel c cs = any (same_channel c) cs

-- `frozenset(...)`, which keeps each member once.
unfoldable pub frozenset : List NotificationChannelType → List NotificationChannelType
unfolding has_channel
frozenset [] = []
frozenset (c ∷ cs) = let rest = frozenset cs in if has_channel c rest then rest else c ∷ rest

-- `sorted(c.value for c in channels)`
unfoldable pub sorted_channels : List NotificationChannelType → List NotificationChannelType
unfolding has_channel
sorted_channels cs = filter (λ c. has_channel c cs) (email ∷ in_app ∷ sms ∷ [])

abbrev is_nil : List NotificationChannelType → Bool
is_nil [] = true
is_nil (c ∷ cs) = false

module _ {V : Type 0} where
  unfoldable pub subscribe :
      ℕ
      → ℕ
      → ℕ
      → ℕ
      → Option String
      → List NotificationChannelType
      → Option String
      → Option String
      → Result (NotificationSubscription × Event V)
  unfolding has_channel sorted_channels
  subscribe new_id now tenant_id user_id hazard_type channels email_address phone_number =
      if is_nil channels
      then err invalid_subscription
      else if has_channel email channels && is_missing email_address
      then err invalid_subscription
      else if has_channel sms channels && is_missing phone_number
      then err invalid_subscription
      else ok (
        record {
          id = new_id;
          tenant_id = tenant_id;
          user_id = user_id;
          hazard_type = hazard_type;
          channels = channels;
          email_address = email_address;
          phone_number = phone_number;
          is_active = true;
          created_at = now;
        },
        subscription_created new_id tenant_id user_id (sorted_channels channels),
      )

  unfoldable pub activate_subscription :
      NotificationSubscription → String → NotificationSubscription × Event V
  activate_subscription s changed_by =
      (record s { is_active = true }, subscription_activated s.id s.tenant_id changed_by)

  unfoldable pub deactivate_subscription :
      NotificationSubscription → String → NotificationSubscription × Event V
  deactivate_subscription s changed_by =
      (record s { is_active = false }, subscription_deactivated s.id s.tenant_id changed_by)

pub record Notification (V : Type 0) : Type 0 where
  pub id : ℕ
  pub tenant_id : ℕ
  pub assessment_id : ℕ
  pub alert_rule_id : ℕ
  pub subscription_id : ℕ
  pub channel : NotificationChannelType
  pub recipient : String
  pub severity : AlertSeverity
  pub metric_code : String
  pub triggered_value : V
  pub threshold : V
  pub operator : AlertOperator
  pub message : String
  pub status : NotificationStatus
  pub error : Option String
  pub created_at : ℕ

module _ {V : Type 0} (new_id now tenant_id assessment_id : ℕ) (rule : AlertRule V)
    (subscription_id : ℕ) (channel : NotificationChannelType) (recipient : String) (value : V)
    (message : String) where
  -- The fields that `Notification.sent` and `Notification.failed` share.
  abbrev of_rule : NotificationStatus → Option String → Notification V
  of_rule status error = record {
    id = new_id;
    tenant_id = tenant_id;
    assessment_id = assessment_id;
    alert_rule_id = rule.id;
    subscription_id = subscription_id;
    channel = channel;
    recipient = recipient;
    severity = rule.severity;
    metric_code = rule.metric_code;
    triggered_value = value;
    threshold = rule.threshold;
    operator = rule.operator;
    message = message;
    status = status;
    error = error;
    created_at = now;
  }

  -- `Notification.sent`, as `EvaluateAlertRulesHandler` calls it.
  unfoldable pub notify_sent : Notification V × Event V
  notify_sent = (
    of_rule sent none,
    notification_sent new_id tenant_id assessment_id rule.id channel rule.severity,
  )

  -- `Notification.failed`, as `EvaluateAlertRulesHandler` calls it.
  unfoldable pub notify_failed : String → Notification V × Event V
  notify_failed error = (
    of_rule failed (some error),
    notification_delivery_failed new_id tenant_id assessment_id rule.id channel rule.severity error,
  )
