-- ===== src/Notification/Events.antt =====
-- contexts/notification/domain/events.py: an event is its payload.
use novaapi.Common.{ℕ, String, List}
use novaapi.Notification.Types.{
  AlertSubjectType, AlertOperator, AlertSeverity, NotificationChannelType,
}

pub data Event (V : Type 0) : Type 0 where
  alert_rule_created :
      ℕ
      → ℕ
      → String
      → AlertSubjectType
      → String
      → AlertOperator
      → V
      → AlertSeverity
      → String
      → Event V
  alert_rule_updated : ℕ → ℕ → V → String → Event V
  alert_rule_activated alert_rule_deactivated : ℕ → ℕ → String → Event V
  subscription_created : ℕ → ℕ → ℕ → List NotificationChannelType → Event V
  subscription_activated subscription_deactivated : ℕ → ℕ → String → Event V
  notification_sent : ℕ → ℕ → ℕ → ℕ → NotificationChannelType → AlertSeverity → Event V
  notification_delivery_failed :
      ℕ → ℕ → ℕ → ℕ → NotificationChannelType → AlertSeverity → String → Event V
