-- ===== src/Notification.antt =====
-- contexts/notification: alert rules, subscriptions, and the evaluation that sends notifications.
pub mod Types
pub mod Rule
pub mod Subscription
pub mod Events
pub mod Database
pub mod Handlers
pub mod Evaluate
pub mod Reachable
mod Tests
