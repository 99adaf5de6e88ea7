-- ===== src/Notification/Database.antt =====
-- contexts/notification/infrastructure/repositories.py: the tables, a row and the object that the
-- mappers make of it being one record.
use novaapi.Common.{
  ℕ, ◌≡◌, Bool, true, false, ◌&&◌, Option, List, [], ◌∷◌, ◌++◌, filter, Eq, ◌==◌, arith,
}
use novaapi.Common.Table.{put}
use novaapi.Session.{Exec, modify}
use novaapi.Outbox.{OutboxEvent, append_event}
use novaapi.Notification.Rule.{AlertRule}
use novaapi.Notification.Subscription.{NotificationSubscription, Notification}
use novaapi.Notification.Events.{Event}

-- `aggregate_type` with `aggregate_id`.
pub data Aggregate : Type 0 where
  alert_rule subscription notification : ℕ → Aggregate

abbrev pub same_aggregate : Aggregate → Aggregate → Bool
same_aggregate (alert_rule a) (alert_rule b) = a == b
same_aggregate (subscription a) (subscription b) = a == b
same_aggregate (notification a) (notification b) = a == b
same_aggregate _ _ = false

pub same_aggregate→≡ : (a b : Aggregate) → same_aggregate a b ≡ true → a ≡ b
same_aggregate→≡ (alert_rule a) (alert_rule b) h = ground arith
same_aggregate→≡ (subscription a) (subscription b) h = ground arith
same_aggregate→≡ (notification a) (notification b) h = ground arith
same_aggregate→≡ _ _ h = ground arith

pub ≡→same_aggregate : (a b : Aggregate) → a ≡ b → same_aggregate a b ≡ true
≡→same_aggregate (alert_rule a) (alert_rule b) h = ground arith
≡→same_aggregate (subscription a) (subscription b) h = ground arith
≡→same_aggregate (notification a) (notification b) h = ground arith
≡→same_aggregate _ _ h = ground arith

instance abbrev pub aggregate_eq : Eq Aggregate
aggregate_eq = record {
  beq = same_aggregate;
  beq_iff = λ a b. (same_aggregate→≡ a b, ≡→same_aggregate a b);
}

pub record Db (V : Type 0) : Type 0 where
  pub rules : List (AlertRule V)
  pub subscriptions : List NotificationSubscription
  pub notifications : List (Notification V)
  pub outbox : List (OutboxEvent Aggregate (Event V))

abbrev pub subscription_key : NotificationSubscription → ℕ
subscription_key s = s.id

module _ {V : Type 0} where
  abbrev pub rule_key : AlertRule V → ℕ
  rule_key r = r.id

  -- `list_active_by_tenant` of the rules, in the order in which the rows come.
  unfoldable pub active_rules : ℕ → Db V → List (AlertRule V)
  active_rules tenant_id db =
      filter (λ (r : AlertRule V). r.tenant_id == tenant_id && r.is_active) db.rules

  -- `list_active_by_tenant` of the subscriptions.
  unfoldable pub active_subscriptions : ℕ → Db V → List NotificationSubscription
  active_subscriptions tenant_id db =
      filter (λ (s : NotificationSubscription). s.tenant_id == tenant_id && s.is_active)
        db.subscriptions

  unfoldable pub save_rule : AlertRule V → Exec (Db V) (Unit {0})
  save_rule r = modify (λ db. record db { rules = put rule_key r db.rules })

  unfoldable pub save_subscription : NotificationSubscription → Exec (Db V) (Unit {0})
  save_subscription s =
      modify (λ db. record db { subscriptions = put subscription_key s db.subscriptions })

  -- `SqlAlchemyNotificationRepository.save` always adds a row.
  unfoldable pub save_notification : Notification V → Exec (Db V) (Unit {0})
  save_notification n = modify (λ db. record db { notifications = db.notifications ++ n ∷ [] })

  -- `append_event` in the transaction of the session.
  unfoldable pub append : Aggregate → Event V → Option ℕ → ℕ → Exec (Db V) (Unit {0})
  append k e tenant_id now =
      modify (λ db. record db { outbox = append_event k e tenant_id now db.outbox })
