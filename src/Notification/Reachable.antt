-- ===== src/Notification/Reachable.antt =====
-- Recipients of a subscription, and the stage of an alert rule
-- (contexts/notification/domain/entities.py).
use novaapi.Common.{ℕ, String, ◌≡◌, ◌≢◌, Bool, true, false, Option, none, List, [], arith}
use novaapi.Errors.{ok}
use novaapi.Notification.Types.{NotificationChannelType, email, sms, in_app}
use novaapi.Notification.Events.{Event}
use novaapi.Notification.Subscription.{
  NotificationSubscription, has_channel, subscribe, activate_subscription, deactivate_subscription,
}
use novaapi.Notification.Evaluate.{resolve_recipient}

-- Each selected channel has a recipient.
pub record IsReachable (show_id : ℕ → String) (s : NotificationSubscription) : Type 0 where
  pub selected : s.channels ≢ []
  pub reached :
      (c : NotificationChannelType)
      → has_channel c s.channels ≡ true
      → resolve_recipient show_id c s ≢ none

reached_by :
    {V : Type 0} (show_id : ℕ → String) (new_id now tenant_id user_id : ℕ)
    (hazard_type : Option String) (channels : List NotificationChannelType)
    (email_address phone_number : Option String) (s : NotificationSubscription) (e : Event V)
    (c : NotificationChannelType)
    → subscribe new_id now tenant_id user_id hazard_type channels email_address phone_number
      ≡ ok (s, e)
    → has_channel c s.channels ≡ true
    → resolve_recipient show_id c s ≢ none
unfolding subscribe resolve_recipient
reached_by show_id new_id now tenant_id user_id hazard_type channels email_address phone_number s e
      email h m =
    ground arith
reached_by show_id new_id now tenant_id user_id hazard_type channels email_address phone_number s e
      sms h m =
    ground arith
reached_by show_id new_id now tenant_id user_id hazard_type channels email_address phone_number s e
      in_app h m =
    ground arith

IsReachable-active :
    (show_id : ℕ → String) (s : NotificationSubscription) (b : Bool)
    → IsReachable show_id s
    → IsReachable show_id (record s { is_active = b })
unfolding resolve_recipient
IsReachable-active show_id s b r = record { selected = r.selected; reached = reached_still }
  where
    reached_still :
        (c : NotificationChannelType)
        → has_channel c s.channels ≡ true
        → resolve_recipient show_id c (record s { is_active = b }) ≢ none
    reached_still email m = r.reached email m
    reached_still sms m = r.reached sms m
    reached_still in_app m = r.reached in_app m

-- A subscription that is accepted selects a channel and has a recipient for each that it selects, and
-- so it has after it is deactivated and activated again.
pub subscribe-IsReachable :
    {V : Type 0} (show_id : ℕ → String) (new_id now tenant_id user_id : ℕ)
    (hazard_type : Option String) (channels : List NotificationChannelType)
    (email_address phone_number : Option String) (who who' : String) (s : NotificationSubscription)
    (e : Event V)
    → subscribe new_id now tenant_id user_id hazard_type channels email_address phone_number
      ≡ ok (s, e)
    → IsReachable show_id s
      × IsReachable show_id
          (activate_subscription {V = V} (deactivate_subscription {V = V} s who).0 who').0
unfolding subscribe activate_subscription deactivate_subscription
subscribe-IsReachable show_id new_id now tenant_id user_id hazard_type channels email_address
      phone_number who who' s e h =
    let r : IsReachable show_id s = record {
      selected = ground arith;
      reached = λ c m.
          reached_by show_id new_id now tenant_id user_id hazard_type channels email_address
            phone_number s e c h m;
    } in
    (r, IsReachable-active show_id _ true (IsReachable-active show_id s false r))
