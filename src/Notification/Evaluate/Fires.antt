-- ===== src/Notification/Evaluate/Fires.antt =====
-- Which notifications `EvaluateAlertRulesHandler` sends.
use mathlib.Core.List.{append_assoc, append-nil, map-append}
use novaapi.Common.{
  length, ℕ, String, ◌≡◌, refl, ap, sym, ◌∙◌, Option, none, some, List, [], ◌∷◌, ◌++◌, map,
  if◌then◌else◌, arith, Bool-cases, inl, inr,
}
use novaapi.Errors.{Result, ok}
use novaapi.Session.{Exec, Session, pure, ◌>>=◌}
use novaapi.Notification.Types.{NotificationChannelType, AlertSeverity, evaluate}
use novaapi.Notification.Rule.{AlertRule}
use novaapi.Notification.Subscription.{NotificationSubscription, Notification}
use novaapi.Notification.Database.{Db}
use novaapi.Notification.Evaluate.{
  Env, AssessmentInfo, ChannelDeliveryResult, resolve_recipient, message_of, notification_of,
  notify_via, notify_channels, notify_subscriptions, apply_rule, metric_of, apply_rules,
}

-- What a notification says and to whom.
pub record Firing (V : Type 0) : Type 0 where
  pub tenant_id : ℕ
  pub assessment_id : ℕ
  pub alert_rule_id : ℕ
  pub subscription_id : ℕ
  pub channel : NotificationChannelType
  pub recipient : String
  pub severity : AlertSeverity
  pub triggered_value : V
  pub message : String

abbrev pub firing_of : {V : Type 0} → Notification V → Firing V
firing_of n = record {
  tenant_id = n.tenant_id;
  assessment_id = n.assessment_id;
  alert_rule_id = n.alert_rule_id;
  subscription_id = n.subscription_id;
  channel = n.channel;
  recipient = n.recipient;
  severity = n.severity;
  triggered_value = n.triggered_value;
  message = n.message;
}

abbrev pub concat_map : {A B : Type 0} → (A → List B) → List A → List B
concat_map f [] = []
concat_map f (x ∷ xs) = f x ++ concat_map f xs

module _ {V : Type 0} (env : Env V) (tenant_id assessment_id : ℕ) (info : AssessmentInfo) where
  abbrev pub fires_via :
      {S : Type 0}
      → AlertRule V
      → V
      → ℕ
      → NotificationChannelType
      → Option String
      → Option S
      → List (Firing V)
  fires_via rule value sid c none sender = []
  fires_via rule value sid c (some recipient) none = []
  fires_via rule value sid c (some recipient) (some send) =
      record {
        tenant_id = tenant_id;
        assessment_id = assessment_id;
        alert_rule_id = rule.id;
        subscription_id = sid;
        channel = c;
        recipient = recipient;
        severity = rule.severity;
        triggered_value = value;
        message = message_of env tenant_id assessment_id info rule value;
      }
      ∷ []

  -- What a rule asks for on the value of its metric.
  abbrev pub fires_at : AlertRule V → V → List NotificationSubscription → List (Firing V)
  fires_at rule value ss =
      concat_map
        (λ (s : NotificationSubscription).
          concat_map
            (λ c.
              fires_via rule value s.id c (resolve_recipient env.show_id c s) (env.channel_for c))
            s.channels)
        ss

  abbrev pub fires : AlertRule V → Option V → List NotificationSubscription → List (Firing V)
  fires rule none ss = []
  fires rule (some value) ss =
      if evaluate env.floats rule.operator value rule.threshold then fires_at rule value ss else []

  -- A run of the loops that has sent what is asked for, stored it, and touched no rule.
  pub record Sends (s : Session (Db V)) (ns : List (Notification V)) (fs : List (Firing V))
      (run : Result (List (Notification V)) × Session (Db V)) : Type 0 where
    pub new : List (Notification V)
    pub returned : run.0 ≡ ok (ns ++ new)
    pub named : map firing_of new ≡ fs
    pub stored : run.1.work.notifications ≡ s.work.notifications ++ new
    pub same_rules : run.1.work.rules ≡ s.work.rules
    pub same_subscriptions : run.1.work.subscriptions ≡ s.work.subscriptions

  abbrev Loop : Type 0
  Loop = List (Notification V) → Exec (Db V) (List (Notification V))

  Sends-nothing : (s : Session (Db V)) (ns : List (Notification V)) → Sends s ns [] (pure ns s)
  Sends-nothing s ns = record {
    new = [];
    returned = ap (λ x. ok x) (sym (append-nil ns));
    named = refl;
    stored = sym (append-nil s.work.notifications);
    same_rules = refl;
    same_subscriptions = refl;
  }

  Sends->>= :
      (m f : Loop) (s : Session (Db V)) (ns : List (Notification V)) (fs gs : List (Firing V))
      → Sends s ns fs (m ns s)
      → ((t : Session (Db V)) (ms : List (Notification V)) → Sends t ms gs (f ms t))
      → Sends s ns (fs ++ gs) ((m ns >>= f) s)
  Sends->>= m f s ns fs gs a b =
      let c = b (m ns s).1 (ns ++ a.new) in
      rw (a.returned, ◌>>=◌)
        (record {
          new = a.new ++ c.new;
          returned = c.returned ∙ ap (λ x. ok x) (append_assoc ns a.new c.new);
          named = map-append firing_of a.new c.new ∙ (rw (a.named, c.named));
          stored =
              c.stored
              ∙ ap (λ x. x ++ c.new) a.stored
              ∙ append_assoc s.work.notifications a.new c.new;
          same_rules = c.same_rules ∙ a.same_rules;
          same_subscriptions = c.same_subscriptions ∙ a.same_subscriptions;
        })

  Sends-notify_via :
      (rule : AlertRule V) (value : V) (sid : ℕ) (c : NotificationChannelType) (to : Option String)
      (sender : Option (ℕ → String → String → String → ChannelDeliveryResult)) (s : Session (Db V))
      (ns : List (Notification V))
      → Sends s ns
          (fires_via rule value sid c to sender)
          (notify_via env tenant_id assessment_id info rule value sid c to sender ns s)
  unfolding notify_via
  Sends-notify_via rule value sid c none sender s ns = Sends-nothing s ns
  Sends-notify_via rule value sid c (some to) none s ns = Sends-nothing s ns
  Sends-notify_via rule value sid c (some to) (some send) s ns =
      let i = length ns in
      let result = send i to rule.name (message_of env tenant_id assessment_id info rule value) in
      let n : Notification V =
        (notification_of env tenant_id assessment_id info rule value sid c to i result).0 in
      record {
        new = n ∷ [];
        returned = refl;
        named =
            unfold notification_of in
            (elim (Bool-cases result.delivered) [ inl d ↦ ground arith | inr d ↦ ground arith ]);
        stored = refl;
        same_rules = refl;
        same_subscriptions = refl;
      }

  Sends-notify_channels :
      (rule : AlertRule V) (value : V) (sub : NotificationSubscription)
      (cs : List NotificationChannelType) (s : Session (Db V)) (ns : List (Notification V))
      → Sends s ns
          (concat_map
            (λ c.
              fires_via rule value sub.id c
                (resolve_recipient env.show_id c sub)
                (env.channel_for c))
            cs)
          (notify_channels env tenant_id assessment_id info rule value sub cs ns s)
  unfolding notify_channels
  Sends-notify_channels rule value sub [] s ns = Sends-nothing s ns
  Sends-notify_channels rule value sub (c ∷ cs) s ns =
      Sends->>=
        (notify_via env tenant_id assessment_id info rule value sub.id c
          (resolve_recipient env.show_id c sub) (env.channel_for c))
        (notify_channels env tenant_id assessment_id info rule value sub cs) s ns _ _
        (Sends-notify_via rule value sub.id c (resolve_recipient env.show_id c sub)
          (env.channel_for c) s ns)
        (λ t ms. Sends-notify_channels rule value sub cs t ms)

  Sends-notify_subscriptions :
      (rule : AlertRule V) (value : V) (subs : List NotificationSubscription) (s : Session (Db V))
      (ns : List (Notification V))
      → Sends s ns
          (fires_at rule value subs)
          (notify_subscriptions env tenant_id assessment_id info rule value subs ns s)
  unfolding notify_subscriptions
  Sends-notify_subscriptions rule value [] s ns = Sends-nothing s ns
  Sends-notify_subscriptions rule value (sub ∷ subs) s ns =
      Sends->>= (notify_channels env tenant_id assessment_id info rule value sub sub.channels)
        (notify_subscriptions env tenant_id assessment_id info rule value subs) s ns _ _
        (Sends-notify_channels rule value sub sub.channels s ns)
        (λ t ms. Sends-notify_subscriptions rule value subs t ms)

  Sends-apply_rule :
      (rule : AlertRule V) (value : Option V) (subs : List NotificationSubscription)
      (s : Session (Db V)) (ns : List (Notification V))
      → Sends s ns
          (fires rule value subs)
          (apply_rule env tenant_id assessment_id info rule value subs ns s)
  unfolding apply_rule
  Sends-apply_rule rule none subs s ns = Sends-nothing s ns
  Sends-apply_rule rule (some value) subs s ns =
      elim (Bool-cases (evaluate env.floats rule.operator value rule.threshold)) [
        | inl e ↦ rw e (Sends-notify_subscriptions rule value subs s ns)
        | inr e ↦ rw e (Sends-nothing s ns)
      ]

  pub Sends-apply_rules :
      (rules : List (AlertRule V)) (subs : List NotificationSubscription) (s : Session (Db V))
      (ns : List (Notification V))
      → Sends s ns
          (concat_map
            (λ (r : AlertRule V). fires r (metric_of env tenant_id assessment_id info r) subs)
            rules)
          (apply_rules env tenant_id assessment_id info rules subs ns s)
  unfolding apply_rules
  Sends-apply_rules [] subs s ns = Sends-nothing s ns
  Sends-apply_rules (r ∷ rs) subs s ns =
      Sends->>=
        (apply_rule env tenant_id assessment_id info r
          (metric_of env tenant_id assessment_id info r) subs)
        (apply_rules env tenant_id assessment_id info rs subs) s ns _ _
        (Sends-apply_rule r (metric_of env tenant_id assessment_id info r) subs s ns)
        (λ t ms. Sends-apply_rules rs subs t ms)
