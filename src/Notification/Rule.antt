-- ===== src/Notification/Rule.antt =====
-- The `AlertRule` aggregate of contexts/notification/domain/entities.py.
use novaapi.Common.{ℕ, String, Bool, true, false, not, ◌&&◌, Option, if◌then◌else◌}
use novaapi.Common.Text.{is_blank}
use novaapi.Errors.{Result, ok, err, invalid_alert_rule}
use novaapi.Notification.Types.{
  AlertSubjectType, AlertOperator, AlertSeverity, is_stage_result, is_missing,
}
use novaapi.Notification.Events.{
  Event, alert_rule_created, alert_rule_updated, alert_rule_activated, alert_rule_deactivated,
}

pub record AlertRule (V : Type 0) : Type 0 where
  pub id : ℕ
  pub tenant_id : ℕ
  pub name : String
  pub subject_type : AlertSubjectType
  pub hazard_type : Option String
  pub stage_type : Option String
  pub metric_code : String
  pub operator : AlertOperator
  pub threshold : V
  pub severity : AlertSeverity
  pub is_active : Bool
  pub created_by : String
  pub created_at : ℕ
  pub updated_at : ℕ

module _ {V : Type 0} where
  -- `AlertRule.create`, with the new id and the time.
  unfoldable pub create :
      ℕ
      → ℕ
      → ℕ
      → String
      → AlertSubjectType
      → Option String
      → Option String
      → String
      → AlertOperator
      → V
      → AlertSeverity
      → String
      → Result (AlertRule V × Event V)
  unfolding is_stage_result
  create new_id now tenant_id name subject_type hazard_type stage_type metric_code operator
        threshold severity created_by =
      if is_blank name
      then err invalid_alert_rule
      else if is_blank metric_code
      then err invalid_alert_rule
      else if is_stage_result subject_type && is_missing stage_type
      then err invalid_alert_rule
      else if not (is_stage_result subject_type) && not (is_missing stage_type)
      then err invalid_alert_rule
      else ok (
        record {
          id = new_id;
          tenant_id = tenant_id;
          name = name;
          subject_type = subject_type;
          hazard_type = hazard_type;
          stage_type = stage_type;
          metric_code = metric_code;
          operator = operator;
          threshold = threshold;
          severity = severity;
          is_active = true;
          created_by = created_by;
          created_at = now;
          updated_at = now;
        },
        alert_rule_created new_id tenant_id name subject_type metric_code operator threshold
            severity created_by,
      )

  unfoldable pub update_threshold : AlertRule V → V → String → ℕ → AlertRule V × Event V
  update_threshold r threshold changed_by now = (
    record r { threshold = threshold; updated_at = now },
    alert_rule_updated r.id r.tenant_id threshold changed_by,
  )

  unfoldable pub activate : AlertRule V → String → ℕ → AlertRule V × Event V
  activate r changed_by now = (
    record r { is_active = true; updated_at = now },
    alert_rule_activated r.id r.tenant_id changed_by,
  )

  unfoldable pub deactivate : AlertRule V → String → ℕ → AlertRule V × Event V
  deactivate r changed_by now = (
    record r { is_active = false; updated_at = now },
    alert_rule_deactivated r.id r.tenant_id changed_by,
  )
