-- ===== src/Notification/Types.antt =====
-- contexts/notification/domain/value_objects.py. The measured values are floating-point numbers: a type
-- `V` with its comparisons and its text.
use novaapi.Common.{String, Bool, true, false, Option, none, some}
use novaapi.Common.Text.{is_empty}

pub data AlertSubjectType : Type 0 where
  stage_result prediction validation : AlertSubjectType

pub data AlertOperator : Type 0 where
  greater_than less_than greater_than_or_equal less_than_or_equal : AlertOperator

pub data AlertSeverity : Type 0 where
  low medium high critical : AlertSeverity

pub data NotificationChannelType : Type 0 where
  email sms in_app : NotificationChannelType

pub data NotificationStatus : Type 0 where
  sent failed : NotificationStatus

-- `float`: its comparisons, and `str`.
pub record Floats (V : Type 0) : Type 0 where
  pub gt : V → V → Bool
  pub lt : V → V → Bool
  pub ge : V → V → Bool
  pub le : V → V → Bool
  pub show : V → String

-- `AlertOperator.evaluate`
unfoldable pub evaluate : {V : Type 0} → Floats V → AlertOperator → V → V → Bool
evaluate f greater_than actual threshold = f.gt actual threshold
evaluate f less_than actual threshold = f.lt actual threshold
evaluate f greater_than_or_equal actual threshold = f.ge actual threshold
evaluate f less_than_or_equal actual threshold = f.le actual threshold

-- `a == b` on channel types.
unfoldable pub same_channel : NotificationChannelType → NotificationChannelType → Bool
same_channel email email = true
same_channel sms sms = true
same_channel in_app in_app = true
same_channel _ _ = false

-- `subject_type is AlertSubjectType.STAGE_RESULT`
unfoldable pub is_stage_result : AlertSubjectType → Bool
is_stage_result stage_result = true
is_stage_result _ = false

-- `not text`, where `text` is a `str | None`.
abbrev pub is_missing : Option String → Bool
is_missing none = true
is_missing (some s) = is_empty s
