-- ===== src/Assessment/Types.antt =====
-- contexts/assessment/domain/value_objects.py
use novaapi.Common.{◌≡◌, ◌↔◌, Bool, true, false, arith}

pub data AssessmentStatus : Type 0 where
  draft ready running validated reported archived cancelled : AssessmentStatus

pub data HazardType : Type 0 where
  flood wildfire drought landslide : HazardType

-- `a == b` on hazard types.
unfoldable pub same_hazard : HazardType → HazardType → Bool
same_hazard flood flood = true
same_hazard wildfire wildfire = true
same_hazard drought drought = true
same_hazard landslide landslide = true
same_hazard _ _ = false

pub same_hazard_iff : (a b : HazardType) → (same_hazard a b ≡ true) ↔ (a ≡ b)
unfolding same_hazard
same_hazard_iff a b = (λ h. ground arith, λ h. ground arith)

-- `LEGAL_TRANSITIONS`: whether the second status may follow the first.
unfoldable pub legal : AssessmentStatus → AssessmentStatus → Bool
legal draft ready = true
legal draft cancelled = true
legal ready running = true
legal ready cancelled = true
legal running validated = true
legal running cancelled = true
legal validated reported = true
legal validated cancelled = true
legal reported archived = true
legal _ _ = false

-- `status == AssessmentStatus.RUNNING`
unfoldable pub is_running : AssessmentStatus → Bool
is_running running = true
is_running _ = false
