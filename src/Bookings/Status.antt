-- ===== src/Bookings/Status.antt =====
-- booking_status.py, status_change.py and role.py
use venue_backend.Common.{ℕ, String, Bool, true, false, not, Option, none, some, ltb, if◌then◌else◌}
use venue_backend.Shared.Time.{DateTime, is_naive}
use venue_backend.Shared.Text.{size}
use venue_backend.Shared.Result.{Result, success}
use venue_backend.Shared.Values.{fail_with}

pub data Role : Type 0 where
  admin owner customer : Role

pub data BookingStatus : Type 0 where
  pending approved rejected cancelled expired : BookingStatus

abbrev pub is_pending : BookingStatus → Bool
is_pending pending = true
is_pending _ = false

abbrev pub is_approved : BookingStatus → Bool
is_approved approved = true
is_approved _ = false

-- `BookingStatus.is_active`
abbrev pub is_active : BookingStatus → Bool
is_active pending = true
is_active approved = true
is_active _ = false

-- `BookingStatus.is_terminal`
abbrev pub is_terminal : BookingStatus → Bool
is_terminal rejected = true
is_terminal cancelled = true
is_terminal expired = true
is_terminal _ = false

pub record StatusChange : Type 0 where
  pub from_status : BookingStatus
  pub to_status : BookingStatus
  pub actor_id : ℕ
  pub actor_role : Role
  pub at : DateTime
  pub reason : Option String

-- `_VALID_TRANSITIONS` and `_is_valid_transition`
unfoldable pub is_valid_transition : BookingStatus → BookingStatus → Bool
is_valid_transition pending approved = true
is_valid_transition pending rejected = true
is_valid_transition pending cancelled = true
is_valid_transition pending expired = true
is_valid_transition approved cancelled = true
is_valid_transition _ _ = false

-- `reason is not None and len(reason) > _REASON_MAX_LENGTH`
abbrev pub reason_too_long : Option String → Bool
reason_too_long none = false
reason_too_long (some s) = ltb 500 (size s)

-- `StatusChange.create`
unfoldable pub create_change :
    BookingStatus → BookingStatus → ℕ → Role → DateTime → Option String → Result StatusChange
create_change from to actor_id role at reason =
    if is_naive at.tzinfo
    then fail_with "StatusChangeAtNotTzAware"
    else if reason_too_long reason
    then fail_with "StatusChangeReasonTooLong"
    else if not (is_valid_transition from to)
    then fail_with "StatusChangeInvalidTransition"
    else success (record {
      from_status = from;
      to_status = to;
      actor_id = actor_id;
      actor_role = role;
      at = at;
      reason = reason;
    })
