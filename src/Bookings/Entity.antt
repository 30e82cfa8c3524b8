-- ===== src/Bookings/Entity.antt =====
-- booking.py. A method that mutates the entity returns the new entity, or its failure; the entity
-- is then as it was.
use venue_backend.Common.{ℕ, ◌/◌, String, Option, none, some, List, [], ◌∷◌, ◌++◌}
use venue_backend.Shared.Time.{DateTime}
use venue_backend.Shared.Result.{Result, success, ◌>>=◌}
use venue_backend.Shared.Values.{DateTimeRange, duration_minutes, Money, ShortDescription}
use venue_backend.Bookings.Status.{
  Role, owner, customer, BookingStatus, pending, approved, rejected, cancelled, expired,
  StatusChange, create_change,
}

-- `total_price_cents` may be `None` at run time: see `compute_price`.
pub record Booking : Type 0 where
  pub id : ℕ
  pub resource_id : ℕ
  pub customer_id : ℕ
  pub slot_range : DateTimeRange
  pub status : BookingStatus
  pub total_price_cents : Option Money
  pub customer_note : Option ShortDescription
  pub status_history : List StatusChange
  pub created_at : DateTime
  pub updated_at : DateTime

-- `id` is what `uuid4()` returns.
unfoldable pub create_pending :
    ℕ → ℕ → ℕ → DateTimeRange → Option Money → Option ShortDescription → DateTime → Booking
create_pending id resource_id customer_id slot_range price note now = record {
  id = id;
  resource_id = resource_id;
  customer_id = customer_id;
  slot_range = slot_range;
  status = pending;
  total_price_cents = price;
  customer_note = note;
  status_history = [];
  created_at = now;
  updated_at = now;
}

-- `slot_count`, of a duration that is not zero.
abbrev pub slot_count : Booking → ℕ → ℕ
slot_count b minutes = duration_minutes b.slot_range / minutes

-- `_transition`
unfoldable pub transition :
    Booking → BookingStatus → ℕ → Role → DateTime → Option String → Result Booking
transition b to_status actor_id role now reason =
    create_change b.status to_status actor_id role now reason >>= λ change. success (record b {
      status = to_status;
      status_history = b.status_history ++ change ∷ [];
      updated_at = now;
    })

abbrev pub approve : Booking → ℕ → DateTime → Result Booking
approve b actor_id now = transition b approved actor_id owner now none

abbrev pub reject : Booking → ℕ → DateTime → Option String → Result Booking
reject b actor_id now reason = transition b rejected actor_id owner now reason

abbrev pub cancel : Booking → ℕ → Role → DateTime → Option String → Result Booking
cancel b actor_id role now reason = transition b cancelled actor_id role now reason

abbrev pub expire : Booking → DateTime → Result Booking
expire b now =
    transition b expired b.customer_id customer now (some "slot_start_passed_with_no_decision")
