-- ===== src/Bookings/Lifecycle.antt =====
-- What the transitions of a booking do, and the history that they leave.
use venue_backend.Common.{
  ℕ, ◌≡◌, refl, String, true, false, Option, none, List, [], ◌∷◌, ◌++◌, arith,
}
use venue_backend.Shared.Time.{DateTime, utc}
use venue_backend.Shared.Values.{DateTimeRange, Money, ShortDescription}
use venue_backend.Shared.Result.{success, value}
use venue_backend.Bookings.Status.{
  Role, BookingStatus, pending, StatusChange, is_valid_transition, create_change, reason_too_long,
}
use venue_backend.Bookings.Entity.{Booking, create_pending, transition}

-- A history that leads from one status to another, each change from where the last one ended.
abbrev pub Leads : BookingStatus → List StatusChange → BookingStatus → Type 0
Leads from [] to = from ≡ to
Leads from (c ∷ cs) to =
    (c.from_status ≡ from) × (is_valid_transition from c.to_status ≡ true) × Leads c.to_status cs to

-- The history of a booking leads from PENDING to its status.
abbrev pub IsRecorded : Booking → Type 0
IsRecorded b = Leads pending b.status_history b.status

pub Leads-append :
    (from : BookingStatus) (cs : List StatusChange) (mid to : BookingStatus) (c : StatusChange)
    → Leads from cs mid
    → c.from_status ≡ mid
    → is_valid_transition mid c.to_status ≡ true
    → c.to_status ≡ to
    → Leads from (cs ++ c ∷ []) to
Leads-append from [] mid to c h e v t = ground arith
Leads-append from (d ∷ cs) mid to c h e v t =
    (h.0, h.1, Leads-append d.to_status cs mid to c h.2 e v t)

-- The booking after a change to `to`: the status, the history and `updated_at` are new.
abbrev pub moved : Booking → BookingStatus → ℕ → Role → DateTime → Option String → Booking
moved b to actor_id role now reason = record b {
  status = to;
  status_history =
      b.status_history
      ++ record {
        from_status = b.status;
        to_status = to;
        actor_id = actor_id;
        actor_role = role;
        at = now;
        reason = reason;
      }
        ∷ [];
  updated_at = now;
}

module _ (b : Booking) (to : BookingStatus) (actor_id : ℕ) (role : Role) (now : DateTime)
    (reason : Option String) where
  pub transition-eq-success :
      {b' : Booking}
      → transition b to actor_id role now reason ≡ success b'
      → (is_valid_transition b.status to ≡ true) × (b' ≡ moved b to actor_id role now reason)
  unfolding transition create_change
  transition-eq-success h = ground arith

  pub transition-IsRecorded :
      {b' : Booking}
      → IsRecorded b
      → transition b to actor_id role now reason ≡ success b'
      → IsRecorded b'
  transition-IsRecorded r h =
      let (v, e) = transition-eq-success h in
      rw e (Leads-append pending b.status_history b.status to _ r refl v refl)

  pub transition_outside :
      is_valid_transition b.status to ≡ false
      → value (transition b to actor_id role now reason) ≡ none
  unfolding transition create_change
  transition_outside v = ground arith

-- A transition of the table that is given a zoned time and a reason that fits succeeds.
pub transition_succeeds :
    (b : Booking) (to : BookingStatus) (actor_id : ℕ) (role : Role) (t : ℕ) (reason : Option String)
    → is_valid_transition b.status to ≡ true
    → reason_too_long reason ≡ false
    → transition b to actor_id role (utc t) reason
      ≡ success (moved b to actor_id role (utc t) reason)
unfolding transition create_change
transition_succeeds b to actor_id role t reason v f = ground arith

pub IsRecorded-create_pending :
    (id resource_id customer_id : ℕ) (range : DateTimeRange) (price : Option Money)
    (customer_note : Option ShortDescription) (now : DateTime)
    → IsRecorded (create_pending id resource_id customer_id range price customer_note now)
unfolding create_pending
IsRecorded-create_pending id resource_id customer_id range price customer_note now = refl
