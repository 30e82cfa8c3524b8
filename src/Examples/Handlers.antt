-- ===== src/Examples/Handlers.antt =====
-- The theorems about the handlers, on concrete tables.
use venue_backend.Common.{
  ◌+◌, ℕ, ◌≡◌, ◌↔◌, refl, Option, none, some, List, [], ◌∷◌, ◌++◌, inl, inr, arith, AreKeyed,
}
use venue_backend.Shared.Result.{success}
use venue_backend.Shared.Time.{utc, weekday_of}
use venue_backend.Shared.Text.{strip}
use venue_backend.Shared.Values.{
  create_range, create_description, create_money, DateTimeRange, ShortDescription, typed,
}
use venue_backend.Bookings.{Booking, create_pending, transition, create_change, is_valid_transition}
use venue_backend.Resources.Entity.{Resource}
use venue_backend.Resources.Pricing.{compute_price, sum_slots, slot_price}
use venue_backend.Resources.Pricing.Sum.{Slots}
use venue_backend.Store.{World, done, raised, ◌>>=◌, update_booking, add_booking, notify, replace}
use venue_backend.Store.Writes.{ArePriced}
use venue_backend.UseCases.Request.{
  RequestBookingCommand, request_booking, request_resource, validate_inputs, create_note, all_open,
  validate_alignment_and_hours,
}
use venue_backend.UseCases.Request.Grid.{AreOpen, IsNear, validate_alignment_and_hours_exact}
use venue_backend.UseCases.Request.Accepts.{
  IsAccepted, IsNote, request_notice, request_booking_accepts,
}
use venue_backend.UseCases.Approve.{ApproveBookingCommand, approve_booking}
use venue_backend.UseCases.Approve.Settles.{
  approval, approval_notice, rejection_notices, competitors_of,
}
use venue_backend.UseCases.Approve.Outcome.{CanApprove, IsSettled, approve_booking_settles}
use venue_backend.UseCases.Approve.Conflict.{approve_conflict_raises}
use venue_backend.UseCases.Decide.{
  RejectBookingCommand, reject_booking, CancelBookingCommand, cancel_booking,
}
use venue_backend.UseCases.Decide.Rejects.{refusal, refusal_notice, reject_overwrites}
use venue_backend.UseCases.Decide.Cancels.{
  CanCancel, cancellation, cancellation_notice, cancel_booking_accepts,
}
use venue_backend.Examples.{
  utc_zones, at_hour, range_from, hall, first_request, second_request, world_of, two_requests,
  taken, one_taken, alone, booking_of,
}

abbrev pub approve_first : ApproveBookingCommand
approve_first = record { actor_id = 9; booking_id = 1 }

first_CanApprove :
    (rows : List Booking) → CanApprove approve_first (world_of (first_request ∷ rows)) hall
first_CanApprove rows = record {
  seen = first_request;
  is_seen = refl;
  is_resource = refl;
  is_there = refl;
  is_owner = refl;
  is_operational = refl;
}

pub two-ArePriced : ArePriced two_requests.bookings
two-ArePriced b (inl e) = rw⁻¹ e refl
two-ArePriced b (inr (inl e)) = rw⁻¹ e refl
two-ArePriced b (inr (inr m)) = elim m [ ]

pub two-AreKeyed : AreKeyed (λ b. b.id) two_requests.bookings
two-AreKeyed = ((refl, tt), (tt, tt))

approve_booking_settles_example :
    (w' : World) × (approve_booking alone approve_first 100 two_requests
      ≡ done (approval approve_first 100 first_request) w')
    × IsSettled 9 100 first_request
        (approval approve_first 100 first_request)
        two_requests.bookings
        w'.bookings
    × (w'.notices
        ≡ ([] ++ approval_notice hall first_request ∷ [])
          ++ rejection_notices 5 (competitors_of first_request two_requests))
approve_booking_settles_example =
    approve_booking_settles alone approve_first 100 two_requests hall first_request
      (first_CanApprove _) refl refl refl two-ArePriced two-AreKeyed

approve_conflict_raises_example : approve_booking alone approve_first 100 one_taken ≡ raised
approve_conflict_raises_example =
    approve_conflict_raises alone approve_first 100 one_taken hall first_request taken
      (first_CanApprove _) refl refl (inr (inl refl)) (λ e. omega (arith, e)) refl refl refl

abbrev reject_second : RejectBookingCommand
reject_second = record { actor_id = 9; booking_id = 2; reason = none }

-- Another transaction approves the second request between the reading and the update.
abbrev takes_second : World → World
takes_second w = record w { bookings = first_request ∷ taken ∷ [] }

reject_overwrites_example :
    reject_booking takes_second reject_second 100 two_requests
    ≡ done (refusal reject_second 100 second_request) (record two_requests {
      bookings = replace (refusal reject_second 100 second_request) one_taken.bookings;
      notices = [] ++ refusal_notice reject_second hall second_request ∷ [];
    })
reject_overwrites_example =
    reject_overwrites takes_second reject_second 100 two_requests hall second_request refl refl refl
      refl refl refl refl

abbrev cancel_first : CancelBookingCommand
cancel_first = record { actor_id = 7; booking_id = 1; reason = none }

abbrev cancelled_first : Booking
cancelled_first = cancellation cancel_first 200 hall first_request

abbrev after_cancel : World
after_cancel = record two_requests {
  bookings = cancelled_first ∷ second_request ∷ [];
  notices = cancellation_notice cancel_first hall first_request ∷ [];
}

cancel_run :
    cancel_booking alone cancel_first 100 200 two_requests ≡ done cancelled_first after_cancel
unfolding cancel_booking ◌>>=◌ update_booking notify transition create_change is_valid_transition
cancel_run = refl

cancel_booking_accepts_example :
    (resource : Resource) × (b : Booking) × CanCancel cancel_first 100 two_requests resource b
    × (cancelled_first ≡ cancellation cancel_first 200 resource b)
    × (after_cancel.bookings ≡ replace cancelled_first two_requests.bookings)
    × (after_cancel.notices ≡ [] ++ cancellation_notice cancel_first resource b ∷ [])
cancel_booking_accepts_example =
    cancel_booking_accepts alone cancel_first 100 200 two_requests after_cancel cancelled_first
      cancel_run

abbrev ask_hall : RequestBookingCommand
ask_hall = record {
  actor_id = 7;
  resource_id = 5;
  slot_start_at = typed (utc (at_hour 10));
  slot_end_at = typed (utc (at_hour 12));
  customer_note = some " by the door ";
}

abbrev requested_booking : Booking
requested_booking = record (booking_of 3 7 (range_from 10 12)) {
  customer_note = some (record { content = "by the door" });
  created_at = utc 60;
  updated_at = utc 60;
}

abbrev after_request : World
after_request = record (world_of (second_request ∷ [])) {
  bookings = second_request ∷ requested_booking ∷ [];
  notices = request_notice ask_hall hall requested_booking ∷ [];
}

request_run :
    request_booking utc_zones 3 ask_hall 50 60 (world_of (second_request ∷ []))
    ≡ done requested_booking after_request
unfolding request_booking request_resource ◌>>=◌ add_booking notify create_pending validate_inputs
    create_range create_note create_description strip validate_alignment_and_hours all_open
    compute_price sum_slots slot_price weekday_of create_money
request_run = refl

request_booking_accepts_example :
    (resource : Resource) × (range : DateTimeRange) × (customer_note : Option ShortDescription)
    × IsAccepted utc_zones ask_hall 50 (world_of (second_request ∷ [])) resource range
    × IsNote ask_hall.customer_note customer_note
    × (requested_booking
        ≡ create_pending 3 resource.id 7 range
            (compute_price utc_zones resource range)
            customer_note
            (utc 60))
    × (after_request.bookings ≡ (second_request ∷ []) ++ requested_booking ∷ [])
    × (after_request.notices ≡ [] ++ request_notice ask_hall resource requested_booking ∷ [])
request_booking_accepts_example =
    request_booking_accepts utc_zones 3 ask_hall 50 60 (world_of (second_request ∷ []))
      after_request requested_booking request_run

validate_alignment_and_hours_exact_example :
    (n : ℕ) × Slots utc_zones hall n (at_hour 10) (at_hour 12)
    × ((validate_alignment_and_hours utc_zones hall (range_from 10 12) ≡ success tt)
        ↔ (IsNear utc_zones hall (range_from 10 12) × AreOpen utc_zones hall n (at_hour 10)))
validate_alignment_and_hours_exact_example =
    validate_alignment_and_hours_exact utc_zones hall (range_from 10 12) (omega arith)

-- 10:00:30 to 11:00:45, on a grid of 60 minutes.
off_grid_test :
    validate_alignment_and_hours utc_zones hall
      (record { start_at = at_hour 10 + 30_000_000; end_at = at_hour 11 + 45_000_000 })
    ≡ success tt
unfolding validate_alignment_and_hours all_open weekday_of
off_grid_test = refl
