-- ===== src/Examples/Sweeps.antt =====
-- The theorems about the sweeps over the tables, and about runs of several handlers, on concrete tables.
use venue_backend.Common.{
  some, ◌≡◌, sym, ap, ◌∙◌, refl, false, List, [], ◌∷◌, ◌++◌, inl, inr, length, map, if◌then◌else◌,
  ◌==◌, ◌&&◌,
}
use venue_backend.Bookings.{Booking, is_pending, transition, create_change, is_valid_transition}
use venue_backend.Bookings.Lifecycle.{IsRecorded}
use venue_backend.Store.{
  World, done, ◌>>=◌, update_booking, notify, replace_resource, list_pending_with_start_before,
  list_pending_for_resource, get_booking,
}
use venue_backend.Store.Rows.{IsRow}
use venue_backend.Store.Updates.{IsConsistent, Apart}
use venue_backend.UseCases.Approve.{
  approvable, approve_locked, reject_all, notify_rejected, approve_booking,
}
use venue_backend.UseCases.Approve.Settles.{approval, approval_notice}
use venue_backend.UseCases.Expire.{expire_pending_bookings}
use venue_backend.UseCases.Expire.Clears.{
  is_stale, expiry, expiry_notices, expire_pending_bookings_clears,
}
use venue_backend.UseCases.SoftDelete.{SoftDeleteResourceCommand, soft_delete_resource}
use venue_backend.UseCases.SoftDelete.Withdrawn.{withdrawal, withdrawal_notices}
use venue_backend.UseCases.SoftDelete.Clears.{
  CanDelete, deletion, still_open, soft_delete_resource_clears,
}
use venue_backend.UseCases.Distinct.{no_duplicate_requests}
use venue_backend.UseCases.Distinct.Rows.{Distinct, AreDistinct}
use venue_backend.UseCases.Consistent.{no_double_booking}
use venue_backend.UseCases.Calendar.{IsReserved, calendar_of, approves}
use venue_backend.Store.Writes.{ArePriced}
use venue_backend.UseCases.Calendar.Refined.{handlers_refine_calendar}
use venue_backend.UseCases.Steps.{here, next, approved_by, returned}
use venue_backend.Examples.{at_hour, hall, first_request, world_of, two_requests, alone}
use venue_backend.Shared.Time.{utc}
use venue_backend.Subscriptions.{OwnerSubscription, trialing}
use venue_backend.Store.{is_expired_trial, list_trialing_with_expiry_before}
use venue_backend.UseCases.Trials.{expire_trials}
use venue_backend.UseCases.Trials.Ended.{IsSub, trial_notices}
use venue_backend.UseCases.Trials.Ended
use venue_backend.UseCases.Trials.Clears.{expire_trials_clears}
use venue_backend.Examples.{subscription}
use venue_backend.Examples.Handlers.{approve_first, two-ArePriced, two-AreKeyed}

expire_pending_bookings_clears_example :
    (w' : World) × (expire_pending_bookings (at_hour 11) two_requests
      ≡ done (length (list_pending_with_start_before (at_hour 11) two_requests)) w')
    × (w'.bookings
        ≡ map
            (λ b. if is_stale (at_hour 11) b then expiry (at_hour 11) b else b)
            two_requests.bookings)
    × ((x : Booking) → IsRow x w'.bookings → is_stale (at_hour 11) x ≡ false)
    × (w'.notices ≡ [] ++ expiry_notices (list_pending_with_start_before (at_hour 11) two_requests))
expire_pending_bookings_clears_example =
    expire_pending_bookings_clears (at_hour 11) two_requests two-ArePriced two-AreKeyed

abbrev delete_hall : SoftDeleteResourceCommand
delete_hall = record { actor_id = 9; resource_id = 5 }

hall-CanDelete : (rows : List Booking) → CanDelete delete_hall (world_of rows) hall
hall-CanDelete rows = record { is_resource = refl; is_owner = refl; is_there = refl }

soft_delete_resource_clears_example :
    (w' : World) × (soft_delete_resource delete_hall 100 two_requests ≡ done tt w')
    × (w'.resources ≡ replace_resource (deletion 100 hall) (hall ∷ []))
    × (w'.bookings
        ≡ map
            (λ b. if b.resource_id == 5 && is_pending b.status then withdrawal 9 100 b else b)
            two_requests.bookings)
    × ((x : Booking) → IsRow x w'.bookings → still_open hall 100 x ≡ false)
    × (w'.notices
        ≡ []
          ++ withdrawal_notices 5
              (map (withdrawal 9 100) (list_pending_for_resource 5 two_requests)))
soft_delete_resource_clears_example =
    soft_delete_resource_clears delete_hall 100 two_requests hall (hall-CanDelete _) refl
      two-ArePriced two-AreKeyed

abbrev one_request : World
one_request = world_of (first_request ∷ [])

abbrev after_approval : World
after_approval = record one_request {
  bookings = approval approve_first 100 first_request ∷ [];
  notices = approval_notice hall first_request ∷ [];
}

approval_run :
    approve_booking alone approve_first 100 one_request
    ≡ done (approval approve_first 100 first_request) after_approval
unfolding approve_booking approvable approve_locked ◌>>=◌ update_booking notify transition
    create_change is_valid_transition reject_all notify_rejected
approval_run = refl

one-IsConsistent : IsConsistent one_request
one-IsConsistent = record {
  apart = λ x y mx my. single x y mx my;
  recorded = λ x m. recorded_one x m;
}
  where
    single :
        (x y : Booking) → IsRow x one_request.bookings → IsRow y one_request.bookings → Apart x y
    single x y (inl e) (inl f) = λ d. absurd (d (ap (λ b. b.id) (sym e ∙ f)))
    single x y (inl e) (inr m) = elim m [ ]
    single x y (inr m) my = elim m [ ]

    recorded_one : (x : Booking) → IsRow x one_request.bookings → IsRecorded x
    recorded_one x (inl e) = rw⁻¹ e refl
    recorded_one x (inr m) = elim m [ ]

no_double_booking_example : IsConsistent after_approval
no_double_booking_example =
    no_double_booking {w = one_request} {w' = after_approval} one-IsConsistent
      (next here (approved_by alone approve_first 100 (λ w i. i) (returned _ approval_run)))

-- A trial that ended at 9:00.
abbrev trial : OwnerSubscription
trial = record subscription { status = trialing; trial_ends_at = some (utc (at_hour 9)) }

-- A trial of another owner, still running.
abbrev later_trial : OwnerSubscription
later_trial = record trial { id = 2; owner_id = 8; trial_ends_at = some (utc (at_hour 12)) }

abbrev two_trials : World
two_trials = record (world_of []) { subscriptions = trial ∷ later_trial ∷ [] }

expire_trials_clears_example :
    (w' : World) × (expire_trials 14 (at_hour 10) two_trials
      ≡ done (length (list_trialing_with_expiry_before (at_hour 10) two_trials)) w')
    × (w'.subscriptions
        ≡ map
            (λ s. if is_expired_trial (at_hour 10) s then Ended.expiry (at_hour 10) s else s)
            (trial ∷ later_trial ∷ []))
    × ((x : OwnerSubscription) → IsSub x w'.subscriptions → is_expired_trial (at_hour 10) x ≡ false)
    × (w'.notices ≡ [] ++ trial_notices (list_trialing_with_expiry_before (at_hour 10) two_trials))
expire_trials_clears_example =
    expire_trials_clears 14 (at_hour 10) two_trials ((refl, tt), (tt, tt))

one-AreDistinct : AreDistinct one_request
one-AreDistinct = record { pair = λ x y mx my. single x y mx my }
  where
    single :
        (x y : Booking) → IsRow x one_request.bookings → IsRow y one_request.bookings → Distinct x y
    single x y (inl e) (inl f) = λ d. absurd (d (ap (λ b. b.id) (sym e ∙ f)))
    single x y (inl e) (inr m) = elim m [ ]
    single x y (inr m) my = elim m [ ]

no_duplicate_requests_example : AreDistinct after_approval
no_duplicate_requests_example =
    no_duplicate_requests {w = one_request} {w' = after_approval} one-AreDistinct
      (next here (approved_by alone approve_first 100 (λ w i. i) (returned _ approval_run)))

one-ArePriced : ArePriced one_request.bookings
one-ArePriced x (inl e) = rw⁻¹ e refl
one-ArePriced x (inr m) = elim m [ ]

handlers_refine_calendar_example :
    (b : Booking) × (get_booking 1 one_request ≡ some b)
    × IsReserved 1 b.resource_id b.slot_range
        (calendar_of one_request.bookings)
        (calendar_of after_approval.bookings)
handlers_refine_calendar_example =
    handlers_refine_calendar (approves alone approve_first 100) one_request after_approval
      one-ArePriced (tt, tt) (approval approve_first 100 first_request, approval_run)
