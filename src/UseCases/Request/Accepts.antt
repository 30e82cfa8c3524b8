-- ===== src/UseCases/Request/Accepts.antt =====
-- What holds of every request that was accepted.
use venue_backend.Common.{
  ℕ, ◌≡◌, ◌<◌, ◌==◌, true, false, ◌&&◌, some, [], ◌∷◌, ◌++◌, is_empty, is_some, arith, Option,
  String, none, ◌≤◌, ap, refl, ◌∙◌, inl, inr, Bool-cases,
}
use mathlib.Core.Path.{subst}
use venue_backend.Shared.Text.{size, strip}
use venue_backend.Shared.Result.{Result, success, failed}
use venue_backend.Shared.Time.{utc, ZoneData, DateTime}
use venue_backend.Shared.Values.{
  DateTimeRange, ShortDescription, create_range, create_description, Typed, text,
}
use venue_backend.Bookings.{Booking, create_pending, is_active}
use venue_backend.Resources.Entity.{Resource, is_deleted}
use venue_backend.Resources.Pricing.{compute_price}
use venue_backend.Store.{
  World, Notice, booking_requested, ident, moment, done, get_resource, get_subscription,
  list_active_by_customer_for_resource, in_range,
}
use venue_backend.Store.Writes.{select_empty}
use venue_backend.Store.Rows.{IsRow}
use venue_backend.Store.Returns.{
  ensure_then, some_or_then, lift_then, add_then, ask_then, notify_last,
}
use venue_backend.UseCases.Approve.{operates}
use venue_backend.UseCases.Request.{
  RequestBookingCommand, noted, create_note, validate_inputs, validate_alignment_and_hours,
  request_resource, request_booking,
}

abbrev pub request_notice : RequestBookingCommand → Resource → Booking → Notice
request_notice cmd resource b = record {
  recipient_id = resource.owner_id;
  kind = booking_requested;
  payload =
      ("booking_id", ident b.id)
      ∷ ("resource_id", ident resource.id)
      ∷ ("customer_id", ident cmd.actor_id)
      ∷ ("slot_start_at", moment b.slot_range.start_at)
      ∷ ("slot_end_at", moment b.slot_range.end_at)
      ∷ [];
}

-- What the checks of a request have found, for the resource and the range that it asks for.
pub record IsAccepted (zones : ZoneData) (cmd : RequestBookingCommand) (checked : ℕ) (w : World)
    (resource : Resource) (range : DateTimeRange) : Type 0 where
  pub is_resource : get_resource cmd.resource_id w ≡ some resource
  pub is_there : is_deleted resource ≡ false
  pub is_published : resource.is_published ≡ true
  pub is_operational : operates (get_subscription resource.owner_id w) ≡ true
  pub is_range : create_range cmd.slot_start_at cmd.slot_end_at ≡ success range
  pub is_ordered : range.start_at < range.end_at
  pub is_future : checked < range.start_at
  pub fits : validate_alignment_and_hours zones resource range ≡ success tt
  pub is_priced : is_some (compute_price zones resource range) ≡ true
  -- The customer has no other active booking of the resource that meets the range.
  pub is_free :
      (x : Booking)
      → IsRow x w.bookings
      → x.customer_id ≡ cmd.actor_id
      → x.resource_id ≡ resource.id
      → is_active x.status ≡ true
      → in_range range x ≡ false

-- The note of the booking: none where the request has none or an empty one, and otherwise the text
-- stripped, of at most 500 characters.
pub data IsNote : Option String → Option ShortDescription → Type 0 where
  absent : IsNote none none
  empty : (s : String) → size s ≡ 0 → IsNote (some s) none
  stripped :
      (s : String)
      → 0 < size s
      → size (strip s) ≤ 500
      → IsNote (some s) (some (record { content = strip s }))

described :
    (s : String) {d : ShortDescription}
    → create_description (text s) ≡ success d
    → (size (strip s) ≤ 500) × (record { content = strip s } ≡ d)
unfolding create_description
described s h = ground arith

noted_success :
    (r : Result ShortDescription) {customer_note : Option ShortDescription}
    → noted r ≡ success customer_note
    → (d : ShortDescription) × (r ≡ success d) × (some d ≡ customer_note)
noted_success (success d) h = (d, refl, ground arith)
noted_success (failed e) h = cc

create_note-IsNote :
    (raw : Option String) (customer_note : Option ShortDescription)
    → create_note raw ≡ success customer_note
    → IsNote raw customer_note
unfolding create_note
create_note-IsNote none customer_note h = subst (IsNote none) (ground arith) absent
create_note-IsNote (some s) customer_note h = elim (Bool-cases (size s == 0)) [
  | inl none_given ↦
      subst (IsNote (some s)) (ground (arith, rw none_given at h)) (empty s (ground arith))
  | inr given ↦
      let (d, made, e) = noted_success _ (rw given at h) in
      let (short, content) = described s made in
      subst (IsNote (some s)) (ap some content ∙ e) (stripped s (ground arith) short)
]

valid_inputs :
    (r : Result DateTimeRange) (n : Result (Option ShortDescription)) {range : DateTimeRange}
    {customer_note : Option ShortDescription}
    → validate_inputs r n ≡ success (range, customer_note)
    → (r ≡ success range) × (n ≡ success customer_note)
unfolding validate_inputs
valid_inputs r n h = ground arith

range_order :
    (s e : Typed DateTime) {range : DateTimeRange}
    → create_range s e ≡ success range
    → range.start_at < range.end_at
unfolding create_range
range_order s e h = ground arith

module _ (cmd : RequestBookingCommand) (w : World) (resource : Resource)
    (range : DateTimeRange) where
  pub no_active :
      is_empty (list_active_by_customer_for_resource cmd.actor_id resource.id range w) ≡ true
      → (x : Booking) → IsRow x w.bookings
      → x.customer_id ≡ cmd.actor_id
      → x.resource_id ≡ resource.id
      → is_active x.status ≡ true
      → in_range range x ≡ false
  no_active free x m c r a = ground (
    arith,
    select_empty
        (λ b.
          b.customer_id == cmd.actor_id
          && (b.resource_id == resource.id && (is_active b.status && in_range range b)))
        w.bookings x free m,
  )

request_resource_returns :
    (zones : ZoneData) (id : ℕ) (cmd : RequestBookingCommand) (checked now : ℕ) (w w' : World)
    (b : Booking) (range : DateTimeRange) (customer_note : Option ShortDescription)
    (resource : Resource)
    → request_resource zones id cmd checked now range customer_note resource w ≡ done b w'
    → create_range cmd.slot_start_at cmd.slot_end_at ≡ success range
    → get_resource cmd.resource_id w ≡ some resource
    → IsAccepted zones cmd checked w resource range
      × (b
          ≡ create_pending id resource.id cmd.actor_id range
              (compute_price zones resource range)
              customer_note
              (utc now))
      × (w'.bookings ≡ w.bookings ++ b ∷ [])
      × (w'.notices ≡ w.notices ++ request_notice cmd resource b ∷ [])
unfolding request_resource create_pending
request_resource_returns zones id cmd checked now w w' b range customer_note resource h made found =
    let (there, h3) = ensure_then w _ _ _ h in
    let (shown, h4) = ensure_then w _ _ _ h3 in
    let (operational, h5) = ensure_then w _ _ _ (ask_then w _ _ h4) in
    let (future, h6) = ensure_then w _ _ _ h5 in
    let (u, fits, h7) = lift_then w _ _ h6 in
    let (free, h8) = ensure_then w _ _ _ (ask_then w _ _ h7) in
    let (stored, h9) = add_then w _ _ h8 in
    let (same, left) = notify_last _ _ _ _ _ h9 in
    (
      record {
        is_resource = found;
        is_there = ground arith;
        is_published = shown;
        is_operational = operational;
        is_range = made;
        is_ordered = range_order _ _ made;
        is_future = ground arith;
        fits = fits;
        is_priced = ground arith;
        is_free = no_active cmd w resource range free;
      },
      same,
      rw (left, same),
      rw (left, same),
    )

-- A request is accepted only for a resource that is there, is published and belongs to an owner with
-- an operational subscription; only for a range in the future that starts before it ends, passes the
-- check of alignment and operating hours, and has a price; and only if the customer has no active
-- booking of the resource that meets the range. Its note is none or empty, or has at most 500
-- characters when stripped, which is the text that the booking keeps. It then appends the pending
-- booking with that price and that note to the table, changes no row, and notifies the owner.
pub request_booking_accepts :
    (zones : ZoneData) (id : ℕ) (cmd : RequestBookingCommand) (checked now : ℕ) (w w' : World)
    (b : Booking)
    → request_booking zones id cmd checked now w ≡ done b w'
    → (resource : Resource) × (range : DateTimeRange) × (customer_note : Option ShortDescription)
      × IsAccepted zones cmd checked w resource range
      × IsNote cmd.customer_note customer_note
      × (b
          ≡ create_pending id resource.id cmd.actor_id range
              (compute_price zones resource range)
              customer_note
              (utc now))
      × (w'.bookings ≡ w.bookings ++ b ∷ [])
      × (w'.notices ≡ w.notices ++ request_notice cmd resource b ∷ [])
unfolding request_booking
request_booking_accepts zones id cmd checked now w w' b h =
    let (inputs, valid, h1) = lift_then w _ _ h in
    let (resource, found, h2) = some_or_then w _ _ _ (ask_then w _ _ h1) in
    let (is_range, is_note) = valid_inputs _ _ valid in
    let (accepted, made, rows, notices) =
      request_resource_returns zones id cmd checked now w w' b inputs.0 inputs.1 resource h2
        is_range found in
    (resource, inputs.0, inputs.1, accepted, create_note-IsNote _ _ is_note, made, rows, notices)
