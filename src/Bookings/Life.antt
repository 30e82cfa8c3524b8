-- ===== src/Bookings/Life.antt =====
-- Every life of a booking: what any sequence of its calls leaves.
use venue_backend.Common.{
  ℕ, ◌≤◌, ◌≡◌, refl, String, true, Option, none, List, [], ◌∷◌, ◌⊎◌, inl, sym, ap, ◌∙◌, arith,
  length,
}
use venue_backend.Shared.Time.{DateTime}
use venue_backend.Shared.Values.{DateTimeRange, Money, ShortDescription}
use venue_backend.Shared.Result.{success}
use venue_backend.Bookings.Status.{
  Role, owner, customer, BookingStatus, pending, approved, rejected, cancelled, expired,
  is_terminal, StatusChange, is_valid_transition,
}
use venue_backend.Bookings.Entity.{Booking, create_pending, approve, reject, cancel, expire}
use venue_backend.Bookings.Lifecycle.{Leads, IsRecorded, Leads-append, moved, transition-eq-success}

-- The calls that can happen to a booking, whoever makes them and whenever; a failed call leaves the
-- booking as it was.
pub data Call (b b' : Booking) : Type 0 where
  approved_by : (actor_id : ℕ) (now : DateTime) → approve b actor_id now ≡ success b' → Call b b'
  rejected_by :
      (actor_id : ℕ) (now : DateTime) (reason : Option String)
      → reject b actor_id now reason ≡ success b'
      → Call b b'
  cancelled_by :
      (actor_id : ℕ) (role : Role) (now : DateTime) (reason : Option String)
      → cancel b actor_id role now reason ≡ success b'
      → Call b b'
  expired_at : (now : DateTime) → expire b now ≡ success b' → Call b b'

pub data Life (b : Booking) : Booking → Type 0 where
  here : Life b b
  next : {c d : Booking} → Life b c → Call c d → Life b d

-- What a call changes.
abbrev Moves : Booking → Booking → Type 0
Moves b b' =
    (to : BookingStatus) × (is_valid_transition b.status to ≡ true)
    × (actor_id : ℕ) × (role : Role) × (now : DateTime) × (reason : Option String) × (b'
        ≡ moved b to actor_id role now reason)

Call-Moves : {b b' : Booking} → Call b b' → Moves b b'
Call-Moves {b} (approved_by a t h) =
    let (v, e) = transition-eq-success b approved a owner t none h in
    (approved, v, a, owner, t, none, e)
Call-Moves {b} (rejected_by a t r h) =
    let (v, e) = transition-eq-success b rejected a owner t r h in (rejected, v, a, owner, t, r, e)
Call-Moves {b} (cancelled_by a role t r h) =
    let (v, e) = transition-eq-success b cancelled a role t r h in (cancelled, v, a, role, t, r, e)
Call-Moves {b} (expired_at t h) =
    let (v, e) = transition-eq-success b expired b.customer_id customer t _ h in
    (expired, v, b.customer_id, customer, t, _, e)

Call-IsRecorded : {b b' : Booking} → IsRecorded b → Call b b' → IsRecorded b'
Call-IsRecorded {b} r c =
    let (to, v, a, role, t, reason, e) = Call-Moves c in
    rw e (Leads-append pending b.status_history b.status to _ r refl v refl)

-- Whatever calls a booking has lived through, its history leads from PENDING to its status.
pub Life-IsRecorded : {b c : Booking} → IsRecorded b → Life b c → IsRecorded c
Life-IsRecorded r here = r
Life-IsRecorded r (next l c) = Call-IsRecorded (Life-IsRecorded r l) c

-- The number of changes that lead to a status.
abbrev pub ChangesAllowed : BookingStatus → ℕ → Type 0
ChangesAllowed pending n = n ≡ 0
ChangesAllowed approved n = n ≡ 1
ChangesAllowed rejected n = n ≡ 1
ChangesAllowed expired n = n ≡ 1
ChangesAllowed cancelled n = (1 ≤ n) × (n ≤ 2)

Leads-terminal :
    (from to : BookingStatus) (cs : List StatusChange)
    → is_terminal from ≡ true
    → Leads from cs to
    → (cs ≡ []) × (from ≡ to)
unfolding is_valid_transition
Leads-terminal from to [] t h = (refl, h)
Leads-terminal from to (c ∷ cs) t h = ground arith

Leads-approved :
    (to : BookingStatus) (cs : List StatusChange)
    → Leads approved cs to
    → ((cs ≡ []) × (to ≡ approved)) ⊎ ((length cs ≡ 1) × (to ≡ cancelled))
unfolding is_valid_transition
Leads-approved to [] h = inl (refl, sym h)
Leads-approved to (c ∷ cs) h = grind (arith, Leads-terminal c.to_status to cs)

Leads-ChangesAllowed :
    (to : BookingStatus) (cs : List StatusChange)
    → Leads pending cs to
    → ChangesAllowed to (length cs)
unfolding is_valid_transition
Leads-ChangesAllowed to [] h = rw (← h) refl
Leads-ChangesAllowed to (c ∷ cs) h =
    grind (arith, Leads-terminal c.to_status to cs, Leads-approved to cs)

-- What no call changes.
pub record SameRequest (b c : Booking) : Type 0 where
  pub id : c.id ≡ b.id
  pub resource_id : c.resource_id ≡ b.resource_id
  pub customer_id : c.customer_id ≡ b.customer_id
  pub slot_range : c.slot_range ≡ b.slot_range
  pub total_price_cents : c.total_price_cents ≡ b.total_price_cents
  pub customer_note : c.customer_note ≡ b.customer_note
  pub created_at : c.created_at ≡ b.created_at

Call-SameRequest : {b c d : Booking} → SameRequest b c → Call c d → SameRequest b d
Call-SameRequest {c = c} s k =
    let (to, v, a, role, t, reason, e) = Call-Moves k in
    record {
      id = ap (λ x. x.id) e ∙ s.id;
      resource_id = ap (λ x. x.resource_id) e ∙ s.resource_id;
      customer_id = ap (λ x. x.customer_id) e ∙ s.customer_id;
      slot_range = ap (λ x. x.slot_range) e ∙ s.slot_range;
      total_price_cents = ap (λ x. x.total_price_cents) e ∙ s.total_price_cents;
      customer_note = ap (λ x. x.customer_note) e ∙ s.customer_note;
      created_at = ap (λ x. x.created_at) e ∙ s.created_at;
    }

Life-SameRequest : {b c : Booking} → Life b c → SameRequest b c
Life-SameRequest here = record {
  id = refl;
  resource_id = refl;
  customer_id = refl;
  slot_range = refl;
  total_price_cents = refl;
  customer_note = refl;
  created_at = refl;
}
Life-SameRequest (next l c) = Call-SameRequest (Life-SameRequest l) c

-- A booking that was created by `create_pending` and has lived through any calls has a history that
-- leads from PENDING to its status by transitions of the table, with as many changes as the status
-- allows: none if it is pending, one if it is approved, rejected or expired, one or two if it is
-- cancelled. What was requested is as it was at the creation.
pub request_history :
    (id resource_id customer_id : ℕ) (range : DateTimeRange) (price : Option Money)
    (customer_note : Option ShortDescription) (now : DateTime) {c : Booking}
    → Life (create_pending id resource_id customer_id range price customer_note now) c
    → IsRecorded c
      × ChangesAllowed c.status (length c.status_history)
      × SameRequest (create_pending id resource_id customer_id range price customer_note now) c
unfolding create_pending
request_history id resource_id customer_id range price customer_note now {c} l =
    let r = Life-IsRecorded refl l in
    (r, Leads-ChangesAllowed c.status c.status_history r, Life-SameRequest l)

no_exit :
    (from to : BookingStatus) → is_terminal from ≡ true → is_valid_transition from to ≡ true → ⊥
unfolding is_valid_transition
no_exit from to t v = ground arith

-- A booking that is rejected, cancelled or expired stays exactly as it is, whatever is called.
pub terminal_final : {b c : Booking} → is_terminal b.status ≡ true → Life b c → c ≡ b
terminal_final t here = refl
terminal_final {b} t (next {c} l k) =
    let same = terminal_final t l in
    let m = Call-Moves k in absurd (no_exit c.status m.0 (rw same t) m.1)
