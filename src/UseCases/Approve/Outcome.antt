-- ===== src/UseCases/Approve/Outcome.antt =====
-- What an approval leaves in the table of bookings, and what it does where it cannot go through.
use venue_backend.Common.{
  ℕ, ◌==◌, ◌≡◌, ◌≢◌, refl, sym, ap, ◌∙◌, Bool, true, false, some, List, [], ◌∷◌, ◌++◌, select,
  arith, Bool-cases, ==_iff, All, inl, inr, ◌⊎◌, map, if◌then◌else◌, AreKeyed, written,
  written_apart, written-select, overwrites-map, map_agree,
}
use mathlib.Core.List.{map-map}
use venue_backend.Bookings.{Booking, is_pending}
use venue_backend.Resources.Entity.{Resource, is_deleted}
use venue_backend.Store.{
  World, done, ◌>>=◌, get_booking, get_resource, get_subscription, replace, violates, competes,
}
use venue_backend.Store.Writes.{
  rewritten, rewritten-overwrites, rewritten_keep, rewritten_cases, ArePriced,
}
use venue_backend.Store.Equations.{bind_done, meanwhile_lem}
use venue_backend.Store.Rows.{
  IsRow, IsRow-find, IsRow-replace, IsRow-replace_new, IsRow-select, select-IsRow, select-holds,
  All-IsRow,
}
use venue_backend.UseCases.Approve.{ApproveBookingCommand, approvable, approve_booking, operates}
use venue_backend.UseCases.Approve.Settles.{
  rejection, approval, approval_notice, rejection_notices, competitors_of, settled,
  approve_locked_settles,
}

-- What the checks before the lock ask for: the booking and its resource are there, the resource is
-- not deleted and belongs to the actor, and the subscription of its owner is operational.
pub record CanApprove (cmd : ApproveBookingCommand) (w : World) (resource : Resource) : Type 0 where
  pub seen : Booking
  pub is_seen : get_booking cmd.booking_id w ≡ some seen
  pub is_resource : get_resource seen.resource_id w ≡ some resource
  pub is_there : is_deleted resource ≡ false
  pub is_owner : resource.owner_id ≡ cmd.actor_id
  pub is_operational : operates (get_subscription resource.owner_id w) ≡ true

pub approvable_passes :
    (cmd : ApproveBookingCommand) (w : World) (resource : Resource)
    → CanApprove cmd w resource
    → approvable cmd w ≡ done resource w
unfolding approvable ◌>>=◌
approvable_passes cmd w resource c =
    let same : (resource.owner_id == cmd.actor_id) ≡ true = (==_iff _ _).1 c.is_owner in
    rw c.is_seen (rw c.is_resource (rw c.is_there (rw same (rw c.is_operational))))

-- The rows that an approval of `t` leaves, next to those that it found.
pub record IsSettled (actor_id now : ℕ) (t approved_t : Booking) (before after : List Booking)
    : Type 0 where
  -- The row of `t` is the approved one, each competitor is rejected, every other row is as it was.
  pub rows :
      after
      ≡ map
          (λ y.
            if y.id == t.id
            then approved_t
            else if competes t.resource_id t.slot_range t.id y
            then rejection actor_id now y
            else y)
          before
  -- The approved booking is there.
  pub target : IsRow approved_t after
  -- No pending booking of the resource overlaps the approved one any more.
  pub cleared : (x : Booking) → IsRow x after → competes t.resource_id t.slot_range t.id x ≡ false

module _ (cmd : ApproveBookingCommand) (now : ℕ) (t : Booking) (rows : List Booking) where
  abbrev test : Booking → Bool
  test = competes t.resource_id t.slot_range t.id

  abbrev comps : List Booking
  comps = select test rows

  abbrev left : List Booking
  left = rewritten (rejection cmd.actor_id now) comps (replace (approval cmd now t) rows)

  competitor_ids : (l : List Booking) → All (λ b. test b ≡ true) l → All (λ c. t.id ≢ c.id) l
  competitor_ids [] h = tt
  competitor_ids (c ∷ l) h = (λ e. ground (arith, h.0), competitor_ids l h.1)

  comps_apart :
      (l : List Booking) → All (λ b. test b ≡ true) l → All (λ c. (c.id == t.id) ≡ false) l
  comps_apart [] h = tt
  comps_apart (c ∷ l) h = (ground (arith, h.0), comps_apart l h.1)

  not_competitor : (x : Booking) → IsRow x rows → All (λ c. x.id ≢ c.id) comps → test x ≡ false
  not_competitor x m apart = elim (Bool-cases (test x)) [
    | inr no_test ↦ no_test
    | inl hit ↦
        absurd (All-IsRow (λ c. x.id ≢ c.id) comps x apart (select-IsRow test rows x hit m) refl)
  ]

  others_left :
      (x : Booking)
      → IsRow x left
      → (x ≡ approval cmd now t)
        ⊎ ((c : Booking) × IsRow c rows × (test c ≡ true) × (x ≡ rejection cmd.actor_id now c))
        ⊎ (IsRow x rows × (x.id ≢ t.id) × (test x ≡ false))
  others_left x m = elim (rewritten_cases (rejection cmd.actor_id now) (λ c. refl) comps _ x m) [
    | inl (c, at, e) ↦ inr (
        inl (
          c,
          IsRow-select test rows c at,
          All-IsRow (λ b. test b ≡ true) comps c (select-holds test rows) at,
          e,
        ))
    | inr (old, apart) ↦ elim (IsRow-replace (approval cmd now t) rows x old) [
      | inl e ↦ inl e
      | inr (row, ne) ↦ inr (inr (row, ne, not_competitor x row apart))
    ]
  ]

  cleared_left : (x : Booking) → IsRow x left → test x ≡ false
  cleared_left x m = elim (others_left x m) [
    | inl e ↦ rw e (ground arith)
    | inr (inl (c, at, hit, e)) ↦ rw e (ground arith)
    | inr (inr (row, ne, miss)) ↦ miss
  ]

  -- What the loop makes of a row of the update.
  resolved :
      AreKeyed (λ b. b.id) rows
      → (y : Booking) → IsRow y rows
      → written
          (λ b. b.id)
          (λ c z. rejection cmd.actor_id now c)
          comps
          (if y.id == t.id then approval cmd now t else y)
        ≡ (if y.id == t.id
            then approval cmd now t
            else if test y
            then rejection cmd.actor_id now y
            else y)
  resolved keyed y m = elim (Bool-cases (y.id == t.id)) [
    | inl mine ↦ rw mine (
        written_apart (λ b. b.id) (λ c z. rejection cmd.actor_id now c) comps (approval cmd now t)
          (comps_apart comps (select-holds test rows)))
    | inr other ↦
        ap
          (λ hit.
            written (λ b. b.id) (λ c z. rejection cmd.actor_id now c) comps
              (if hit then approval cmd now t else y))
          other
        ∙ written-select (λ b. b.id) (λ c z. rejection cmd.actor_id now c) (λ c. refl) test rows y
            keyed m
        ∙ ap
            (λ hit.
              if hit
              then approval cmd now t
              else if test y
              then rejection cmd.actor_id now y
              else y)
            (sym other)
  ]

  left_rows :
      AreKeyed (λ b. b.id) rows
      → left
        ≡ map
            (λ y.
              if y.id == t.id
              then approval cmd now t
              else if test y
              then rejection cmd.actor_id now y
              else y)
            rows
  left_rows keyed =
      rewritten-overwrites (rejection cmd.actor_id now) (λ c. refl) comps _
      ∙ overwrites-map (λ b. b.id) (λ c z. rejection cmd.actor_id now c) comps _
      ∙ map-map _ _ rows
      ∙ map_agree _ _ rows (resolved keyed)

  reject_all-IsSettled :
      AreKeyed (λ b. b.id) rows
      → IsRow t rows
      → IsSettled cmd.actor_id now t (approval cmd now t) rows left
  reject_all-IsSettled keyed m = record {
    rows = left_rows keyed;
    target =
        rewritten_keep (rejection cmd.actor_id now) (λ c. refl) comps _ (approval cmd now t)
          (competitor_ids comps (select-holds test rows))
          (IsRow-replace_new (approval cmd now t) rows t refl m);
    cleared = cleared_left;
  }

-- Where the checks before the lock pass, the booking is pending under the lock and overlaps no
-- approved booking of its resource, and under the lock every row has a price, as its column demands,
-- and the ids of the rows are distinct, the approval returns: the table is the one found under the
-- lock with the row of the booking changed to APPROVED, each pending booking of the resource that
-- overlaps it changed to REJECTED, each with the change in its history, and every other row as it
-- was; no such pending booking is left, and the customers of the booking and of the rejected ones
-- are notified. This holds whatever other transactions did until the lock was acquired.
pub approve_booking_settles :
    (wait : World → World) (cmd : ApproveBookingCommand) (now : ℕ) (w : World) (resource : Resource)
    (t : Booking)
    → CanApprove cmd w resource
    → get_booking cmd.booking_id (wait w) ≡ some t
    → is_pending t.status ≡ true
    → violates (approval cmd now t) (wait w).bookings ≡ false
    → ArePriced (wait w).bookings
    → AreKeyed (λ b. b.id) (wait w).bookings
    → (w' : World) × (approve_booking wait cmd now w ≡ done (approval cmd now t) w')
      × IsSettled cmd.actor_id now t (approval cmd now t) (wait w).bookings w'.bookings
      × (w'.notices
          ≡ ((wait w).notices ++ approval_notice resource t ∷ [])
            ++ rejection_notices resource.id (competitors_of t (wait w)))
unfolding approve_booking settled
approve_booking_settles wait cmd now w resource t c e p free priced keyed =
    let v = wait w in
    (
      settled cmd now resource t v,
      bind_done _ _ w resource w (approvable_passes cmd w resource c)
          ∙ bind_done _ _ w tt v (meanwhile_lem wait w)
          ∙ approve_locked_settles cmd now resource v t e p free priced,
      reject_all-IsSettled cmd now t v.bookings keyed
          (IsRow-find (λ b. b.id == cmd.booking_id) v.bookings t e).0,
      refl,
    )
