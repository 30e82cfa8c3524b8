-- ===== src/UseCases/SetStatus/Effective.antt =====
-- What a change of a subscription's status comes to.
use venue_backend.Common.{
  ℕ, ◌==◌, ==_iff, ◌≡◌, refl, sym, ap, ◌∙◌, Bool, true, false, some, List, [], ◌∷◌, ◌++◌, find,
  arith, Bool-cases, inl, inr, if◌then◌else◌,
}
use venue_backend.Shared.Time.{utc}
use venue_backend.Accounts.User.{User, is_owner}
use venue_backend.Subscriptions.{
  SubStatus, active, trialing, past_due, inactive, same_status, is_operational, OwnerSubscription,
  transition_to,
}
use venue_backend.Store.{
  World, Notice, subscription_changed, words, done, get_user, get_subscription, revise, pure, ◌>>=◌,
  update_subscription, notify,
}
use venue_backend.Store.Returns.{ensure_then, some_or_then, ask_then}
use venue_backend.UseCases.Approve.{operates}
use venue_backend.UseCases.SetStatus.{
  SetOwnerSubscriptionStatusCommand, status_words, save_status, set_owner_subscription_status,
}

same_status_lem : (a b : SubStatus) → same_status a b ≡ true → a ≡ b
same_status_lem active active h = refl
same_status_lem trialing trialing h = refl
same_status_lem past_due past_due h = refl
same_status_lem inactive inactive h = refl
same_status_lem _ _ h = cc

-- What becomes of a subscription, and what of its identity stays.
transition_to-status :
    (s : OwnerSubscription) (to : SubStatus) (now days : ℕ)
    → ((transition_to s to (utc now) days).status ≡ to)
      × ((transition_to s to (utc now) days).id ≡ s.id)
      × ((transition_to s to (utc now) days).owner_id ≡ s.owner_id)
unfolding transition_to
transition_to-status s to now days = elim (Bool-cases (same_status to s.status)) [
  | inl same ↦ rw same (sym (same_status_lem to s.status same), refl, refl)
  | inr other ↦ rw other (refl, refl, refl)
]

-- The row of an owner after an update of it.
found_revised :
    (owner_id : ℕ) (x : OwnerSubscription) (rows : List OwnerSubscription) (s : OwnerSubscription)
    → find (λ y. y.owner_id == owner_id) rows ≡ some s
    → x.id ≡ s.id
    → operates (find (λ y. y.owner_id == owner_id) (revise x rows)) ≡ is_operational x.status
found_revised owner_id x [] s h e = cc
found_revised owner_id x (y ∷ rows) s h e = elim (Bool-cases (y.owner_id == owner_id)) [
  | inl hit ↦
      let here : y ≡ s = cc (rw hit at h) in
      let same : (y.id == x.id) ≡ true = rw (here, e) ((==_iff _ _).1 refl) in rw (same, hit) refl
  | inr miss ↦ elim (Bool-cases (y.id == x.id)) [
    | inl same ↦ rw (same, miss) (found_revised owner_id x rows s (rw miss at h) e)
    | inr other ↦ rw (other, miss) (found_revised owner_id x rows s (rw miss at h) e)
  ]
]

-- The notification of a change.
abbrev pub status_notice : SubStatus → OwnerSubscription → Notice
status_notice old_status sub = record {
  recipient_id = sub.owner_id;
  kind = subscription_changed;
  payload =
      ("old_status", words (status_words old_status))
      ∷ ("new_status", words (status_words sub.status))
      ∷ ("reason", words "admin_action")
      ∷ [];
}

-- The tables after a change of the status.
abbrev pub with_status : SubStatus → OwnerSubscription → World → World
with_status old_status sub w = record w {
  subscriptions = revise sub w.subscriptions;
  notices = w.notices ++ status_notice old_status sub ∷ [];
}

saved :
    (old_status : SubStatus) (x : OwnerSubscription) (same : Bool) (w : World)
    {r : OwnerSubscription} {w' : World}
    → save_status old_status x same w ≡ done r w'
    → (r ≡ x) × (w' ≡ (if same then w else with_status old_status x w))
unfolding save_status ◌>>=◌ update_subscription notify pure
saved old_status x true w h = ground arith
saved old_status x false w h = ground arith

operates_after :
    (cmd : SetOwnerSubscriptionStatusCommand) (w : World) (sub x : OwnerSubscription) (same : Bool)
    → get_subscription cmd.owner_id w ≡ some sub
    → x.id ≡ sub.id
    → x.status ≡ cmd.status
    → same_status sub.status cmd.status ≡ same
    → operates (get_subscription cmd.owner_id (if same then w else with_status sub.status x w))
      ≡ is_operational cmd.status
operates_after cmd w sub x true found id status e =
    rw found (ap is_operational (same_status_lem sub.status cmd.status e))
operates_after cmd w sub x false found id status e =
    found_revised cmd.owner_id x w.subscriptions sub found id ∙ ap is_operational status

-- A change of a status by an admin is accepted only for an owner with a subscription. The status is
-- then the one that was asked for, and the owner is operational for the handlers of bookings exactly
-- where that status is. Nothing is written where the status was the same; else the row of the
-- subscription and one notification to the owner are.
pub set_status_effective :
    (days : ℕ) (cmd : SetOwnerSubscriptionStatusCommand) (now : ℕ) (w w' : World)
    (r : OwnerSubscription)
    → set_owner_subscription_status days cmd now w ≡ done r w'
    → (user : User) × (sub : OwnerSubscription) × (get_user cmd.owner_id w ≡ some user)
      × (is_owner user.role ≡ true)
      × (get_subscription cmd.owner_id w ≡ some sub)
      × (r.status ≡ cmd.status)
      × (operates (get_subscription cmd.owner_id w') ≡ is_operational cmd.status)
      × (w' ≡ (if same_status sub.status cmd.status then w else with_status sub.status r w))
unfolding set_owner_subscription_status
set_status_effective days cmd now w w' r h =
    let (user, is_user, h1) = some_or_then w _ _ _ (ask_then w _ _ h) in
    let (owning, h2) = ensure_then w _ _ _ h1 in
    let (sub, found, h3) = some_or_then w _ _ _ (ask_then w _ _ h2) in
    let x = transition_to sub cmd.status (utc now) days in
    let (status, id, _) = transition_to-status sub cmd.status now days in
    let (same, left) = saved sub.status x (same_status sub.status cmd.status) w h3 in
    (
      user,
      sub,
      is_user,
      owning,
      found,
      ap (λ y. y.status) same ∙ status,
      ap (λ u. operates (get_subscription cmd.owner_id u)) left
          ∙ operates_after cmd w sub x (same_status sub.status cmd.status) found id status refl,
      left
          ∙ ap (λ y. if same_status sub.status cmd.status then w else with_status sub.status y w)
              (sym same),
    )
