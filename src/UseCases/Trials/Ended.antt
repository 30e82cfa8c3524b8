-- ===== src/UseCases/Trials/Ended.antt =====
-- The row of a trial that has ended, and the rows after its update.
use venue_backend.Common.{
  ℕ, ◌==◌, ◌≡◌, ◌≢◌, refl, ap, Bool, true, none, List, [], ◌∷◌, arith, In, find, is_some,
  Bool-cases, inl, inr, ◌⊎◌,
}
use venue_backend.Shared.Time.{utc}
use venue_backend.Subscriptions.{OwnerSubscription, inactive, transition_to}
use venue_backend.Store.{Notice, words, subscription_changed, revise, is_expired_trial}
use venue_backend.UseCases.Trials.{ended}

-- A subscription is a row of its table.
abbrev pub IsSub : OwnerSubscription → List OwnerSubscription → Type 0
IsSub s rows = In (λ y. y ≡ s) rows

abbrev pub trial_notices : List OwnerSubscription → List Notice
trial_notices [] = []
trial_notices (s ∷ l) =
    record {
      recipient_id = s.owner_id;
      kind = subscription_changed;
      payload =
          ("old_status", words "TRIALING")
          ∷ ("new_status", words "INACTIVE")
          ∷ ("reason", words "trial_expired")
          ∷ [];
    }
    ∷ trial_notices l

-- A subscription that has ended: neither a trial nor operational, with no end of a trial.
abbrev pub IsEnded : OwnerSubscription → Type 0
IsEnded s = (s.status ≡ inactive) × (s.trial_ends_at ≡ none)

pub ended_lem :
    (days now : ℕ) (s : OwnerSubscription)
    → is_expired_trial now s ≡ true
    → ((ended days now s).id ≡ s.id)
      × ((ended days now s).owner_id ≡ s.owner_id)
      × IsEnded (ended days now s)
unfolding transition_to
ended_lem days now s h = ground arith

-- The row of a trial as its expiry leaves it: INACTIVE since `now`, with no end of a trial.
abbrev pub expiry : ℕ → OwnerSubscription → OwnerSubscription
expiry now s = record s {
  status = inactive;
  status_changed_at = utc now;
  trial_ends_at = none;
  updated_at = utc now;
}

-- The columns that the update of `s` writes, in the row `y`.
abbrev pub columns_of : OwnerSubscription → OwnerSubscription → OwnerSubscription
columns_of s y = record y {
  status = s.status;
  status_changed_at = s.status_changed_at;
  trial_ends_at = s.trial_ends_at;
  updated_at = s.updated_at;
}

pub ended-expiry :
    (days now : ℕ) (s : OwnerSubscription)
    → is_expired_trial now s ≡ true
    → columns_of (ended days now s) s ≡ expiry now s
unfolding transition_to
ended-expiry days now s h = ground arith

unfoldable pub has_id : ℕ → List OwnerSubscription → Bool
has_id id rows = is_some (find (λ y. y.id == id) rows)

pub has_id-revise :
    (id : ℕ) (s : OwnerSubscription) (rows : List OwnerSubscription)
    → has_id id (revise s rows) ≡ has_id id rows
unfolding has_id
has_id-revise id s [] = refl
has_id-revise id s (y ∷ rows) = ground (arith, has_id-revise id s rows)

pub IsSub-has_id :
    (rows : List OwnerSubscription) (s : OwnerSubscription) → IsSub s rows → has_id s.id rows ≡ true
unfolding has_id
IsSub-has_id [] s m = elim m [ ]
IsSub-has_id (y ∷ rows) s (inl e) = ground (arith, ap (λ t. t.id) e)
IsSub-has_id (y ∷ rows) s (inr m) = ground (arith, IsSub-has_id rows s m)

-- A row after an update has the new status, or is an old one with another id.
pub revised :
    (s : OwnerSubscription) (rows : List OwnerSubscription) (x : OwnerSubscription)
    → IsEnded s
    → IsSub x (revise s rows)
    → IsEnded x ⊎ (IsSub x rows × (x.id ≢ s.id))
revised s [] x d m = elim m [ ]
revised s (y ∷ rows) x d (inl e) = elim (Bool-cases (y.id == s.id)) [
  | inl same ↦ inl (ground (arith, ap (λ t. t.status) e, ap (λ t. t.trial_ends_at) e))
  | inr other ↦ let k : y ≡ x = ground arith in inr (inl k, λ c. ground (arith, ap (λ t. t.id) k))
]
revised s (y ∷ rows) x d (inr m) = elim (revised s rows x d m) [
  | inl e ↦ inl e
  | inr old ↦ inr (inr old.0, old.1)
]
