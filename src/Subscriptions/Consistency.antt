-- ===== src/Subscriptions/Consistency.antt =====
-- A subscription that was built and moved by its methods passes its own checks.
use venue_backend.Common.{ℕ, ◌≡◌, false, none, arith, is_some}
use venue_backend.Shared.Time.{DateTime, is_naive}
use venue_backend.Subscriptions.{
  SubStatus, is_trialing, OwnerSubscription, post_init, create_trialing, transition_to,
}

-- Any sequence of status changes, at zoned times.
pub data Changes (s : OwnerSubscription) : OwnerSubscription → Type 0 where
  start : Changes s s
  then_to :
      {t : OwnerSubscription} (new_status : SubStatus) (now : DateTime) (trial_duration_days : ℕ)
      → is_naive now.tzinfo ≡ false
      → Changes s t
      → Changes s (transition_to t new_status now trial_duration_days)

create_trialing-post_init :
    (id owner_id days : ℕ) (now created : DateTime)
    → is_naive now.tzinfo ≡ false
    → post_init (create_trialing id owner_id days now created) ≡ none
unfolding post_init create_trialing
create_trialing-post_init id owner_id days now created h = rw h

transition_to-post_init :
    (s : OwnerSubscription) (new_status : SubStatus) (now : DateTime) (days : ℕ)
    → is_naive now.tzinfo ≡ false
    → post_init s ≡ none
    → post_init (transition_to s new_status now days) ≡ none
unfolding post_init transition_to
transition_to-post_init s new_status now days a h = ground arith

Changes-keeps : {s t : OwnerSubscription} → post_init s ≡ none → Changes s t → post_init t ≡ none
Changes-keeps h start = h
Changes-keeps h (then_to {t} new_status now days a c) =
    transition_to-post_init t new_status now days a (Changes-keeps h c)

trial_end_of :
    (s : OwnerSubscription) → post_init s ≡ none → is_some s.trial_ends_at ≡ is_trialing s.status
unfolding post_init
trial_end_of s h = ground arith

-- A subscription that was created as a trial and has been moved to any statuses at zoned times
-- passes `__post_init__`, so that reading it back from its row raises nothing; it has an end of its
-- trial exactly when it is trialing.
pub Changes-post_init :
    (id owner_id days : ℕ) (now created : DateTime) {s : OwnerSubscription}
    → is_naive now.tzinfo ≡ false
    → Changes (create_trialing id owner_id days now created) s
    → (post_init s ≡ none) × (is_some s.trial_ends_at ≡ is_trialing s.status)
Changes-post_init id owner_id days now created {s} a c =
    let h = Changes-keeps (create_trialing-post_init id owner_id days now created a) c in
    (h, trial_end_of s h)
