-- ===== src/UseCases/Trials.antt =====
-- expire_trialing_subscriptions.py
pub mod Ended
pub mod Clears
use venue_backend.Common.{ℕ, ◌+◌, List, [], ◌∷◌}
use venue_backend.Shared.Time.{utc}
use venue_backend.Subscriptions.{OwnerSubscription, inactive, transition_to}
use venue_backend.Store.{
  Action, subscription_changed, words, list_trialing_with_expiry_before, pure, ◌>>=◌, ◌>>◌, ask,
  try_or, update_subscription, notify,
}

-- The update and the notification of one subscription: 1 if it is counted, 0 if the update failed.
unfoldable pub save_inactive : OwnerSubscription → Action ℕ
save_inactive sub = try_or (update_subscription sub) 0 λ _.
    notify sub.owner_id subscription_changed (
      ("old_status", words "TRIALING")
      ∷ ("new_status", words "INACTIVE")
      ∷ ("reason", words "trial_expired")
      ∷ [])
    >> pure 1

-- The subscription that the loop makes of one that it has read.
abbrev pub ended : ℕ → ℕ → OwnerSubscription → OwnerSubscription
ended days now sub = transition_to sub inactive (utc now) days

unfoldable pub end_all : ℕ → ℕ → ℕ → List OwnerSubscription → Action ℕ
end_all days now count [] = pure count
end_all days now count (sub ∷ rest) =
    save_inactive (ended days now sub) >>= λ n. end_all days now (count + n) rest

-- `ExpireTrialingSubscriptionsHandler.handle`; `days` is `config.trial_duration_days`.
unfoldable pub expire_trials : ℕ → ℕ → Action ℕ
expire_trials days now = do
  expired ← ask (list_trialing_with_expiry_before now)
  end_all days now 0 expired
