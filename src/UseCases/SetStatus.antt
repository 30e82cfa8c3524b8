-- ===== src/UseCases/SetStatus.antt =====
-- set_owner_subscription_status.py. The `OwnerSubscriptionDto` that it returns is the subscription.
pub mod Effective
use venue_backend.Common.{ℕ, String, Bool, true, false, [], ◌∷◌}
use venue_backend.Shared.Time.{utc}
use venue_backend.Accounts.User.{is_owner}
use venue_backend.Subscriptions.{
  SubStatus, active, trialing, past_due, inactive, same_status, OwnerSubscription, transition_to,
}
use venue_backend.Store.{
  Action, subscription_changed, words, get_user, get_subscription, pure, ◌>>=◌, ◌>>◌, ask, error,
  some_or, ensure, update_subscription, notify,
}

pub record SetOwnerSubscriptionStatusCommand : Type 0 where
  pub owner_id : ℕ
  pub status : SubStatus

-- The `.value` of a status.
abbrev pub status_words : SubStatus → String
status_words active = "ACTIVE"
status_words trialing = "TRIALING"
status_words past_due = "PAST_DUE"
status_words inactive = "INACTIVE"

-- The end of the handler: nothing is written where the status is the old one.
unfoldable pub save_status : SubStatus → OwnerSubscription → Bool → Action OwnerSubscription
save_status old_status sub true = pure sub
save_status old_status sub false = do
  update_subscription sub
  notify sub.owner_id subscription_changed (
      ("old_status", words (status_words old_status))
      ∷ ("new_status", words (status_words sub.status))
      ∷ ("reason", words "admin_action")
      ∷ [])
  pure sub

-- `SetOwnerSubscriptionStatusHandler.handle`; `days` is `config.trial_duration_days`.
unfoldable pub set_owner_subscription_status :
    ℕ → SetOwnerSubscriptionStatusCommand → ℕ → Action OwnerSubscription
set_owner_subscription_status days cmd now = do
  user ← some_or (error "OwnerNotFound" 404) (← ask (get_user cmd.owner_id))
  ensure (is_owner user.role) (error "UserIsNotOwner" 422)
  sub ← some_or (error "SubscriptionNotFound" 404) (← ask (get_subscription cmd.owner_id))
  save_status sub.status (transition_to sub cmd.status (utc now) days)
      (same_status sub.status cmd.status)
