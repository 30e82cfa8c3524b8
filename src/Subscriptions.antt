-- ===== src/Subscriptions.antt =====
-- The owner's subscription: app/domain/subscriptions.
pub mod Consistency
use venue_backend.Common.{
  ℕ, zero, ◌+◌, ◌*◌, String, Bool, true, false, ◌&&◌, ◌||◌, not, Option, none, some, if◌then◌else◌,
  is_some, ◌==◌,
}
use venue_backend.Shared.Result.{Result, success}
use venue_backend.Shared.Time.{DateTime, is_naive, day_us}

-- sub_status.py
pub data SubStatus : Type 0 where
  active trialing past_due inactive : SubStatus

-- `SubStatus.is_operational`
abbrev pub is_operational : SubStatus → Bool
is_operational active = true
is_operational trialing = true
is_operational _ = false

abbrev pub is_trialing : SubStatus → Bool
is_trialing trialing = true
is_trialing _ = false

-- The place of a member, by which `is` tells members apart.
abbrev code : SubStatus → ℕ
code active = 0
code trialing = 1
code past_due = 2
code inactive = 3

abbrev pub same_status : SubStatus → SubStatus → Bool
same_status a b = code a == code b

-- owner_subscription.py
pub record OwnerSubscription : Type 0 where
  pub id : ℕ
  pub owner_id : ℕ
  pub status : SubStatus
  pub status_changed_at : DateTime
  pub trial_ends_at : Option DateTime
  pub created_at : DateTime
  pub updated_at : DateTime

abbrev naive_end : Option DateTime → Bool
naive_end none = false
naive_end (some t) = is_naive t.tzinfo

-- `__post_init__`: the message of the `ValueError` that it raises, if it does.
unfoldable pub post_init : OwnerSubscription → Option String
post_init s =
    if is_naive s.status_changed_at.tzinfo
    then some "StatusChangedAtMustBeTzAware"
    else if naive_end s.trial_ends_at
    then some "TrialEndsAtMustBeTzAware"
    else if is_trialing s.status && not (is_some s.trial_ends_at)
    then some "TrialEndsAtRequiredForTrialing"
    else if not (is_trialing s.status) && is_some s.trial_ends_at
    then some "TrialEndsAtForbiddenOutsideTrialing"
    else none

-- `now + timedelta(days=...)`, below the year 10000.
abbrev pub plus_days : DateTime → ℕ → DateTime
plus_days t days = record t { wall = t.wall + days * day_us }

-- `create_trialing`; `id` is what `uuid4()` returns and `created` what `_utcnow()` reads.
unfoldable pub create_trialing : ℕ → ℕ → ℕ → DateTime → DateTime → OwnerSubscription
create_trialing id owner_id trial_duration_days now created = record {
  id = id;
  owner_id = owner_id;
  status = trialing;
  status_changed_at = now;
  trial_ends_at = some (plus_days now trial_duration_days);
  created_at = created;
  updated_at = created;
}

-- `transition_to`, which never fails.
unfoldable pub transition_to : OwnerSubscription → SubStatus → DateTime → ℕ → OwnerSubscription
transition_to s new_status now trial_duration_days =
    if same_status new_status s.status then s else record s {
      status = new_status;
      status_changed_at = now;
      trial_ends_at =
          (if is_trialing new_status then some (plus_days now trial_duration_days) else none);
      updated_at = now;
    }
