-- ===== src/Examples/Agendas.antt =====
-- The theorems about the agenda and the status of a subscription, on concrete tables.
use venue_backend.Common.{◌≡◌, refl, not, true, none, some, List, [], ◌∷◌, All, if◌then◌else◌}
use venue_backend.Shared.Time.{utc, weekday_of}
use venue_backend.Shared.Values.{create_money, create_range}
use venue_backend.Bookings.{owner}
use venue_backend.Accounts.User.{User, is_owner}
use venue_backend.Subscriptions.{
  OwnerSubscription, past_due, is_operational, same_status, transition_to,
}
use venue_backend.Resources.Entity.{Resource, is_deleted}
use venue_backend.Resources.Pricing.{compute_price, sum_slots, slot_price}
use venue_backend.Store.{
  World, done, ◌>>=◌, pure, get_resource, get_user, get_subscription, update_subscription, notify,
}
use venue_backend.UseCases.Approve.{operates}
use venue_backend.UseCases.SetStatus.{
  SetOwnerSubscriptionStatusCommand, save_status, set_owner_subscription_status,
}
use venue_backend.UseCases.SetStatus.Effective.{with_status, set_status_effective}
use venue_backend.UseCases.Agenda.{
  AgendaSlot, slot_pending, slot_approved, GetAgendaQuery, list_in_range_for_resource, walk,
  generate_slots, slots_or_raise, get_agenda,
}
use venue_backend.UseCases.Agenda.Told.{IsShown, get_agenda_tells}
use venue_backend.Examples.{utc_zones, at_hour, one_taken, subscription, world_of}

abbrev of_monday : GetAgendaQuery
of_monday = record {
  range_start = at_hour 10;
  range_end = at_hour 13;
  resource_id = some 5;
  owner_slug = none;
  resource_slug = none;
  actor_id = some 9;
}

abbrev monday_slots : List AgendaSlot
monday_slots =
    record {
      slot_start_at = at_hour 10;
      slot_end_at = at_hour 11;
      status = slot_pending;
      price_cents = 1000;
      booking_id = some 1;
      customer_id = some 7;
    }
    ∷ record {
      slot_start_at = at_hour 11;
      slot_end_at = at_hour 12;
      status = slot_approved;
      price_cents = 2500;
      booking_id = some 2;
      customer_id = some 8;
    }
    ∷ record {
      slot_start_at = at_hour 12;
      slot_end_at = at_hour 13;
      status = slot_approved;
      price_cents = 1000;
      booking_id = some 2;
      customer_id = some 8;
    }
    ∷ []

monday_run : get_agenda utc_zones (λ name t. t) of_monday one_taken ≡ done monday_slots one_taken
unfolding get_agenda list_in_range_for_resource generate_slots walk slots_or_raise ◌>>=◌ pure
    create_range compute_price sum_slots slot_price create_money weekday_of
monday_run = refl

get_agenda_tells_example :
    (one_taken ≡ one_taken)
    × (resource : Resource) × (get_resource 5 one_taken ≡ some resource)
    × (not (is_deleted resource) ≡ true)
    × All (IsShown utc_zones of_monday one_taken resource) monday_slots
get_agenda_tells_example =
    get_agenda_tells utc_zones (λ name t. t) of_monday one_taken one_taken monday_slots monday_run

abbrev ana : User
ana = record {
  id = 9;
  email = "ana@a.br";
  password_hash = "#";
  role = owner;
  full_name = "Ana";
  phone = none;
  is_active = true;
  public_slug = some "ana";
  created_at = utc 0;
  updated_at = utc 0;
}

abbrev paying : World
paying = record (world_of []) { users = ana ∷ [] }

abbrev fall_behind : SetOwnerSubscriptionStatusCommand
fall_behind = record { owner_id = 9; status = past_due }

abbrev overdue : OwnerSubscription
overdue = record subscription { status = past_due; status_changed_at = utc 50; updated_at = utc 50 }

abbrev behind : World
behind = with_status subscription.status overdue paying

overdue_run : set_owner_subscription_status 14 fall_behind 50 paying ≡ done overdue behind
unfolding set_owner_subscription_status save_status ◌>>=◌ pure update_subscription notify
    transition_to
overdue_run = refl

set_status_effective_example :
    (user : User) × (sub : OwnerSubscription) × (get_user 9 paying ≡ some user)
    × (is_owner user.role ≡ true)
    × (get_subscription 9 paying ≡ some sub)
    × (overdue.status ≡ past_due)
    × (operates (get_subscription 9 behind) ≡ is_operational past_due)
    × (behind ≡ (
        if same_status sub.status past_due then paying else with_status sub.status overdue paying))
set_status_effective_example =
    set_status_effective 14 fall_behind 50 paying behind overdue overdue_run
