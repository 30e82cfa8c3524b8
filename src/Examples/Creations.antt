-- ===== src/Examples/Creations.antt =====
-- The theorems about the creation of a resource, on a concrete table.
use venue_backend.Common.{◌≡◌, ◌↔◌, ◌++◌, refl, true, false, none, some, [], ◌∷◌}
use venue_backend.Shared.Time.{utc, pos, monday}
use venue_backend.Shared.Text.{strip}
use venue_backend.Shared.Text.Case.{lower}
use venue_backend.Shared.Clock.{str_to_time, int_of}
use venue_backend.Shared.Values.{
  text, integer, create_description, create_duration, create_money, create_cutoff, create_window,
}
use venue_backend.Shared.Names.{create_name, create_slug, create_timezone, has_double_dash}
use venue_backend.Bookings.{owner}
use venue_backend.Accounts.User.{User}
use venue_backend.Catalog.Types.{ResourceType, required_errors, item_errors, validate_attributes}
use venue_backend.Resources.Schedule.{create_schedule}
use venue_backend.Resources.Rules.{validate_pricing_rules, create_rule}
use venue_backend.Resources.Entity.{Resource, attribute_errors}
use venue_backend.Resources.Entity.Creation.{ResourceInput, create_resource}
use venue_backend.Resources.Entity.Creation.Promised.{Value, IsAccepted, create_resource_exact}
use venue_backend.Store.{
  ensure_or_raise, World, done, ◌>>=◌, pure, ask, ensure, some_or, lift, add_resource,
}
use venue_backend.UseCases.Inputs.{
  window_errors_from, windows_built, parse_window, window_overflows, days_errors, days_built,
  rules_built, customs_errors, customs_built,
}
use venue_backend.UseCases.Create.{
  CreateResourceCommand, Surroundings, build_resource, handle_create, resource_input,
}
use venue_backend.UseCases.Create.Accepts.{CanCreate, handle_create_accepts}
use venue_backend.Examples.{ascii_digit, hall, late_rule, schedule, world_of}

abbrev place : Surroundings
place = record { id = 5; now = 0; digit = ascii_digit; available = λ name. true }

abbrev command : CreateResourceCommand
command = record {
  actor_id = 9;
  resource_type_id = 1;
  slug = text "Hall";
  name = text "Hall";
  description = text "A hall";
  city = text "Recife";
  region = text "PE";
  timezone = text "America/Recife";
  slot_duration_minutes = pos 60;
  operating_hours = (monday, record { start = "10:00"; end = "13:00" } ∷ []) ∷ [];
  base_price_cents = integer (pos 1000);
  customer_cancellation_cutoff_hours = integer (pos 24);
  base_attributes = [];
  pricing_rules =
      record {
        weekdays = monday ∷ [];
        window = record { start = "11:00"; end = "12:00" };
        price_cents = integer (pos 2500);
      }
      ∷ [];
  custom_attributes = [];
}

abbrev member : User
member = record {
  id = 9;
  email = "ana@a.br";
  password_hash = "#";
  role = owner;
  full_name = "Ana";
  phone = none;
  is_active = true;
  public_slug = some "ana";
  created_at = utc 0;
  updated_at = utc 0;
}

abbrev room : ResourceType
room = record {
  id = 1;
  slug = "room";
  name = "Room";
  description = record { content = "A room" };
  is_active = true;
  attribute_schema = [];
  created_at = utc 0;
  updated_at = utc 0;
}

abbrev before : World
before = record (world_of []) { resources = []; users = member ∷ []; resource_types = room ∷ [] }

abbrev new_hall : Resource
new_hall = record hall { is_published = false }

new_hall_run :
    handle_create place command before ≡ done new_hall (record before { resources = new_hall ∷ [] })
unfolding handle_create ◌>>=◌ pure ask ensure some_or lift add_resource build_resource
    ensure_or_raise days_errors days_built rules_built customs_errors customs_built create_schedule
    create_resource validate_attributes validate_pricing_rules create_rule create_name create_slug
    create_timezone has_double_dash strip lower create_description create_duration create_money
    create_cutoff create_window str_to_time window_errors_from parse_window int_of windows_built
    required_errors item_errors attribute_errors window_overflows
new_hall_run = refl

-- `time` takes no number above 32 bits: the text is no time, and nothing catches the exception.
overflow_test :
    window_overflows ascii_digit (record { start = "99999999999:00"; end = "10:00" }) ≡ true
unfolding window_overflows int_of strip str_to_time
overflow_test = refl

late_test :
    window_overflows ascii_digit (record { start = "24:00"; end = "99999999999:00" }) ≡ false
unfolding window_overflows int_of strip str_to_time
late_test = refl

handle_create_accepts_example :
    (user : User) × (rt : ResourceType) × CanCreate place command before user rt new_hall
    × (record before { resources = new_hall ∷ [] }
        ≡ record before { resources = [] ++ new_hall ∷ [] })
handle_create_accepts_example =
    handle_create_accepts place command before (record before { resources = new_hall ∷ [] })
      new_hall new_hall_run

abbrev hall_input : ResourceInput
hall_input = resource_input command schedule (late_rule ∷ []) []

create_resource_exact_example :
    Value (create_resource place.available 5 (utc 0) hall_input)
    ↔ IsAccepted place.available hall_input
create_resource_exact_example = create_resource_exact place.available 5 (utc 0) hall_input
