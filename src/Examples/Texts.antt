-- ===== src/Examples/Texts.antt =====
-- The theorems about texts and rows, at concrete values.
use venue_backend.Common.{ℕ, ◌+◌, ◌≡◌, ◌<◌, refl, true, some, arith, map, All}
use venue_backend.Shared.Result.{success}
use venue_backend.Shared.Time.{Weekday, monday}
use venue_backend.Shared.Text.{size, strip}
use venue_backend.Shared.Text.Case.{lower}
use venue_backend.Shared.Values.{text}
use venue_backend.Shared.Names.{create_slug, has_double_dash}
use venue_backend.Shared.Names.Stored.{slug, create_text, create_text_stable}
use venue_backend.Shared.Phone.{BrazilianPhone, create_phone, national_number}
use venue_backend.Shared.Phone.Stored.{create_phone_stable}
use venue_backend.Accounts.Slugify.{slugify}
use venue_backend.Accounts.Slugify.Formed.{IsFormed, slugify-IsFormed}
use venue_backend.Resources.Schedule.{for_weekday}
use venue_backend.Resources.Rows.{to_row, of_row}
use venue_backend.Resources.Rows.Again.{IsWhole, sorted_rule, of_row-to_row}
use venue_backend.Examples.{hall, hours_from, ascii_digit}

hall_slug : create_text slug (text " Hall-2 ") ≡ success "hall-2"
unfolding create_slug strip has_double_dash lower
hall_slug = refl

create_text_stable_example : create_text slug (text "hall-2") ≡ success "hall-2"
create_text_stable_example = create_text_stable slug " Hall-2 " "hall-2" hall_slug

abbrev mobile : BrazilianPhone
mobile = record { content = "+5521996949389"; is_mobile = true }

mobile_number : create_phone ascii_digit (text "(21) 99694-9389") ≡ success mobile
unfolding create_phone national_number
mobile_number = refl

create_phone_stable_example :
    (create_phone ascii_digit (text "+5521996949389") ≡ success mobile)
    × (size "+5521996949389" ≡ 14)
create_phone_stable_example =
    create_phone_stable ascii_digit refl refl "(21) 99694-9389" mobile mobile_number

slugify-IsFormed_example : IsFormed (slugify "Joao da Silva" "0a1b2c3d")
slugify-IsFormed_example = slugify-IsFormed "Joao da Silva" "0a1b2c3d" refl (omega arith)

ascii_digit_each : (d : ℕ) → d < 10 → ascii_digit (48 + d) ≡ some d
ascii_digit_each d h = ground arith

late-IsWhole : IsWhole (hours_from 11 12)
late-IsWhole = record {
  start_in_day = omega arith;
  start_whole = refl;
  end_in_day = omega arith;
  end_whole = refl;
}

hall-IsWhole : (wd : Weekday) → All IsWhole (for_weekday hall.operating_hours wd)
hall-IsWhole monday = (
  record {
    start_in_day = omega arith;
    start_whole = refl;
    end_in_day = omega arith;
    end_whole = refl;
  },
  tt,
)
hall-IsWhole _ = tt

of_row-to_row_example :
    of_row ascii_digit (to_row hall)
    ≡ some (record hall { pricing_rules = map sorted_rule hall.pricing_rules })
of_row-to_row_example =
    of_row-to_row ascii_digit ascii_digit_each hall hall-IsWhole (late-IsWhole, tt) refl refl tt
