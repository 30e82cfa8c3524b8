-- ===== src/Shared/Clock.antt =====
-- Times of day as texts: `_time_to_str` and `_str_to_time` of resource_repository.py and the parsing of
-- `_parse_time_window` of create_resource.py, with what they use of `int` and of `datetime.time`. The
-- digits are those of Unicode, a table from a code point to its digit.
pub mod Written
use Prim.Native.Char.{Char, code}
use Prim.Native.String
use venue_backend.Common.{
  ℕ, zero, suc, ◌+◌, ◌*◌, ◌/◌, ◌%◌, String, Bool, true, false, ◌&&◌, Option, none, some, List, [],
  ◌∷◌, ltb, leb, is_some, ◌||◌, ◌==◌, if◌then◌else◌,
}
use venue_backend.Shared.Time.{ℤ, pos, negsuc, hour, minute, hour_us, minute_us}
use venue_backend.Shared.Text.{strip}
use venue_backend.Shared.Text.Case.{to_char}

-- `f"{n:02d}"`, of a number below 100, before a text.
abbrev pub two_digits : ℕ → String → String
two_digits n s = String.◌∷◌ (to_char (48 + n / 10)) (String.◌∷◌ (to_char (48 + n % 10)) s)

-- `_time_to_str`
unfoldable pub time_to_str : ℕ → String
time_to_str t = two_digits (hour t) (String.◌∷◌ ":" (two_digits (minute t) String.[]))

abbrev pub prepend : Char → List String → List String
prepend c [] = String.◌∷◌ c String.[] ∷ []
prepend c (s ∷ ss) = String.◌∷◌ c s ∷ ss

-- `s.split(":")`
abbrev pub split_colon : String → List String
split_colon String.[] = String.[] ∷ []
split_colon (String.◌∷◌ c s) =
    let rest = split_colon s in if code c == b':' then String.[] ∷ rest else prepend c rest

abbrev pub negated : Option ℕ → Option ℤ
negated none = none
negated (some zero) = some (pos 0)
negated (some (suc n)) = some (negsuc n)

abbrev pub positive : Option ℕ → Option ℤ
positive none = none
positive (some n) = some (pos n)

-- `time(h, m)`; `none` is a `ValueError`, or the `OverflowError` of `exceeds_int`.
abbrev pub time_at : Option ℤ → Option ℤ → Option ℕ
time_at (some (pos h)) (some (pos m)) =
    if ltb h 24 && ltb m 60 then some (h * hour_us + m * minute_us) else none
time_at _ _ = none

-- `time` takes its numbers as C integers of 32 bits, and raises an `OverflowError` for any other.
abbrev pub exceeds_int : Option ℤ → Bool
exceeds_int none = false
exceeds_int (some (pos n)) = leb 2_147_483_648 n
exceeds_int (some (negsuc n)) = leb 2_147_483_648 n

module _ (digit : ℕ → Option ℕ) where
  -- The digits of `int(s)`, after a digit or not; one underscore may stand between two digits.
  abbrev pub digits_value : Bool → ℕ → String → Option ℕ
  digits_value true value String.[] = some value
  digits_value false value String.[] = none
  digits_value after value (String.◌∷◌ c s) = elim (digit (code c)) [
    | some d ↦ digits_value true (value * 10 + d) s
    | none ↦ let rest = digits_value false value s in if after && code c == b'_' then rest else none
  ]

  abbrev pub signed : String → Option ℤ
  signed String.[] = none
  signed (String.◌∷◌ c s) =
      if code c == b'-'
      then negated (digits_value false 0 s)
      else if code c == b'+'
      then positive (digits_value false 0 s)
      else positive (digits_value false 0 (String.◌∷◌ c s))

  -- `int(s)`; `none` is a `ValueError`. A text of more digits than `int` reads, 4300 by default, is
  -- read here all the same.
  unfoldable pub int_of : String → Option ℤ
  int_of s = signed (strip s)

  abbrev pub time_of_parts : List String → Option ℕ
  time_of_parts (h ∷ m ∷ []) = time_at (int_of h) (int_of m)
  time_of_parts _ = none

  -- Whether `time(int(h), int(m))` raises an `OverflowError`: both numbers are read before it runs.
  abbrev pub parts_overflow : List String → Bool
  parts_overflow (h ∷ m ∷ []) =
      (is_some (int_of h) && is_some (int_of m))
      && (exceeds_int (int_of h) || exceeds_int (int_of m))
  parts_overflow _ = false

  -- `_str_to_time`; `none` is an exception.
  unfoldable pub str_to_time : String → Option ℕ
  str_to_time s = time_of_parts (split_colon s)
