-- ===== src/Shared/Phone.antt =====
-- brazilian_phone.py of app/domain/shared/value_objects. The digits are those of `\D` and `int`: a
-- table from a code point to the digit that Unicode gives it. The properties `ddd` and `national`,
-- which only print, have no counterpart here.
pub mod Stored
use Prim.Native.Char.{Char, code}
use Prim.Native.String
use venue_backend.Common.{
  ℕ, ◌+◌, ◌*◌, String, Bool, true, false, not, ◌&&◌, ◌||◌, Option, none, some, List, [], ◌∷◌, ◌++◌,
  leb, ◌==◌, if◌then◌else◌, is_some, any, length,
}
use venue_backend.Shared.Result.{Result, success}
use venue_backend.Shared.Text.{every}
use venue_backend.Shared.Names.{is_letter}
use venue_backend.Shared.Values.{Raw, text, fail_with}

pub record BrazilianPhone : Type 0 where
  pub content : String
  pub is_mobile : Bool

-- `_VALID_DDDS`
abbrev pub valid_ddds : List ℕ
valid_ddds =
    11 ∷ 12 ∷ 13 ∷ 14 ∷ 15 ∷ 16 ∷ 17 ∷ 18 ∷ 19 ∷ 21 ∷ 22 ∷ 24 ∷ 27 ∷ 28 ∷ 31 ∷ 32 ∷ 33 ∷ 34 ∷ 35
    ∷ 37 ∷ 38 ∷ 41 ∷ 42 ∷ 43 ∷ 44 ∷ 45 ∷ 46 ∷ 47 ∷ 48 ∷ 49 ∷ 51 ∷ 53 ∷ 54 ∷ 55 ∷ 61 ∷ 62 ∷ 63 ∷ 64
    ∷ 65 ∷ 66 ∷ 67 ∷ 68 ∷ 69 ∷ 71 ∷ 73 ∷ 74 ∷ 75 ∷ 77 ∷ 79 ∷ 81 ∷ 82 ∷ 83 ∷ 84 ∷ 85 ∷ 86 ∷ 87 ∷ 88
    ∷ 89 ∷ 91 ∷ 92 ∷ 93 ∷ 94 ∷ 95 ∷ 96 ∷ 97 ∷ 98 ∷ 99 ∷ []

-- `_DIGITS_RE.sub("", raw)`, as the list of the characters that stay.
abbrev pub digits_of : (ℕ → Option ℕ) → String → List Char
digits_of digit String.[] = []
digits_of digit (String.◌∷◌ c s) =
    if is_some (digit (code c)) then c ∷ digits_of digit s else digits_of digit s

-- `if len(digits) in (12, 13) and digits.startswith("55"): digits = digits[2:]`
abbrev pub without_country : List Char → List Char
without_country (c ∷ d ∷ ds) =
    if (length ds == 10 || length ds == 11) && (code c == b'5' && code d == b'5')
    then ds
    else c ∷ d ∷ ds
without_country ds = ds

abbrev pub digit_or_zero : (ℕ → Option ℕ) → Char → ℕ
digit_or_zero digit c = elim (digit (code c)) [ none ↦ 0 | some n ↦ n ]

-- `int(digits[:2])` and `digits[2]`, of 10 or 11 digits.
abbrev pub ddd_of : (ℕ → Option ℕ) → List Char → ℕ
ddd_of digit (c ∷ d ∷ ds) = digit_or_zero digit c * 10 + digit_or_zero digit d
ddd_of digit _ = 0

abbrev pub third : List Char → ℕ
third (c ∷ d ∷ e ∷ ds) = code e
third _ = 0

abbrev pub join : List Char → String
join [] = String.[]
join (c ∷ cs) = String.◌∷◌ c (join cs)

-- `f"+55{digits}"`
abbrev pub international : List Char → String
international ds = String.◌∷◌ "+" (String.◌∷◌ "5" (String.◌∷◌ "5" (join ds)))

-- The checks on the digits without the code of the country.
unfoldable pub national_number : (ℕ → Option ℕ) → List Char → Result BrazilianPhone
national_number digit ds =
    if not (length ds == 10 || length ds == 11)
    then fail_with "PhoneInvalidLength"
    else if not (any (λ n. n == ddd_of digit ds) valid_ddds)
    then fail_with "PhoneInvalidDdd"
    else if length ds == 11 && not (third ds == b'9')
    then fail_with "PhoneMobileMustStartWith9"
    else if not (length ds == 11) && not (leb b'2' (third ds) && leb (third ds) b'7')
    then fail_with "PhoneLandlineMustStartWith2To7"
    else success (record { content = international ds; is_mobile = length ds == 11 })

unfoldable pub create_phone : (ℕ → Option ℕ) → Raw → Result BrazilianPhone
create_phone digit (text s) =
    let ds = digits_of digit s in
    if not (every (λ c. not (is_letter c)) s)
    then fail_with "PhoneContainsInvalidCharacters"
    else if length ds == 0
    then fail_with "PhoneHasNoDigits"
    else national_number digit (without_country ds)
create_phone digit _ = fail_with "PhoneCannotBeEmpty"
