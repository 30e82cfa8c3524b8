-- ===== src/Shared/Names.antt =====
-- The value objects whose one field is a text, by that text (name.py, short_name.py,
-- attribute_key.py, slug.py, email.py and iana_timezone.py of app/domain/shared/value_objects).
-- `create` normalises the text, refuses it with the code that `_validate` finds, or keeps it.
pub mod Stored
use Prim.Native.Char.{code}
use venue_backend.Common.{
  ℕ, String, Bool, true, false, not, ◌&&◌, ◌||◌, Option, none, some, ltb, leb, ◌==◌, if◌then◌else◌,
}
use venue_backend.Shared.Result.{Result, success}
use venue_backend.Shared.Text.{size, is_blank, every, strip}
use venue_backend.Shared.Text.Case.{is_upper, lower}
use venue_backend.Shared.Values.{Raw, null, text, fail_with}

-- `if err: return Result.failure(err)`, and else the value.
abbrev pub unless_error : {A : Type 0} → Option String → A → Result A
unless_error none a = success a
unless_error (some e) a = fail_with e

-- Classes of the regular expressions, and `ord(ch) < 0x20`.
abbrev pub is_lower : ℕ → Bool
is_lower c = leb 97 c && leb c 122

abbrev pub is_digit : ℕ → Bool
is_digit c = leb 48 c && leb c 57

abbrev pub is_letter : ℕ → Bool
is_letter c = is_lower c || is_upper c

abbrev pub is_printable : ℕ → Bool
is_printable c = leb 32 c

-- name.py
abbrev pub name_error : String → Option String
name_error s =
    if is_blank s
    then some "NameCannotBeEmpty"
    else if ltb 500 (size s)
    then some "NameCannotBeGreaterThanMaxLength"
    else if not (every is_printable s)
    then some "NameContainsInvalidCharacters"
    else none

unfoldable pub create_name : Raw → Result String
create_name (text s) = unless_error (name_error (strip s)) (strip s)
create_name _ = fail_with "NameCannotBeEmpty"

-- short_name.py
abbrev pub short_name_error : String → Option String
short_name_error s =
    if is_blank s
    then some "ShortNameCannotBeEmpty"
    else if ltb 40 (size s)
    then some "ShortNameCannotBeGreaterThanMaxLength"
    else if not (every is_printable s)
    then some "ShortNameContainsInvalidCharacters"
    else none

unfoldable pub create_short_name : Raw → Result String
create_short_name (text s) = unless_error (short_name_error (strip s)) (strip s)
create_short_name _ = fail_with "ShortNameCannotBeEmpty"

-- `^[a-z][a-z0-9_]*$`, of a text that ends in no line feed.
abbrev pub is_key : String → Bool
is_key String.[] = false
is_key (String.◌∷◌ c s) = is_lower (code c) && every (λ d. is_lower d || is_digit d || d == b'_') s

-- attribute_key.py
abbrev pub key_error : String → Option String
key_error s =
    if is_blank s
    then some "AttributeKeyCannotBeEmpty"
    else if ltb 50 (size s)
    then some "AttributeKeyCannotBeGreaterThanMaxLength"
    else if not (is_key s)
    then some "AttributeKeyInvalidFormat"
    else none

unfoldable pub create_key : Raw → Result String
create_key (text s) = unless_error (key_error (strip s)) (strip s)
create_key _ = fail_with "AttributeKeyCannotBeEmpty"

-- `_DOUBLE_DASH_RE.search`, where the text before ended in a dash or did not.
abbrev pub double_dash_after : Bool → String → Bool
double_dash_after dash String.[] = false
double_dash_after dash (String.◌∷◌ c s) =
    (dash && code c == b'-') || double_dash_after (code c == b'-') s

unfoldable pub has_double_dash : String → Bool
has_double_dash = double_dash_after false

-- `[a-z0-9-]*[a-z0-9]$`
abbrev pub is_slug_end : String → Bool
is_slug_end String.[] = false
is_slug_end (String.◌∷◌ c s) =
    ((is_lower (code c) || is_digit (code c)) && is_blank s)
    || ((is_lower (code c) || is_digit (code c) || code c == b'-') && is_slug_end s)

-- `^[a-z][a-z0-9-]*[a-z0-9]$`
abbrev pub is_slug : String → Bool
is_slug String.[] = false
is_slug (String.◌∷◌ c s) = is_lower (code c) && is_slug_end s

-- slug.py
abbrev pub slug_error : String → Option String
slug_error s =
    if is_blank s
    then some "SlugCannotBeEmpty"
    else if ltb 80 (size s)
    then some "SlugCannotBeGreaterThanMaxLength"
    else if ltb (size s) 2
    then some "SlugInvalidFormat"
    else if has_double_dash s
    then some "SlugInvalidFormat"
    else if not (is_slug s)
    then some "SlugInvalidFormat"
    else none

unfoldable pub create_slug : Raw → Result String
create_slug (text s) = unless_error (slug_error (lower (strip s))) (lower (strip s))
create_slug _ = fail_with "SlugCannotBeEmpty"

-- The classes of `_EMAIL_RE`.
abbrev pub is_local : ℕ → Bool
is_local c =
    is_letter c || is_digit c || c == b'.' || c == b'_' || c == b'%' || c == b'+' || c == b'-'

abbrev pub is_domain : ℕ → Bool
is_domain c = is_letter c || is_digit c || c == b'.' || c == b'-'

-- `[A-Za-z]{2,}$`
abbrev pub is_top : String → Bool
is_top s = leb 2 (size s) && every is_letter s

-- `[A-Za-z0-9.-]*\.[A-Za-z]{2,}$`
abbrev pub is_host_end : String → Bool
is_host_end String.[] = false
is_host_end (String.◌∷◌ c s) = (code c == b'.' && is_top s) || (is_domain (code c) && is_host_end s)

-- `[A-Za-z0-9.-]+\.[A-Za-z]{2,}$`
abbrev pub is_host : String → Bool
is_host String.[] = false
is_host (String.◌∷◌ c s) = is_domain (code c) && is_host_end s

-- `[A-Za-z0-9._%+-]*@[A-Za-z0-9.-]+\.[A-Za-z]{2,}$`
abbrev pub is_email_end : String → Bool
is_email_end String.[] = false
is_email_end (String.◌∷◌ c s) =
    (code c == b'@' && is_host s) || (is_local (code c) && is_email_end s)

-- `_EMAIL_RE`
abbrev pub is_email : String → Bool
is_email String.[] = false
is_email (String.◌∷◌ c s) = is_local (code c) && is_email_end s

-- email.py
abbrev pub email_error : String → Option String
email_error s =
    if is_blank s
    then some "EmailCannotBeEmpty"
    else if ltb 254 (size s)
    then some "EmailCannotBeGreaterThanMaxLength"
    else if not (is_email s)
    then some "EmailInvalidFormat"
    else none

unfoldable pub create_email : Raw → Result String
create_email (text s) = unless_error (email_error (lower (strip s))) (lower (strip s))
create_email _ = fail_with "EmailCannotBeEmpty"

-- iana_timezone.py; `available` is the membership in `available_timezones()` of the machine.
abbrev pub timezone_error : (String → Bool) → String → Option String
timezone_error available s =
    if is_blank s
    then some "IanaTimezoneCannotBeEmpty"
    else if not (available s)
    then some "IanaTimezoneUnknown"
    else none

unfoldable pub create_timezone : (String → Bool) → Raw → Result String
create_timezone available (text s) = unless_error (timezone_error available (strip s)) (strip s)
create_timezone available _ = fail_with "IanaTimezoneCannotBeEmpty"

abbrev pub option_of : {A : Type 0} → Result A → Result (Option A)
option_of (success a) = success (some a)
option_of (Result.failed e) = Result.failed e

-- `create_if_not_empty` of the classes that have it.
unfoldable pub create_if_not_empty : {A : Type 0} → (Raw → Result A) → Raw → Result (Option A)
create_if_not_empty create null = success none
create_if_not_empty create (text s) =
    if is_blank (strip s) then success none else option_of (create (text s))
create_if_not_empty create raw = option_of (create raw)
