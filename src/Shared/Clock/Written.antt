-- ===== src/Shared/Clock/Written.antt =====
-- A time of day that was written is read as it was.
use Prim.Native.Char.{Char, code}
use venue_backend.Common.{
  ℕ, ◌+◌, ◌*◌, ◌/◌, ◌%◌, ◌<◌, ◌≡◌, refl, ap, ◌∙◌, String, Bool, true, false, Option, some, List, [],
  ◌∷◌, arith, ◌==◌,
}
use venue_backend.Shared.Time.{pos, hour, minute, hour_us, minute_us, day_us}
use venue_backend.Shared.Text.{is_space, is_solid, every, strip-every}
use venue_backend.Shared.Text.Case.{to_char, code-to_char}
use venue_backend.Shared.Clock.{
  two_digits, time_to_str, split_colon, digits_value, int_of, str_to_time, time_at, signed,
  positive,
}

solid_digit : (c : ℕ) → c < 10 → is_solid (48 + c) ≡ true
unfolding is_space
solid_digit c h = ground arith

no_sign : (c : ℕ) → c < 10 → (((48 + c) == 45) ≡ false) × (((48 + c) == 43) ≡ false)
no_sign c h = (ground arith, ground arith)

digits_step :
    (digit : ℕ → Option ℕ) (after : Bool) (value : ℕ) (c : Char) (s : String) (d : ℕ)
    → digit (code c) ≡ some d
    → digits_value digit after value (String.◌∷◌ c s) ≡ digits_value digit true (value * 10 + d) s
digits_step digit true value c s d h = rw (h, digits_value) refl
digits_step digit false value c s d h = rw (h, digits_value) refl

zero_times : (x : ℕ) → 0 * 10 + x ≡ x
zero_times x = omega arith

read_two :
    (digit : ℕ → Option ℕ) (c d : Char) (x y : ℕ)
    → (code c == b'-') ≡ false
    → (code c == b'+') ≡ false
    → digit (code c) ≡ some x
    → digit (code d) ≡ some y
    → signed digit (String.◌∷◌ c (String.◌∷◌ d String.[])) ≡ some (pos (x * 10 + y))
read_two digit c d x y minus plus tens ones =
    rw (minus, plus)
      (ap positive (
        digits_step digit false 0 c (String.◌∷◌ d String.[]) x tens
        ∙ ap (λ v. digits_value digit true v (String.◌∷◌ d String.[])) (zero_times x)
        ∙ digits_step digit true x d String.[] y ones))

int_of-two_digits :
    (digit : ℕ → Option ℕ)
    → ((d : ℕ) → d < 10 → digit (48 + d) ≡ some d)
    → (n : ℕ) → n < 100
    → int_of digit (two_digits n String.[]) ≡ some (pos n)
unfolding int_of
int_of-two_digits digit ascii n h =
    let tens : code (to_char (48 + n / 10)) ≡ 48 + n / 10 = code-to_char _ (omega arith) in
    let ones : code (to_char (48 + n % 10)) ≡ 48 + n % 10 = code-to_char _ (omega arith) in
    let solid : every is_solid (two_digits n String.[]) ≡ true =
      rw (tens, ones, solid_digit (n / 10) (omega arith), solid_digit (n % 10) (omega arith))
        refl in
    ap (signed digit) (strip-every (two_digits n String.[]) solid)
    ∙ read_two digit (to_char (48 + n / 10)) (to_char (48 + n % 10)) (n / 10) (n % 10)
        (rw tens (no_sign (n / 10) (omega arith)).0) (rw tens (no_sign (n / 10) (omega arith)).1)
        (rw tens (ascii (n / 10) (omega arith))) (rw ones (ascii (n % 10) (omega arith)))
    ∙ ap (λ k. some (pos k)) (omega arith)

-- No digit is a colon.
split_colon-two_digits :
    (n : ℕ) (s : String) {rest : List String}
    → n < 100
    → split_colon s ≡ String.[] ∷ rest
    → split_colon (two_digits n s) ≡ two_digits n String.[] ∷ rest
split_colon-two_digits n s h e =
    let tens : code (to_char (48 + n / 10)) ≡ 48 + n / 10 = code-to_char _ (omega arith) in
    let ones : code (to_char (48 + n % 10)) ≡ 48 + n % 10 = code-to_char _ (omega arith) in
    rw (tens, ones, e, no_colon (n / 10) (omega arith), no_colon (n % 10) (omega arith)) refl
  where
    no_colon : (c : ℕ) → c < 10 → ((48 + c) == 58) ≡ false
    no_colon c h = ground arith

split-time_to_str :
    (t : ℕ)
    → t < day_us
    → split_colon (time_to_str t)
      ≡ two_digits (hour t) String.[] ∷ two_digits (minute t) String.[] ∷ []
unfolding time_to_str
split-time_to_str t h =
    split_colon-two_digits (hour t) (String.◌∷◌ ":" (two_digits (minute t) String.[])) (omega arith)
      (rw (split_colon-two_digits (minute t) String.[] (omega arith) refl) refl)

-- Where the table has the digits of ASCII: a time of day on a whole minute, written as `HH:MM`, is read
-- as it was.
pub str_to_time-time_to_str :
    (digit : ℕ → Option ℕ)
    → ((d : ℕ) → d < 10 → digit (48 + d) ≡ some d)
    → (t : ℕ) → t < day_us
    → t % minute_us ≡ 0
    → str_to_time digit (time_to_str t) ≡ some t
unfolding str_to_time
str_to_time-time_to_str digit ascii t h whole =
    rw
      (
        split-time_to_str t h,
        int_of-two_digits digit ascii (hour t) (omega arith),
        int_of-two_digits digit ascii (minute t) (omega arith),
      )
      (in_range (hour t) (minute t) t (omega arith) (omega arith) (omega arith))
  where
    in_range :
        (h m t : ℕ)
        → h < 24
        → m < 60
        → h * hour_us + m * minute_us ≡ t
        → time_at (some (pos h)) (some (pos m)) ≡ some t
    in_range h m t p q e = ground arith
