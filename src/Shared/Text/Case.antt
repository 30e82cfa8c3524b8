-- ===== src/Shared/Text/Case.antt =====
-- `str.lower` of Python texts, as far as a slug or an e-mail address can see it: the capitals of
-- ASCII, the two other code points that lower to ASCII (the Kelvin sign, and the dotted capital I,
-- which is also the one that becomes longer). Any other capital lowers to one code point that is
-- not ASCII; it is left as it is, and the formats of the two refuse it in either form.
use Prim.Native.Char.{Char, code, char, nul}
use Prim.Native.Nat.{Ordering, compare}
use venue_backend.Common.{
  ℕ, ◌+◌, ◌<◌, String, ◌≡◌, refl, Bool, true, false, ◌&&◌, not, ◌||◌, arith, leb, ◌==◌, inl, inr,
  Bool-cases, if◌then◌else◌,
}
use venue_backend.Shared.Text.{every}

low_char : (n : ℕ) (o : Ordering) → compare n 55296 ≡ o → Char
low_char n Ordering.lt e = char n (rw e tt)
low_char n _ e = nul

-- The character of a small code point.
unfoldable pub to_char : ℕ → Char
unfolding low_char
to_char n = low_char n (compare n 55296) refl

code-low_char :
    (n : ℕ) (o : Ordering) (e : compare n 55296 ≡ o) → n < 55296 → code (low_char n o e) ≡ n
unfolding low_char
code-low_char n Ordering.lt e h = refl
code-low_char n Ordering.eq e h = ground arith
code-low_char n Ordering.gt e h = ground arith

pub code-to_char : (n : ℕ) → n < 55296 → code (to_char n) ≡ n
unfolding to_char
code-to_char n h = code-low_char n (compare n 55296) refl h

abbrev pub is_upper : ℕ → Bool
is_upper c = leb 65 c && leb c 90

lower_char : Char → Char
unfolding to_char
lower_char c =
    if is_upper (code c) then to_char (code c + 32) else if code c == 0x212a then to_char 107 else c

unfoldable pub lower : String → String
unfolding lower_char to_char
lower String.[] = String.[]
lower (String.◌∷◌ c s) =
    let rest = lower s in
    if code c == 0x130
    then String.◌∷◌ (to_char 105) (String.◌∷◌ (to_char 775) rest)
    else String.◌∷◌ (lower_char c) rest

-- What `lower` leaves.
abbrev pub is_lowered : ℕ → Bool
is_lowered c = not (is_upper c || c == 0x212a || c == 0x130)

code-lower_char :
    (c : Char)
    → code (lower_char c)
      ≡ (if is_upper (code c) then code c + 32 else if code c == 0x212a then 107 else code c)
unfolding lower_char
code-lower_char c = elim (Bool-cases (is_upper (code c))) [
  | inl big ↦ rw big (code-to_char (code c + 32) (ground arith))
  | inr small ↦ elim (Bool-cases (code c == 0x212a)) [
    | inl kelvin ↦ rw (small, kelvin) (code-to_char 107 (omega arith))
    | inr plain ↦ rw (small, plain) refl
  ]
]

is_lowered-lower_char :
    (c : Char) → (code c == 0x130) ≡ false → is_lowered (code (lower_char c)) ≡ true
is_lowered-lower_char c h = rw (code-lower_char c) (ground arith)

every-lower : (s : String) → every is_lowered (lower s) ≡ true
unfolding lower
every-lower String.[] = refl
every-lower (String.◌∷◌ c s) =
    ground (arith, every-lower s, is_lowered-lower_char c, code-to_char 105, code-to_char 775)

lower-every : (s : String) → every is_lowered s ≡ true → lower s ≡ s
unfolding lower lower_char
lower-every String.[] h = refl
lower-every (String.◌∷◌ c s) h = ground (arith, lower-every s)

-- Lowering twice is lowering once.
pub lower_idem : (s : String) → lower (lower s) ≡ lower s
lower_idem s = lower-every (lower s) (every-lower s)
