-- ===== src/Accounts/Slugify/Formed.antt =====
-- The form of what `slugify` returns.
use Prim.Native.Char.{code}
use venue_backend.Common.{
  ℕ, ◌≤◌, ◌≡◌, refl, String, Bool, true, false, not, ◌&&◌, ◌||◌, inl, inr, Bool-cases, ltb, leb,
  ◌==◌, arith,
}
use venue_backend.Shared.Text.{size, is_blank, every}
use venue_backend.Shared.Text.Case.{lower}
use venue_backend.Shared.Names.{is_digit, is_slug, is_slug_end, double_dash_after, has_double_dash}
use venue_backend.Accounts.Slugify.{
  is_alnum, dashed, lstrip_dash, rstrip_dash, collapsed, starts_alpha, slug_or, slugify,
}

abbrev is_dashed : ℕ → Bool
is_dashed c = is_alnum c || c == b'-'

every-dashed : (run : Bool) (s : String) → every is_dashed (dashed run s) ≡ true
every-dashed run String.[] = refl
every-dashed run (String.◌∷◌ c s) = ground (arith, every-dashed true s, every-dashed false s)

every-lstrip_dash : (s : String) → every is_dashed s ≡ true → every is_dashed (lstrip_dash s) ≡ true
every-lstrip_dash String.[] h = refl
every-lstrip_dash (String.◌∷◌ c s) h = ground (arith, every-lstrip_dash s)

-- What is left of a text without its dashes at the end is empty, or is the end of a slug.
rstrip_dash-slug_end :
    (s : String)
    → every is_dashed s ≡ true
    → (is_blank (rstrip_dash s) || is_slug_end (rstrip_dash s)) ≡ true
rstrip_dash-slug_end String.[] h = refl
rstrip_dash-slug_end (String.◌∷◌ c s) h = ground (arith, rstrip_dash-slug_end s)

collapsed-slug_end :
    (dash : Bool) (s : String) → is_slug_end s ≡ true → is_slug_end (collapsed dash s) ≡ true
collapsed-slug_end dash String.[] h = cc
collapsed-slug_end dash (String.◌∷◌ c String.[]) h = ground arith
collapsed-slug_end dash (String.◌∷◌ c (String.◌∷◌ d s)) h = ground (
  arith,
  collapsed-slug_end true (String.◌∷◌ d s),
  collapsed-slug_end (code c == b'-') (String.◌∷◌ d s),
)

collapsed-no_double : (dash : Bool) (s : String) → double_dash_after dash (collapsed dash s) ≡ false
collapsed-no_double dash String.[] = refl
collapsed-no_double dash (String.◌∷◌ c s) =
    ground (arith, collapsed-no_double true s, collapsed-no_double (code c == b'-') s)

-- A text in the form of a slug, of whatever length.
pub record IsFormed (s : String) : Type 0 where
  pub long : 2 ≤ size s
  pub single : has_double_dash s ≡ false
  pub formed : is_slug s ≡ true

slug_end_alpha :
    (s : String) → is_slug_end s ≡ true → starts_alpha s ≡ true → 2 ≤ size s → is_slug s ≡ true
slug_end_alpha String.[] h a n = cc
slug_end_alpha (String.◌∷◌ c String.[]) h a n = absurd (omega (arith, n))
slug_end_alpha (String.◌∷◌ c (String.◌∷◌ d s)) h a n = ground arith

-- The end of a slug is not empty.
slug_or-IsFormed :
    (fallback s : String)
    → IsFormed fallback
    → (is_blank s || is_slug_end s) ≡ true
    → has_double_dash s ≡ false
    → IsFormed (slug_or fallback s)
slug_or-IsFormed fallback s f end single =
    elim (Bool-cases (is_blank s || ltb (size s) 2 || not (starts_alpha s))) [
      | inl bad ↦ rw bad f
      | inr good ↦
          let long : 2 ≤ size s = ground arith in
          rw good (record {
            long = long;
            single = single;
            formed = slug_end_alpha s (ground arith) (ground arith) long;
          })
    ]

-- Hexadecimal digits, as `uuid4().hex` has them.
abbrev pub is_hex : ℕ → Bool
is_hex c = is_digit c || (leb b'a' c && leb c b'f')

hex-slug_end : (s : String) → every is_hex s ≡ true → 1 ≤ size s → is_slug_end s ≡ true
hex-slug_end String.[] h n = absurd (omega (arith, n))
hex-slug_end (String.◌∷◌ c String.[]) h n = ground arith
hex-slug_end (String.◌∷◌ c (String.◌∷◌ d s)) h n = ground (arith, hex-slug_end (String.◌∷◌ d s))

hex-no_double :
    (dash : Bool) (s : String) → every is_hex s ≡ true → double_dash_after dash s ≡ false
hex-no_double dash String.[] h = refl
hex-no_double dash (String.◌∷◌ c s) h = ground (arith, hex-no_double (code c == b'-') s)

fallback-IsFormed :
    (hex : String)
    → every is_hex hex ≡ true
    → 1 ≤ size hex
    → IsFormed (String.◌∷◌ "u" (String.◌∷◌ "-" hex))
unfolding has_double_dash
fallback-IsFormed hex h n = record {
  long = omega arith;
  single = ground (arith, hex-no_double true hex h);
  formed = ground (arith, hex-slug_end hex h n);
}

-- Where the random part is made of hexadecimal digits, `slugify` returns a text of at least two
-- characters in the form of a slug: a small letter, then small letters, digits and dashes, no two
-- dashes after one another, and no dash at the end. It may be longer than a slug may be.
pub slugify-IsFormed :
    (ascii hex : String) → every is_hex hex ≡ true → 1 ≤ size hex → IsFormed (slugify ascii hex)
unfolding slugify has_double_dash
slugify-IsFormed ascii hex h n =
    let s = rstrip_dash (lstrip_dash (dashed false (lower ascii))) in
    let end =
      rstrip_dash-slug_end (lstrip_dash (dashed false (lower ascii)))
        (every-lstrip_dash (dashed false (lower ascii)) (every-dashed false (lower ascii))) in
    slug_or-IsFormed (String.◌∷◌ "u" (String.◌∷◌ "-" hex)) (collapsed false s)
      (fallback-IsFormed hex h n) (collapsed_end s end) (collapsed-no_double false s)
  where
    collapsed_end :
        (s : String)
        → (is_blank s || is_slug_end s) ≡ true
        → (is_blank (collapsed false s) || is_slug_end (collapsed false s)) ≡ true
    collapsed_end String.[] h = refl
    collapsed_end (String.◌∷◌ c s) h = ground (arith, collapsed-slug_end false (String.◌∷◌ c s))
