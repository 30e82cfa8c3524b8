-- ===== src/Shared/Names/Stored.antt =====
-- What the values of the text classes are: a stored text passes its own check again.
use venue_backend.Common.{
  ℕ, ◌≤◌, ◌≡◌, refl, String, Bool, true, false, ◌&&◌, Option, none, some, arith, leb,
}
use venue_backend.Shared.Result.{Result, success}
use venue_backend.Shared.Text.{
  size, every, is_space, is_solid, every-implies, strip, strip_idem, strip-every,
}
use venue_backend.Shared.Text.Case.{lower, lower_idem}
use venue_backend.Shared.Values.{Raw, text}
use venue_backend.Shared.Names.{
  unless_error, is_letter, is_slug, is_slug_end, is_email, is_email_end, is_host, is_host_end,
  has_double_dash, name_error, short_name_error, key_error, slug_error, email_error, timezone_error,
  create_name, create_short_name, create_key, create_slug, create_email, create_timezone,
}

-- The classes whose value is a text.
pub data TextClass : Type 0 where
  name short_name attribute_key slug email : TextClass
  timezone : (String → Bool) → TextClass

abbrev pub create_text : TextClass → Raw → Result String
create_text name = create_name
create_text short_name = create_short_name
create_text attribute_key = create_key
create_text slug = create_slug
create_text email = create_email
create_text (timezone available) = create_timezone available

abbrev normalize : TextClass → String → String
normalize slug s = lower (strip s)
normalize email s = lower (strip s)
normalize _ s = strip s

abbrev text_error : TextClass → String → Option String
text_error name = name_error
text_error short_name = short_name_error
text_error attribute_key = key_error
text_error slug = slug_error
text_error email = email_error
text_error (timezone available) = timezone_error available

create_text_shape :
    (k : TextClass) (s : String)
    → create_text k (text s) ≡ unless_error (text_error k (normalize k s)) (normalize k s)
unfolding create_name create_short_name create_key create_slug create_email create_timezone
create_text_shape name s = refl
create_text_shape short_name s = refl
create_text_shape attribute_key s = refl
create_text_shape slug s = refl
create_text_shape email s = refl
create_text_shape (timezone available) s = refl

pub unless_error-eq-success :
    {A : Type 0} (e : Option String) (a : A) {b : A}
    → unless_error e a ≡ success b
    → (e ≡ none) × (b ≡ a)
unless_error-eq-success none a h = (refl, cc)
unless_error-eq-success (some e) a h = cc

-- A code point of the formats of slugs and addresses is no space.
abbrev is_visible : ℕ → Bool
is_visible c = leb 33 c && leb c 126

is_solid-visible : (c : ℕ) → is_visible c ≡ true → is_solid c ≡ true
unfolding is_space
is_solid-visible c h = ground arith

visible-slug_end : (s : String) → is_slug_end s ≡ true → every is_visible s ≡ true
visible-slug_end String.[] h = cc
visible-slug_end (String.◌∷◌ c String.[]) h = ground arith
visible-slug_end (String.◌∷◌ c (String.◌∷◌ d s)) h =
    ground (arith, visible-slug_end (String.◌∷◌ d s))

visible-slug : (s : String) → is_slug s ≡ true → every is_visible s ≡ true
visible-slug String.[] h = cc
visible-slug (String.◌∷◌ c s) h = ground (arith, visible-slug_end s)

visible-letters : (s : String) → every is_letter s ≡ true → every is_visible s ≡ true
visible-letters = every-implies is_letter is_visible (λ c h. ground arith)

visible-host_end : (s : String) → is_host_end s ≡ true → every is_visible s ≡ true
visible-host_end String.[] h = cc
visible-host_end (String.◌∷◌ c s) h = ground (arith, visible-host_end s, visible-letters s)

visible-host : (s : String) → is_host s ≡ true → every is_visible s ≡ true
visible-host String.[] h = cc
visible-host (String.◌∷◌ c s) h = ground (arith, visible-host_end s)

visible-email_end : (s : String) → is_email_end s ≡ true → every is_visible s ≡ true
visible-email_end String.[] h = cc
visible-email_end (String.◌∷◌ c s) h = ground (arith, visible-email_end s, visible-host s)

visible-email : (s : String) → is_email s ≡ true → every is_visible s ≡ true
visible-email String.[] h = cc
visible-email (String.◌∷◌ c s) h = ground (arith, visible-email_end s)

slug_error-format :
    (s : String)
    → slug_error s ≡ none
    → (2 ≤ size s) × (size s ≤ 80) × (has_double_dash s ≡ false) × (is_slug s ≡ true)
slug_error-format s h = ground arith

email_error-format : (s : String) → email_error s ≡ none → is_email s ≡ true
email_error-format s h = ground arith

-- Lower-case visible text is as `strip` and `lower` leave it.
settled : (s : String) → every is_visible (lower s) ≡ true → lower (strip (lower s)) ≡ lower s
settled s h =
    rw (strip-every (lower s) (every-implies is_visible is_solid is_solid-visible (lower s) h))
      (lower_idem s)

normalize_idem :
    (k : TextClass) (s : String)
    → text_error k (normalize k s) ≡ none
    → normalize k (normalize k s) ≡ normalize k s
normalize_idem name s h = strip_idem s
normalize_idem short_name s h = strip_idem s
normalize_idem attribute_key s h = strip_idem s
normalize_idem slug s h =
    let (_, _, _, good) = slug_error-format (lower (strip s)) h in
    settled (strip s) (visible-slug (lower (strip s)) good)
normalize_idem email s h =
    settled (strip s) (visible-email (lower (strip s)) (email_error-format (lower (strip s)) h))
normalize_idem (timezone available) s h = strip_idem s

accepted_text :
    (k : TextClass) (s : String) {v : String}
    → create_text k (text s) ≡ success v
    → (text_error k (normalize k s) ≡ none) × (v ≡ normalize k s)
accepted_text k s h = unless_error-eq-success _ _ (rw (create_text_shape k s) at h)

-- The text that a name, a short name, an attribute key, a slug, an e-mail address or a time zone
-- keeps of an accepted argument is accepted by the same class again, and kept as it is.
pub create_text_stable :
    (k : TextClass) (s v : String)
    → create_text k (text s) ≡ success v
    → create_text k (text v) ≡ success v
create_text_stable k s v h =
    let (fine, e) = accepted_text k s h in
    rw (e, create_text_shape k (normalize k s), normalize_idem k s fine, fine) refl

-- A slug that is accepted has from 2 to 80 characters, of which no two dashes follow one another,
-- begins with a small letter and ends in a small letter or a digit, with small letters, digits and
-- dashes between.
pub create_slug-format :
    (s v : String)
    → create_slug (text s) ≡ success v
    → (2 ≤ size v) × (size v ≤ 80) × (has_double_dash v ≡ false) × (is_slug v ≡ true)
create_slug-format s v h =
    let (fine, e) = accepted_text slug s h in rw e (slug_error-format (lower (strip s)) fine)
