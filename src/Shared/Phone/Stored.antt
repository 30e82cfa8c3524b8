-- ===== src/Shared/Phone/Stored.antt =====
-- An accepted telephone number is its own normal form.
use Prim.Native.Char.{Char, code}
use venue_backend.Common.{
  ℕ, ◌≡◌, refl, ap, ◌∙◌, String, true, false, not, ◌&&◌, ◌||◌, Option, none, some, List, [], ◌∷◌,
  arith, ◌==◌, is_some, length, All, Bool-cases, if◌then◌else◌, inl, inr,
}
use venue_backend.Shared.Result.{success}
use venue_backend.Shared.Text.{size, every}
use venue_backend.Shared.Names.{is_letter}
use venue_backend.Shared.Values.{text, fail_with}
use venue_backend.Shared.Phone.{
  BrazilianPhone, digits_of, without_country, join, international, national_number, create_phone,
}

-- A digit of the number: one of the table, and no letter.
abbrev pub IsKept : (ℕ → Option ℕ) → Char → Type 0
IsKept digit c = (is_some (digit (code c)) ≡ true) × (is_letter (code c) ≡ false)

digits_of-IsKept :
    (digit : ℕ → Option ℕ) (s : String)
    → every (λ c. not (is_letter c)) s ≡ true
    → All (IsKept digit) (digits_of digit s)
digits_of-IsKept digit String.[] h = tt
digits_of-IsKept digit (String.◌∷◌ c s) h = elim (Bool-cases (is_some (digit (code c)))) [
  | inl hit ↦ rw hit ((hit, ground arith), digits_of-IsKept digit s (ground arith))
  | inr miss ↦ rw miss (digits_of-IsKept digit s (ground arith))
]

without_country-IsKept :
    (digit : ℕ → Option ℕ) (ds : List Char)
    → All (IsKept digit) ds
    → All (IsKept digit) (without_country ds)
without_country-IsKept digit [] a = a
without_country-IsKept digit (c ∷ []) a = a
without_country-IsKept digit (c ∷ d ∷ ds) a =
    elim (Bool-cases ((length ds == 10 || length ds == 11) && (code c == b'5' && code d == b'5'))) [
      | inl home ↦ rw home a.1.1
      | inr away ↦ rw away a
    ]

digits_of-join :
    (digit : ℕ → Option ℕ) (ds : List Char) → All (IsKept digit) ds → digits_of digit (join ds) ≡ ds
digits_of-join digit [] a = refl
digits_of-join digit (c ∷ ds) a = rw (a.0.0, digits_of-join digit ds a.1) refl

every-join :
    (digit : ℕ → Option ℕ) (ds : List Char)
    → All (IsKept digit) ds
    → every (λ c. not (is_letter c)) (join ds) ≡ true
every-join digit [] a = refl
every-join digit (c ∷ ds) a = rw (a.0.1, every-join digit ds a.1) refl

size-join : (ds : List Char) → size (join ds) ≡ length ds
size-join [] = refl
size-join (c ∷ ds) = omega (arith, size-join ds)

national_number-content :
    (digit : ℕ → Option ℕ) (ds : List Char) (p : BrazilianPhone)
    → national_number digit ds ≡ success p
    → (p.content ≡ international ds)
      × (size (international ds) ≡ (if p.is_mobile then 14 else 13))
      × ((length ds == 10 || length ds == 11) ≡ true)
unfolding national_number
national_number-content digit ds p h = ground (arith, size-join ds)

create_phone_digits :
    (digit : ℕ → Option ℕ) (s : String) (ds : List Char) {c : Char} {cs : List Char}
    → every (λ e. not (is_letter e)) s ≡ true
    → digits_of digit s ≡ c ∷ cs
    → without_country (c ∷ cs) ≡ ds
    → create_phone digit (text s) ≡ national_number digit ds
unfolding create_phone
create_phone_digits digit s ds {c} {cs} plain e stripped = rw (plain, e, stripped) positive
  where
    positive :
        (if length (c ∷ cs) == 0 then fail_with "PhoneHasNoDigits" else national_number digit ds)
        ≡ national_number digit ds
    positive = ground arith

create_phone-eq-success :
    (digit : ℕ → Option ℕ) (s : String) {p : BrazilianPhone}
    → create_phone digit (text s) ≡ success p
    → (every (λ e. not (is_letter e)) s ≡ true)
      × (national_number digit (without_country (digits_of digit s)) ≡ success p)
unfolding create_phone
create_phone-eq-success digit s h = ground arith

digits_of-international :
    (digit : ℕ → Option ℕ)
    → digit b'+' ≡ none
    → digit b'5' ≡ some 5
    → (ds : List Char) → All (IsKept digit) ds
    → digits_of digit (international ds) ≡ "5" ∷ "5" ∷ ds
digits_of-international digit plus five ds a = rw (plus, five, digits_of-join digit ds a) refl

-- Where the table of digits has a five and no plus sign: an accepted number is written as +55 with
-- its 10 or 11 digits, and giving that text to the check again returns the same number.
pub create_phone_stable :
    (digit : ℕ → Option ℕ)
    → digit b'+' ≡ none
    → digit b'5' ≡ some 5
    → (s : String) (p : BrazilianPhone) → create_phone digit (text s) ≡ success p
    → (create_phone digit (text p.content) ≡ success p)
      × (size p.content ≡ (if p.is_mobile then 14 else 13))
create_phone_stable digit plus five s p h =
    let (plain, national) = create_phone-eq-success digit s h in
    let ds = without_country (digits_of digit s) in
    let kept : All (IsKept digit) ds =
      without_country-IsKept digit (digits_of digit s) (digits_of-IsKept digit s plain) in
    let (e, long, ten) = national_number-content digit ds p national in
    (
      ap (λ t. create_phone digit (text t)) e
          ∙ create_phone_digits digit (international ds) ds (every-join digit ds kept)
              (digits_of-international digit plus five ds kept) (rw ten refl)
          ∙ national,
      rw e long,
    )
