-- ===== src/Accounts/Rows/Again.antt =====
-- A user is read again from the row that was written.
use venue_backend.Common.{
  String, ◌==◌, ◌≡◌, refl, Bool, true, false, Option, none, some, arith, if◌then◌else◌,
}
use venue_backend.Shared.Text.{size, is_blank}
use venue_backend.Shared.Phone.{BrazilianPhone}
use venue_backend.Bookings.{Role, admin, owner, customer}
use venue_backend.Accounts.User.{User}
use venue_backend.Accounts.Rows.{
  role_value, role_at, phone_number_of, phone_of, slug_of, to_user_row, of_user_row,
}

role_at-role_value : (r : Role) → role_at (role_value r) ≡ some r
role_at-role_value admin = refl
role_at-role_value owner = refl
role_at-role_value customer = refl

-- A telephone number as `BrazilianPhone.create` makes it: 14 characters where it is mobile, else 13.
abbrev pub IsStoredPhone : Option BrazilianPhone → Type 0
IsStoredPhone none = Unit
IsStoredPhone (some p) = size p.content ≡ (if p.is_mobile then 14 else 13)

abbrev pub IsStoredSlug : Option String → Type 0
IsStoredSlug none = Unit
IsStoredSlug (some s) = is_blank s ≡ false

sized :
    (s : String) (mobile : Bool)
    → size s ≡ (if mobile then 14 else 13)
    → (is_blank s ≡ false) × ((size s == 14) ≡ mobile)
sized String.[] true h = absurd (omega (arith, h))
sized String.[] false h = absurd (omega (arith, h))
sized (String.◌∷◌ c s) true h = (refl, ground arith)
sized (String.◌∷◌ c s) false h = (refl, ground arith)

phone_of-phone_number_of :
    (p : Option BrazilianPhone) → IsStoredPhone p → phone_of (phone_number_of p) ≡ p
phone_of-phone_number_of none h = refl
phone_of-phone_number_of (some p) h =
    let (full, mobile) = sized p.content p.is_mobile h in rw (full, mobile) refl

slug_of_stored : (s : Option String) → IsStoredSlug s → slug_of s ≡ s
slug_of_stored none h = refl
slug_of_stored (some s) h = rw h refl

-- A user whose telephone number has the length that `BrazilianPhone.create` gives it, and whose public
-- slug is not empty, is the same user when it is read from its row.
pub of_user_row-to_user_row :
    (u : User)
    → IsStoredPhone u.phone
    → IsStoredSlug u.public_slug
    → of_user_row (to_user_row u) ≡ some u
unfolding of_user_row to_user_row
of_user_row-to_user_row u phone slug =
    rw
      (
        role_at-role_value u.role,
        phone_of-phone_number_of u.phone phone,
        slug_of_stored u.public_slug slug,
      )
      refl
