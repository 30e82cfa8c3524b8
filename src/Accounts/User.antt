-- ===== src/Accounts/User.antt =====
-- user.py. The digits of a telephone number are those of the table `digit`.
pub mod Owners
use venue_backend.Common.{
  ℕ, String, Bool, true, false, not, ◌&&◌, Option, none, some, List, [], ◌∷◌, ◌++◌, is_some,
  if◌then◌else◌,
}
use venue_backend.Shared.Result.{
  plain, FieldError, failure_many, Result, success, failed, field_errors,
}
use venue_backend.Shared.Time.{DateTime}
use venue_backend.Shared.Text.{is_blank}
use venue_backend.Shared.Values.{Raw}
use venue_backend.Shared.Names.{
  create_email, create_name, create_slug, create_if_not_empty, option_of,
}
use venue_backend.Shared.Phone.{BrazilianPhone, create_phone}
use venue_backend.Bookings.{Role, admin, owner, customer}

pub record User : Type 0 where
  pub id : ℕ
  pub email : String
  pub password_hash : String
  pub role : Role
  pub full_name : String
  pub phone : Option BrazilianPhone
  pub is_active : Bool
  pub public_slug : Option String
  pub created_at : DateTime
  pub updated_at : DateTime

-- `role is Role.OWNER`
abbrev pub is_owner : Role → Bool
is_owner owner = true
is_owner _ = false

-- `Role.is_self_registerable`
abbrev pub is_self_registerable : Role → Bool
is_self_registerable owner = true
is_self_registerable customer = true
is_self_registerable admin = false

-- The arguments of `User.create`.
pub record UserInput : Type 0 where
  pub email : Raw
  pub password_hash : String
  pub role : Role
  pub full_name : Raw
  pub phone : Raw
  pub public_slug : Option Raw

abbrev pub optional_slug : Option Raw → Result (Option String)
optional_slug none = success none
optional_slug (some raw) = option_of (create_slug raw)

abbrev pub user_error : String → String → List FieldError
user_error code field = record { code = code; field = plain field } ∷ []

-- `OWNER` if and only if there is a slug.
abbrev pub role_errors : Role → Option Raw → List FieldError
role_errors role slug =
    if is_owner role && not (is_some slug)
    then user_error "PublicSlugRequiredForOwner" "public_slug"
    else if not (is_owner role) && is_some slug
    then user_error "PublicSlugForbiddenForNonOwner" "public_slug"
    else []

abbrev pub user_errors :
    UserInput
    → Result String
    → Result String
    → Result (Option BrazilianPhone)
    → Result (Option String)
    → List FieldError
user_errors i email name phone slug =
    field_errors (plain "email") email
    ++ (field_errors (plain "full_name") name
        ++ ((if is_blank i.password_hash
              then user_error "PasswordHashCannotBeEmpty" "password_hash"
              else [])
            ++ (field_errors (plain "phone") phone
                ++ (field_errors (plain "public_slug") slug ++ role_errors i.role i.public_slug))))

-- The aggregate where there is no error; the errors of a value that failed are never empty.
abbrev pub enrol :
    ℕ
    → DateTime
    → UserInput
    → List FieldError
    → Result String
    → Result String
    → Result (Option BrazilianPhone)
    → Result (Option String)
    → Result User
enrol id now i [] (success email) (success name) (success phone) (success slug) = success (record {
  id = id;
  email = email;
  password_hash = i.password_hash;
  role = i.role;
  full_name = name;
  phone = phone;
  is_active = true;
  public_slug = slug;
  created_at = now;
  updated_at = now;
})
enrol id now i errors _ _ _ _ = failed (failure_many errors none)

-- `User.create`; `id` and `now` are what `uuid4()` and the clock give.
unfoldable pub create_user : (ℕ → Option ℕ) → ℕ → DateTime → UserInput → Result User
create_user digit id now i =
    let email = create_email i.email in
    let name = create_name i.full_name in
    let phone = create_if_not_empty (create_phone digit) i.phone in
    let slug = optional_slug i.public_slug in
    enrol id now i (user_errors i email name phone slug) email name phone slug

unfoldable pub change_password_hash : User → String → DateTime → User
change_password_hash u new_hash now = record u { password_hash = new_hash; updated_at = now }

unfoldable pub set_role : User → Role → DateTime → User
set_role u new_role now = record u { role = new_role; updated_at = now }

-- `User.deactivate` and `User.activate`
unfoldable pub deactivate_user : User → DateTime → User
deactivate_user u now = record u { is_active = false; updated_at = now }

unfoldable pub activate_user : User → DateTime → User
activate_user u now = record u { is_active = true; updated_at = now }
