-- ===== src/Accounts/Rows.antt =====
-- The rows of the users: `_to_model` and `_to_entity` of user_repository.py.
pub mod Again
use text.Mathlib.Text.{◌==◌ as str_eq}
use venue_backend.Common.{ℕ, ◌==◌, String, Bool, Option, none, some, if◌then◌else◌}
use venue_backend.Shared.Time.{DateTime}
use venue_backend.Shared.Text.{size, is_blank}
use venue_backend.Shared.Phone.{BrazilianPhone}
use venue_backend.Bookings.{Role, admin, owner, customer}
use venue_backend.Accounts.User.{User}

pub record UserRow : Type 0 where
  pub id : ℕ
  pub email : String
  pub password_hash : String
  pub role : String
  pub full_name : String
  pub phone_number : Option String
  pub public_slug : Option String
  pub is_active : Bool
  pub created_at : DateTime
  pub updated_at : DateTime

-- The `.value` of a role, and `Role(...)`.
abbrev pub role_value : Role → String
role_value admin = "admin"
role_value owner = "owner"
role_value customer = "customer"

abbrev pub role_at : String → Option Role
role_at s =
    if str_eq s "admin"
    then some admin
    else if str_eq s "owner"
    then some owner
    else if str_eq s "customer"
    then some customer
    else none

abbrev pub phone_number_of : Option BrazilianPhone → Option String
phone_number_of none = none
phone_number_of (some phone) = some phone.content

-- `_to_model`
unfoldable pub to_user_row : User → UserRow
to_user_row u = record {
  id = u.id;
  email = u.email;
  password_hash = u.password_hash;
  role = role_value u.role;
  full_name = u.full_name;
  phone_number = phone_number_of u.phone;
  public_slug = u.public_slug;
  is_active = u.is_active;
  created_at = u.created_at;
  updated_at = u.updated_at;
}

-- `if row.phone_number:`, and `is_mobile=len(row.phone_number) == 14`
abbrev pub phone_of : Option String → Option BrazilianPhone
phone_of none = none
phone_of (some s) =
    if is_blank s then none else some (record { content = s; is_mobile = size s == 14 })

-- `if row.public_slug:`
abbrev pub slug_of : Option String → Option String
slug_of none = none
slug_of (some s) = if is_blank s then none else some s

abbrev pub user_at : UserRow → Option Role → Option User
user_at row none = none
user_at row (some role) = some (record {
  id = row.id;
  email = row.email;
  password_hash = row.password_hash;
  role = role;
  full_name = row.full_name;
  phone = phone_of row.phone_number;
  is_active = row.is_active;
  public_slug = slug_of row.public_slug;
  created_at = row.created_at;
  updated_at = row.updated_at;
})

-- `_to_entity`; `none` is the exception of a role that is none.
unfoldable pub of_user_row : UserRow → Option User
of_user_row row = user_at row (role_at row.role)
