-- ===== src/Accounts/User/Owners.antt =====
-- What a created user is.
use venue_backend.Common.{
  ℕ, String, ◌≡◌, true, Option, none, some, List, [], is_some, arith, append-eq-nil, if◌then◌else◌,
  ◌∙◌,
}
use venue_backend.Shared.Result.{FieldError, Result, success, field_errors, plain}
use venue_backend.Shared.Time.{DateTime}
use venue_backend.Shared.Text.{is_blank}
use venue_backend.Shared.Values.{Raw}
use venue_backend.Shared.Phone.{BrazilianPhone}
use venue_backend.Shared.Names.{create_email, create_name}
use venue_backend.Bookings.{Role}
use venue_backend.Accounts.User.{
  User, UserInput, is_owner, user_error, role_errors, optional_slug, user_errors, enrol,
  create_user,
}

-- What the aggregate promises: an owner, and nobody else, has a public slug.
abbrev pub HasSlugByRole : User → Type 0
HasSlugByRole u = is_some u.public_slug ≡ is_owner u.role

enrolled :
    (id : ℕ) (now : DateTime) (i : UserInput) (errors : List FieldError)
    → (email name : Result String)
    → (phone : Result (Option BrazilianPhone)) (slug : Result (Option String)) → {u : User}
    → enrol id now i errors email name phone slug ≡ success u
    → (errors ≡ [])
      × (email ≡ success u.email)
      × (name ≡ success u.full_name)
      × (phone ≡ success u.phone)
      × (slug ≡ success u.public_slug)
      × (u.role ≡ i.role)
      × (u.password_hash ≡ i.password_hash)
      × (u.is_active ≡ true)
      × (u.id ≡ id)
enrolled id now i errors email name phone slug h = ground arith

user_errors-nil :
    (i : UserInput) (email name : Result String)
    → (phone : Result (Option BrazilianPhone)) (slug : Result (Option String))
    → user_errors i email name phone slug ≡ []
    → role_errors i.role i.public_slug ≡ []
user_errors-nil i email name phone slug h =
    let (_, e1) = append-eq-nil (field_errors (plain "email") email) _ h in
    let (_, e2) = append-eq-nil (field_errors (plain "full_name") name) _ e1 in
    let (_, e3) =
      append-eq-nil
        (if is_blank i.password_hash
          then user_error "PasswordHashCannotBeEmpty" "password_hash"
          else [])
        _ e2 in
    let (_, e4) = append-eq-nil (field_errors (plain "phone") phone) _ e3 in
    (append-eq-nil (field_errors (plain "public_slug") slug) _ e4).1

role_errors-nil :
    (role : Role) (slug : Option Raw) → role_errors role slug ≡ [] → is_some slug ≡ is_owner role
role_errors-nil role slug h = ground arith

slug_kept :
    (raw : Option Raw) {slug : Option String}
    → optional_slug raw ≡ success slug
    → is_some slug ≡ is_some raw
slug_kept none h = ground arith
slug_kept (some raw) h = ground arith

-- A created user has an accepted e-mail address and name and is active, and has a public slug if and
-- only if the user is an owner.
pub created_user :
    (digit : ℕ → Option ℕ) (id : ℕ) (now : DateTime) (i : UserInput) {u : User}
    → create_user digit id now i ≡ success u
    → HasSlugByRole u
      × (create_email i.email ≡ success u.email)
      × (create_name i.full_name ≡ success u.full_name)
      × (optional_slug i.public_slug ≡ success u.public_slug)
      × (u.role ≡ i.role)
      × (u.password_hash ≡ i.password_hash)
      × (u.is_active ≡ true)
      × (u.id ≡ id)
unfolding create_user
created_user digit id now i h =
    let (e, email, name, phone, slug, role, hash, active, same) = enrolled id now i _ _ _ _ _ h in
    let roles = user_errors-nil i _ _ _ _ e in
    (
      rw role (slug_kept i.public_slug slug ∙ role_errors-nil i.role i.public_slug roles),
      email,
      name,
      slug,
      role,
      hash,
      active,
      same,
    )
