-- ===== src/UseCases/Accounts.antt =====
-- The handlers of app/use_cases/accounts/commands. The `UserDto` that they return is the user.
pub mod Registered
pub mod LoggedIn
pub mod Kept
use Prim.Native.String
use venue_backend.Common.{
  ℕ, String, Bool, true, false, not, Option, none, some, List, [], ◌∷◌, leb, is_some, find,
  if◌then◌else◌,
}
use venue_backend.Shared.Result.{Result, failure, with_status, from_failure}
use venue_backend.Shared.Time.{DateTime, utc}
use venue_backend.Shared.Text.{size}
use venue_backend.Shared.Values.{Raw, null, text}
use venue_backend.Bookings.{Role, owner}
use venue_backend.Subscriptions.{OwnerSubscription, create_trialing}
use venue_backend.Accounts.User.{
  User, UserInput, is_owner, is_self_registerable, create_user, change_password_hash, set_role,
  deactivate_user,
}
use venue_backend.Accounts.Slugify.{slugify}
use venue_backend.Store.{
  World, Outcome, done, fail, raised, Action, pure, ◌>>=◌, ◌>>◌, ask, error, some_or, ensure, lift,
  success_or, get_user, get_by_email, get_by_public_slug, add_user, add_owner, update_user,
}

pub record RegisterUserCommand : Type 0 where
  pub email : String
  pub password : String
  pub role : Role
  pub full_name : String
  pub phone : Option String

-- What a registration takes from outside the program: the ids of `uuid4()`, what the hasher made of
-- the password, the ASCII form of the name, the random part of a slug, the table of the digits, three
-- readings of the clock, and `config.trial_duration_days`.
pub record Enrolment : Type 0 where
  pub user_id : ℕ
  pub subscription_id : ℕ
  pub password_hash : String
  pub ascii_name : String
  pub hex : String
  pub digit : ℕ → Option ℕ
  pub created : ℕ
  pub trial_from : ℕ
  pub subscribed : ℕ
  pub trial_duration_days : ℕ

-- The texts that the loop over `MAX_SLUG_RETRIES` tries: `f"{base}-{attempt + 2}"` after the first.
abbrev pub candidates : String → List String
candidates base =
    base
    ∷ String.◌++◌ base "-2"
    ∷ String.◌++◌ base "-3"
    ∷ String.◌++◌ base "-4"
    ∷ String.◌++◌ base "-5"
    ∷ []

-- The first candidate that no user has.
abbrev pub free_slug : List String → World → Option String
free_slug slugs w = find (λ slug. not (is_some (get_by_public_slug slug w))) slugs

-- The public slug of an owner; nobody else has one.
unfoldable pub choose_slug : Enrolment → Bool → Action (Option Raw)
choose_slug env false = pure none
choose_slug env true = do
  found ← ask (free_slug (candidates (slugify env.ascii_name env.hex)))
  slug ← some_or (error "PublicSlugAlreadyTaken" 409) found
  pure (some (text slug))

abbrev pub raw_phone : Option String → Raw
raw_phone none = null
raw_phone (some s) = text s

abbrev pub user_input : Enrolment → RegisterUserCommand → Option Raw → UserInput
user_input env cmd slug = record {
  email = text cmd.email;
  password_hash = env.password_hash;
  role = cmd.role;
  full_name = text cmd.full_name;
  phone = raw_phone cmd.phone;
  public_slug = slug;
}

-- The subscription that a new owner gets.
abbrev pub first_subscription : Enrolment → User → OwnerSubscription
first_subscription env user =
    create_trialing env.subscription_id user.id env.trial_duration_days (utc env.trial_from)
      (utc env.subscribed)

-- `Result.from_failure(add_r, status_code=500)`
abbrev pub fail_status : ℕ → Outcome (Unit {0}) → Outcome (Unit {0})
fail_status status (done u w) = done u w
fail_status status (fail e w) = fail (from_failure (some status) e) w
fail_status status raised = raised

unfoldable pub save_user : Enrolment → User → Bool → Action (Unit {0})
save_user env user true w = fail_status 500 (add_owner user (first_subscription env user) w)
save_user env user false w = add_user user w

-- `RegisterUserHandler.handle`
unfoldable pub register : Enrolment → RegisterUserCommand → Action User
register env cmd = do
  ensure (is_self_registerable cmd.role) (error "AdminRegistrationForbidden" 403)
  ensure (leb 8 (size cmd.password)) (error "PasswordTooShort" 422)
  existing ← ask (get_by_email cmd.email)
  ensure (not (is_some existing)) (error "EmailAlreadyRegistered" 409)
  slug ← choose_slug env (is_owner cmd.role)
  user ← lift (
      with_status 422
        (create_user env.digit env.user_id (utc env.created) (user_input env cmd slug)))
  save_user env user (is_owner user.role)
  pure user

-- What the handlers use of a password hasher and of a service of tokens; `hashed` is what `hash` makes
-- of the password, with a fresh salt, at this call.
pub record Hasher : Type 0 where
  pub hashed : String
  pub verify : String → String → Bool
  pub needs_rehash : String → Bool

pub record TokenPair : Type 0 where
  pub access_token : String
  pub refresh_token : String

-- `TokenClaims`; the role of the claims is not read by the handlers of this module.
pub record TokenClaims : Type 0 where
  pub user_id : ℕ
  pub is_refresh : Bool

pub record JwtService : Type 0 where
  pub issue_pair : ℕ → Role → TokenPair
  pub decode : String → Result TokenClaims

pub record LoginCommand : Type 0 where
  pub email : String
  pub password : String

-- `if self._hasher.needs_rehash(...)`: the user with a new hash, written, or the user.
unfoldable pub rehashed : Hasher → ℕ → User → Bool → Action User
rehashed hasher now user true = do
  let strong = change_password_hash user hasher.hashed (utc now)
  update_user strong
  pure strong
rehashed hasher now user false = pure user

-- `LoginHandler.handle`
unfoldable pub login : Hasher → JwtService → ℕ → LoginCommand → Action (TokenPair × User)
login hasher jwt now cmd = do
  user ← some_or (error "Email ou senha inválidos." 401) (← ask (get_by_email cmd.email))
  ensure (hasher.verify cmd.password user.password_hash) (error "Email ou senha inválidos." 401)
  ensure user.is_active (error "Conta desativada. Contate um administrador." 403)
  kept ← rehashed hasher now user (hasher.needs_rehash user.password_hash)
  pure (jwt.issue_pair kept.id kept.role, kept)

-- `RefreshTokenHandler.handle`: the code of a failed `decode` is kept, with the status 401.
unfoldable pub refresh : JwtService → String → Action (TokenPair × User)
refresh jwt token = do
  claims ← lift (with_status 401 (jwt.decode token))
  ensure claims.is_refresh (error "Token de acesso não pode ser usado para refresh." 401)
  user ← some_or (error "Usuário não encontrado." 401) (← ask (get_user claims.user_id))
  ensure user.is_active (error "Conta desativada. Faça login novamente." 403)
  pure (jwt.issue_pair user.id user.role, user)

-- `PromoteUserRoleHandler.handle`
unfoldable pub promote : ℕ → Role → ℕ → Action User
promote user_id new_role now = do
  user ← some_or (error "Usuário não encontrado." 404) (← ask (get_user user_id))
  let promoted = set_role user new_role (utc now)
  update_user promoted
  pure promoted

-- `DeactivateUserHandler.handle`
unfoldable pub deactivate : ℕ → ℕ → Action User
deactivate user_id now = do
  user ← some_or (error "Usuário não encontrado." 404) (← ask (get_user user_id))
  let closed = deactivate_user user (utc now)
  update_user closed
  pure closed
