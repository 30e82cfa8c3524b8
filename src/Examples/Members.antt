-- ===== src/Examples/Members.antt =====
-- The theorems about accounts, on concrete tables.
use venue_backend.Common.{◌≡◌, refl, true, false, none, some, [], ◌∷◌, is_some}
use venue_backend.Shared.Result.{failure, failed}
use venue_backend.Shared.Time.{utc}
use venue_backend.Shared.Text.{strip}
use venue_backend.Shared.Text.Case.{lower}
use venue_backend.Shared.Names.{
  create_name, create_email, create_slug, create_if_not_empty, has_double_dash,
}
use venue_backend.Bookings.{owner, customer}
use venue_backend.Subscriptions.{create_trialing}
use venue_backend.Accounts.User.{User, is_owner, create_user, change_password_hash}
use venue_backend.Accounts.Slugify.{slugify}
use venue_backend.Store.{
  World, done, ◌>>=◌, pure, ask, some_or, ensure, lift, add_user, add_owner, update_user,
  get_by_email, revise_user,
}
use venue_backend.UseCases.Accounts.{
  RegisterUserCommand, Enrolment, choose_slug, save_user, register, Hasher, TokenPair, JwtService,
  LoginCommand, rehashed, login, promote,
}
use venue_backend.UseCases.Accounts.Registered.{CanRegister, with_owner, register_accepts}
use venue_backend.UseCases.Accounts.LoggedIn.{logged_user, after_login, login_accepts}
use venue_backend.UseCases.Accounts.Kept.{
  AreUsers, begin, registered, logged_in, accounts_keep_owners, promote_without_slug,
}
use venue_backend.Examples.{world_of, ascii_digit}

abbrev env : Enrolment
env = record {
  user_id = 9;
  subscription_id = 3;
  password_hash = "#secret12";
  ascii_name = "Ana Lima";
  hex = "0a1b2c3d";
  digit = ascii_digit;
  created = 1;
  trial_from = 2;
  subscribed = 3;
  trial_duration_days = 14;
}

abbrev ana_registers : RegisterUserCommand
ana_registers = record {
  email = "ana@a.br";
  password = "secret12";
  role = owner;
  full_name = " Ana Lima";
  phone = none;
}

abbrev nobody : World
nobody = record (world_of []) { subscriptions = [] }

abbrev ana : User
ana = record {
  id = 9;
  email = "ana@a.br";
  password_hash = "#secret12";
  role = owner;
  full_name = "Ana Lima";
  phone = none;
  is_active = true;
  public_slug = some "ana-lima";
  created_at = utc 1;
  updated_at = utc 1;
}

abbrev with_ana : World
with_ana = with_owner env ana nobody

ana_run : register env ana_registers nobody ≡ done ana with_ana
unfolding register ◌>>=◌ pure ask some_or ensure lift choose_slug save_user add_user add_owner
    create_user create_email create_name create_slug create_if_not_empty has_double_dash strip lower
    slugify create_trialing
ana_run = refl

register_accepts_example :
    CanRegister env ana_registers nobody ana × (with_ana ≡ with_owner env ana nobody)
register_accepts_example = register_accepts env ana_registers nobody with_ana ana ana_run

abbrev hasher : Hasher
hasher = record {
  hashed = "##secret12";
  verify = λ password hash. true;
  needs_rehash = λ hash. true;
}

abbrev jwt : JwtService
jwt = record {
  issue_pair = λ id role. record { access_token = "a"; refresh_token = "r" };
  decode = λ token. failed (failure "InvalidToken" none);
}

abbrev ana_logs_in : LoginCommand
ana_logs_in = record { email = "ana@a.br"; password = "secret12" }

abbrev pair : TokenPair
pair = record { access_token = "a"; refresh_token = "r" }

login_run :
    login hasher jwt 8 ana_logs_in with_ana
    ≡ done (pair, logged_user hasher 8 ana) (after_login hasher 8 ana with_ana)
unfolding login rehashed ◌>>=◌ pure ask some_or ensure update_user change_password_hash
    create_trialing strip lower
login_run = refl

login_accepts_example :
    (user : User) × (get_by_email "ana@a.br" with_ana ≡ some user)
    × (hasher.verify "secret12" user.password_hash ≡ true)
    × (user.is_active ≡ true)
    × (logged_user hasher 8 ana ≡ logged_user hasher 8 user)
    × (pair ≡ jwt.issue_pair (logged_user hasher 8 ana).id (logged_user hasher 8 ana).role)
    × (after_login hasher 8 ana with_ana ≡ after_login hasher 8 user with_ana)
login_accepts_example =
    login_accepts hasher jwt 8 ana_logs_in with_ana (after_login hasher 8 ana with_ana) pair
      (logged_user hasher 8 ana) login_run

nobody-AreUsers : AreUsers nobody
nobody-AreUsers u m = elim m [ ]

accounts_keep_owners_example : AreUsers (after_login hasher 8 ana with_ana)
accounts_keep_owners_example = accounts_keep_owners nobody-AreUsers (
    logged_in hasher jwt 8 ana_logs_in pair (logged_user hasher 8 ana)
      (registered env ana_registers ana begin ana_run) login_run)

-- A customer, who is promoted.
abbrev leo : User
leo = record ana { id = 7; email = "leo@a.br"; role = customer; public_slug = none }

abbrev with_leo : World
with_leo = record nobody { users = leo ∷ [] }

promote_without_slug_example :
    (u : User) × (promote 7 owner 20 with_leo
      ≡ done u (record with_leo { users = revise_user u (leo ∷ []) }))
    × (is_owner u.role ≡ true)
    × (is_some u.public_slug ≡ false)
promote_without_slug_example = promote_without_slug 7 20 with_leo leo refl refl
