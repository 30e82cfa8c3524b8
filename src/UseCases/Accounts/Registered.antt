-- ===== src/UseCases/Accounts/Registered.antt =====
-- What a registration that is accepted has found, and what it leaves.
use venue_backend.Common.{
  ◌≤◌, ◌≡◌, refl, Bool, true, false, not, Option, none, some, [], ◌∷◌, ◌++◌, is_some, any, leb→le,
  arith, sym, ap, if◌then◌else◌,
}
use venue_backend.Shared.Result.{success, with_status, with_status-eq-success}
use venue_backend.Shared.Time.{utc}
use venue_backend.Shared.Text.{size}
use venue_backend.Shared.Values.{Raw, text}
use venue_backend.Shared.Names.{create_email}
use venue_backend.Accounts.User.{User, is_owner, is_self_registerable, create_user}
use venue_backend.Accounts.User.Owners.{HasSlugByRole, created_user}
use venue_backend.Store.{
  World, done, pure, ◌>>=◌, ◌>>◌, get_by_email, same_user, add_user, ask, some_or, lift, add_owner,
}
use venue_backend.Store.Equations.{>>=-eq-done}
use venue_backend.Store.Returns.{ensure_then, lift_then, ask_then}
use venue_backend.UseCases.Accounts.{
  RegisterUserCommand, Enrolment, choose_slug, user_input, first_subscription, save_user, register,
}

-- The tables after the registration of an owner, and of anybody else.
abbrev pub with_owner : Enrolment → User → World → World
with_owner env u w = record w {
  users = w.users ++ u ∷ [];
  subscriptions = w.subscriptions ++ first_subscription env u ∷ [];
}

abbrev pub with_user : User → World → World
with_user u w = record w { users = w.users ++ u ∷ [] }

save_user_last :
    (env : Enrolment) (x : User) (w : World) (owning : Bool) {u : User} {w' : World}
    → (save_user env x owning >> pure x) w ≡ done u w'
    → (u ≡ x)
      × (any (same_user x) w.users ≡ false)
      × (w' ≡ (if owning then with_owner env x w else with_user x w))
unfolding ◌>>=◌ save_user add_user add_owner pure
save_user_last env x w true h = ground arith
save_user_last env x w false h = ground arith

-- The slug of an owner is the text of a free candidate; the tables are as they were.
chosen :
    (env : Enrolment) (w v : World) (owning : Bool) {slug : Option Raw}
    → choose_slug env owning w ≡ done slug v
    → (v ≡ w) × (is_some slug ≡ owning)
unfolding choose_slug ◌>>=◌ pure ask some_or
chosen env w v true h = ground arith
chosen env w v false h = ground arith

none_of : (o : Option User) → not (is_some o) ≡ true → o ≡ none
none_of none h = refl
none_of (some u) h = cc

-- What the checks of a registration have found, of the user that it has made.
pub record CanRegister (env : Enrolment) (cmd : RegisterUserCommand) (w : World) (u : User)
    : Type 0 where
  pub may_register : is_self_registerable cmd.role ≡ true
  pub is_long : 8 ≤ size cmd.password
  pub is_new : get_by_email cmd.email w ≡ none
  pub is_email : create_email (text cmd.email) ≡ success u.email
  pub by_role : HasSlugByRole u
  pub same_role : u.role ≡ cmd.role
  pub same_hash : u.password_hash ≡ env.password_hash
  pub is_open : u.is_active ≡ true
  pub same_id : u.id ≡ env.user_id
  pub is_single : any (same_user u) w.users ≡ false

-- The part of the handler after the choice of the slug.
enrolling :
    (env : Enrolment) (cmd : RegisterUserCommand) (w w' : World) (u : User) (slug : Option Raw)
    → is_self_registerable cmd.role ≡ true
    → 8 ≤ size cmd.password
    → get_by_email cmd.email w ≡ none
    → ((lift (
            with_status 422
              (create_user env.digit env.user_id (utc env.created) (user_input env cmd slug)))
          >>= λ user. (save_user env user (is_owner user.role) >> pure user))
        w)
      ≡ done u w'
    → CanRegister env cmd w u
      × (w' ≡ (if is_owner cmd.role then with_owner env u w else with_user u w))
enrolling env cmd w w' u slug may long new h =
    let (x, made, h1) = lift_then w _ _ h in
    let (same, single, left) = save_user_last env x w (is_owner x.role) h1 in
    let (by_role, email, name, kept, role, hash, active, id) =
      created_user env.digit env.user_id (utc env.created) (user_input env cmd slug)
        (with_status-eq-success 422 _ made) in
    (
      rw same (record {
        may_register = may;
        is_long = long;
        is_new = new;
        is_email = email;
        by_role = by_role;
        same_role = role;
        same_hash = hash;
        is_open = active;
        same_id = id;
        is_single = single;
      }),
      rw (same, ap is_owner (sym role)) left,
    )

-- A registration is accepted only of an owner or a customer, with a password of 8 characters or more
-- and an e-mail address that no user has. The new user is active, has the role and the hash that were
-- given, and a public slug if and only if an owner; the user is appended to the table, an owner
-- together with a subscription on trial, and nothing else is written.
pub register_accepts :
    (env : Enrolment) (cmd : RegisterUserCommand) (w w' : World) (u : User)
    → register env cmd w ≡ done u w'
    → CanRegister env cmd w u
      × (w' ≡ (if is_owner cmd.role then with_owner env u w else with_user u w))
unfolding register
register_accepts env cmd w w' u h =
    let (may, h1) = ensure_then w _ _ _ h in
    let (long, h2) = ensure_then w _ _ _ h1 in
    let (new, h3) = ensure_then w _ _ _ (ask_then w _ _ h2) in
    let (slug, v, chose, h4) = >>=-eq-done _ _ w h3 in
    let (same, _) = chosen env w v (is_owner cmd.role) chose in
    enrolling env cmd w w' u slug may (leb→le _ _ long) (none_of _ new) (rw same at h4)
