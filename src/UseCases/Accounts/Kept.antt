-- ===== src/UseCases/Accounts/Kept.antt =====
-- What registrations, logins and deactivations keep, and what a promotion breaks.
use mathlib.Core.Path.{subst}
use venue_backend.Common.{
  ℕ, ◌==◌, ==_iff, ◌≡◌, refl, ◌⊎◌, inl, inr, Bool, true, false, none, some, List, [], ◌∷◌, ◌++◌,
  is_some, find, Bool-cases, arith, sym, ap, ◌∙◌, Member, Member-append, Member-find,
}
use venue_backend.Shared.Time.{utc}
use venue_backend.Bookings.{owner}
use venue_backend.Subscriptions.{OwnerSubscription, create_trialing}
use venue_backend.Accounts.User.{User, is_owner, change_password_hash, deactivate_user, set_role}
use venue_backend.Accounts.User.Owners.{HasSlugByRole}
use venue_backend.Store.{
  World, done, pure, ◌>>=◌, ◌>>◌, ask, some_or, get_user, get_subscription, revise_user,
  update_user,
}
use venue_backend.Store.Returns.{some_or_then, ask_then}
use venue_backend.UseCases.Accounts.{
  RegisterUserCommand, Enrolment, Hasher, JwtService, TokenPair, LoginCommand, first_subscription,
  register, login, deactivate, promote,
}
use venue_backend.UseCases.Accounts.Registered.{with_owner, with_user, register_accepts}
use venue_backend.UseCases.Accounts.LoggedIn.{after_login, login_accepts}

-- What holds of a user, where `w` holds the subscriptions: an owner, and nobody else, has a public
-- slug, and an owner has a subscription.
pub record IsUser (w : World) (u : User) : Type 0 where
  pub slug : HasSlugByRole u
  pub subscribed : (is_owner u.role ≡ false) ⊎ (is_some (get_subscription u.id w) ≡ true)

-- A predicate that reads of a user only what no login and no deactivation changes.
same-IsUser :
    (w : World) (u v : User)
    → v.id ≡ u.id
    → v.role ≡ u.role
    → v.public_slug ≡ u.public_slug
    → IsUser w u
    → IsUser w v
same-IsUser w u v id role slug i = record {
  slug = rw (slug, role) i.slug;
  subscribed = rw (id, role) i.subscribed;
}

abbrev pub AreUsers : World → Type 0
AreUsers w = (u : User) → Member u w.users → IsUser w u

revised-IsUser :
    (w : World) (x : User) (rows : List User)
    → IsUser w x
    → ((u : User) → Member u rows → IsUser w u)
    → (u : User) → Member u (revise_user x rows)
    → IsUser w u
revised-IsUser w x [] i all u m = elim m [ ]
revised-IsUser w x (y ∷ rows) i all u (inl e) = elim (Bool-cases (y.id == x.id)) [
  | inl hit ↦ subst (IsUser w) (rw hit at e) (same-IsUser w x _ refl refl refl i)
  | inr miss ↦ subst (IsUser w) (rw miss at e) (all y (inl refl))
]
revised-IsUser w x (y ∷ rows) i all u (inr m) = revised-IsUser w x rows i (λ v n. all v (inr n)) u m

-- A row that is set to a user with the id, the role and the slug of an old row.
update-AreUsers :
    (w : World) (old x : User)
    → Member old w.users
    → x.id ≡ old.id
    → x.role ≡ old.role
    → x.public_slug ≡ old.public_slug
    → AreUsers w
    → AreUsers (record w { users = revise_user x w.users })
update-AreUsers w old x row id role slug all u m =
    let i = revised-IsUser w x w.users (same-IsUser w old x id role slug (all old row)) all u m in
    record { slug = i.slug; subscribed = i.subscribed }

after_login-AreUsers :
    (hasher : Hasher) (now : ℕ) (user : User) (w : World)
    → Member user w.users
    → AreUsers w
    → AreUsers (after_login hasher now user w)
unfolding change_password_hash
after_login-AreUsers hasher now user w row all =
    elim (Bool-cases (hasher.needs_rehash user.password_hash)) [
      | inl weak ↦ rw weak (
          update-AreUsers w user (change_password_hash user hasher.hashed (utc now)) row refl refl
            refl all)
      | inr strong ↦ rw strong all
    ]

found_after :
    (p : OwnerSubscription → Bool) (rows : List OwnerSubscription) (s : OwnerSubscription)
    → is_some (find p rows) ≡ true
    → is_some (find p (rows ++ s ∷ [])) ≡ true
found_after p [] s h = cc
found_after p (r ∷ rows) s h = ground (arith, found_after p rows s)

found_last :
    (p : OwnerSubscription → Bool) (rows : List OwnerSubscription) (s : OwnerSubscription)
    → p s ≡ true
    → is_some (find p (rows ++ s ∷ [])) ≡ true
found_last p [] s h = rw h refl
found_last p (r ∷ rows) s h = ground (arith, found_last p rows s h)

with_owner-AreUsers :
    (env : Enrolment) (u : User) (w : World)
    → HasSlugByRole u
    → AreUsers w
    → AreUsers (with_owner env u w)
unfolding create_trialing
with_owner-AreUsers env u w slug all v m = elim (Member-append w.users u v m) [
  | inl old ↦
      let i = all v old in
      record {
        slug = i.slug;
        subscribed = elim i.subscribed [
          | inl free ↦ inl free
          | inr there ↦ inr (found_after (λ s. s.owner_id == v.id) w.subscriptions _ there)
        ];
      }
  | inr e ↦ record {
    slug = rw e slug;
    subscribed = inr (
        found_last (λ s. s.owner_id == v.id) w.subscriptions (first_subscription env u)
          ((==_iff _ _).1 (ap (λ t. t.id) (sym e))));
  }
]

with_user-AreUsers :
    (u : User) (w : World)
    → HasSlugByRole u
    → is_owner u.role ≡ false
    → AreUsers w
    → AreUsers (with_user u w)
with_user-AreUsers u w slug free all v m = elim (Member-append w.users u v m) [
  | inl old ↦ let i = all v old in record { slug = i.slug; subscribed = i.subscribed }
  | inr e ↦ record { slug = rw e slug; subscribed = inl (rw e free) }
]

register-AreUsers :
    (env : Enrolment) (cmd : RegisterUserCommand) (w w' : World) (u : User)
    → AreUsers w
    → register env cmd w ≡ done u w'
    → AreUsers w'
register-AreUsers env cmd w w' u all h =
    let (can, left) = register_accepts env cmd w w' u h in
    elim (Bool-cases (is_owner cmd.role)) [
      | inl owning ↦ rw (left, owning) (with_owner-AreUsers env u w can.by_role all)
      | inr free ↦
          rw (left, free)
            (with_user-AreUsers u w can.by_role (ap is_owner can.same_role ∙ free) all)
    ]

update_last :
    (x : User) (w : World) {u : User} {w' : World}
    → (update_user x >> pure x) w ≡ done u w'
    → (u ≡ x) × (w' ≡ record w { users = revise_user x w.users })
unfolding ◌>>=◌ update_user pure
update_last x w h = ground arith

-- What a deactivation that returns has done.
deactivate_writes :
    (id now : ℕ) (w w' : World) (u : User)
    → deactivate id now w ≡ done u w'
    → (old : User) × (get_user id w ≡ some old)
      × (w' ≡ record w { users = revise_user (deactivate_user old (utc now)) w.users })
unfolding deactivate
deactivate_writes id now w w' u h =
    let (old, found, h1) = some_or_then w _ _ _ (ask_then w _ _ h) in
    (old, found, (update_last (deactivate_user old (utc now)) w h1).1)

-- The runs of registrations, logins and deactivations that return, in any order.
pub data Accounting (w : World) : World → Type 0 where
  begin : Accounting w w
  registered :
      {u v : World} (env : Enrolment) (cmd : RegisterUserCommand) (x : User)
      → Accounting w u
      → register env cmd u ≡ done x v
      → Accounting w v
  logged_in :
      {u v : World} (hasher : Hasher) (jwt : JwtService) (now : ℕ) (cmd : LoginCommand)
      (pair : TokenPair) (x : User)
      → Accounting w u
      → login hasher jwt now cmd u ≡ done (pair, x) v
      → Accounting w v
  deactivated :
      {u v : World} (id now : ℕ) (x : User)
      → Accounting w u
      → deactivate id now u ≡ done x v
      → Accounting w v

-- Whatever users register, log in and are deactivated, an owner and nobody else has a public slug, and
-- every owner has a subscription, if this held at the start.
pub accounts_keep_owners : {w w' : World} → AreUsers w → Accounting w w' → AreUsers w'
unfolding deactivate_user
accounts_keep_owners all begin = all
accounts_keep_owners all (registered {u} {v} env cmd x run h) =
    register-AreUsers env cmd u v x (accounts_keep_owners all run) h
accounts_keep_owners all (logged_in {u} {v} hasher jwt now cmd pair x run h) =
    let (user, found, _, _, _, _, left) = login_accepts hasher jwt now cmd u v pair x h in
    rw left (
      after_login-AreUsers hasher now user u ((Member-find _ u.users user found).0)
        (accounts_keep_owners all run))
accounts_keep_owners all (deactivated {u} {v} id now x run h) =
    let (old, found, left) = deactivate_writes id now u v x h in
    rw left (
      update-AreUsers u old (deactivate_user old (utc now)) ((Member-find _ u.users old found).0)
        refl refl refl (accounts_keep_owners all run))

-- A promotion to owner of a user who has no public slug is accepted, and writes an owner without a
-- public slug: the role and the slug of the row no longer agree.
pub promote_without_slug :
    (id now : ℕ) (w : World) (user : User)
    → get_user id w ≡ some user
    → user.public_slug ≡ none
    → (u : User) × (promote id owner now w ≡ done u (record w { users = revise_user u w.users }))
      × (is_owner u.role ≡ true)
      × (is_some u.public_slug ≡ false)
unfolding promote ◌>>=◌ update_user set_role ask some_or pure
promote_without_slug id now w user found bare =
    let same : user.id ≡ id = (==_iff _ _).0 (Member-find (λ u. u.id == id) w.users user found).1 in
    let row : is_some (get_user user.id w) ≡ true = rw same (rw found refl) in
    (set_role user owner (utc now), rw (found, row) refl, refl, rw bare refl)
