-- ===== src/UseCases/Accounts/LoggedIn.antt =====
-- Who logs in, and what a refusal tells.
use venue_backend.Common.{
  ℕ, ◌≡◌, refl, sym, ◌∙◌, ◌⊎◌, inl, inr, Bool, true, false, none, some, arith, if◌then◌else◌,
}
use venue_backend.Shared.Time.{utc}
use venue_backend.Accounts.User.{User, change_password_hash}
use venue_backend.Store.{
  World, done, fail, pure, ◌>>=◌, get_by_email, revise_user, update_user, error,
}
use venue_backend.Store.Equations.{>>=-eq-done}
use venue_backend.Store.Returns.{ensure_then, some_or_then, ask_then}
use venue_backend.UseCases.Accounts.{Hasher, JwtService, TokenPair, LoginCommand, rehashed, login}

-- What a login writes: the new hash of the user, where the old one was weak.
abbrev pub after_login : Hasher → ℕ → User → World → World
after_login hasher now user w =
    if hasher.needs_rehash user.password_hash
    then record w {
      users = revise_user (change_password_hash user hasher.hashed (utc now)) w.users;
    }
    else w

abbrev pub logged_user : Hasher → ℕ → User → User
logged_user hasher now user =
    if hasher.needs_rehash user.password_hash
    then change_password_hash user hasher.hashed (utc now)
    else user

rehashed_last :
    (hasher : Hasher) (now : ℕ) (user : User) (weak : Bool) (w v : World) {u : User}
    → rehashed hasher now user weak w ≡ done u v
    → (u ≡ (if weak then change_password_hash user hasher.hashed (utc now) else user))
      × (v ≡ (
          if weak
          then record w {
            users = revise_user (change_password_hash user hasher.hashed (utc now)) w.users;
          }
          else w))
unfolding rehashed ◌>>=◌ update_user pure
rehashed_last hasher now user true w v h = ground arith
rehashed_last hasher now user false w v h = ground arith

issued :
    {A B : Type 0} (a : A) (b : B) (w : World) {x : A} {y : B} {w' : World}
    → pure {A = A × B} (a, b) w ≡ done (x, y) w'
    → (x ≡ a) × (y ≡ b) × (w' ≡ w)
unfolding pure
issued a b w h = ground arith

-- A login is accepted only of an active user with the given e-mail address whose hash the password
-- verifies; the tokens are issued for the id and the role of the user, and nothing is written but a
-- new hash where the old one is weak.
pub login_accepts :
    (hasher : Hasher) (jwt : JwtService) (now : ℕ) (cmd : LoginCommand) (w w' : World)
    (pair : TokenPair) (u : User)
    → login hasher jwt now cmd w ≡ done (pair, u) w'
    → (user : User) × (get_by_email cmd.email w ≡ some user)
      × (hasher.verify cmd.password user.password_hash ≡ true)
      × (user.is_active ≡ true)
      × (u ≡ logged_user hasher now user)
      × (pair ≡ jwt.issue_pair u.id u.role)
      × (w' ≡ after_login hasher now user w)
unfolding login
login_accepts hasher jwt now cmd w w' pair u h =
    let (user, found, h1) = some_or_then w _ _ _ (ask_then w _ _ h) in
    let (verified, h2) = ensure_then w _ _ _ h1 in
    let (enabled, h3) = ensure_then w _ _ _ h2 in
    let (kept, v, hashed, h4) = >>=-eq-done _ _ w h3 in
    let (same, left) =
      rehashed_last hasher now user (hasher.needs_rehash user.password_hash) w v hashed in
    let (p, y, last) = issued (jwt.issue_pair kept.id kept.role) kept v h4 in
    (user, found, verified, enabled, y ∙ same, p ∙ rw (sym y) refl, last ∙ left)

-- An address that no user has, and a password that does not verify, are refused by one and the same
-- failure, and nothing is written.
pub login_refused :
    (hasher : Hasher) (jwt : JwtService) (now : ℕ) (cmd : LoginCommand) (w : World)
    → (get_by_email cmd.email w ≡ none)
      ⊎ ((user : User) × (get_by_email cmd.email w ≡ some user)
          × (hasher.verify cmd.password user.password_hash ≡ false))
    → login hasher jwt now cmd w ≡ fail (error "Email ou senha inválidos." 401) w
unfolding login ◌>>=◌
login_refused hasher jwt now cmd w (inl unknown) = rw unknown refl
login_refused hasher jwt now cmd w (inr (user, found, wrong)) = rw (found, wrong) refl
