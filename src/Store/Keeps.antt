-- ===== src/Store/Keeps.antt =====
-- Invariants of runs, one rule for each way to build a run.
use venue_backend.Common.{◌≡◌, refl, Bool, true, false, Option, none, some}
use venue_backend.Shared.Result.{Failure, Result, success, failed}
use venue_backend.Store.Tables.{World}
use venue_backend.Store.Runs.{
  Outcome, done, fail, raised, Action, pure, ◌>>=◌, ask, some_or, ensure, lift, success_or, try_or,
  meanwhile, follow, try_outcome,
}

-- What holds of the world that a run leaves, if it returns or fails; a raised exception leaves none.
abbrev pub Left : {A : Type 0} → (World → Type 0) → Outcome A → Type 0
Left P (done a w) = P w
Left P (fail e w) = P w
Left P raised = Unit

-- `m` keeps `P`.
pub record Keeps {A : Type 0} (P : World → Type 0) (m : Action A) : Type 0 where
  pub at : (w : World) → P w → Left P (m w)

module _ {P : World → Type 0} where
  pub Keeps-pure : {A : Type 0} (a : A) → Keeps P (pure a)
  unfolding pure
  Keeps-pure a = record { at = λ w h. h }

  pub Keeps-meanwhile : (f : World → World) → ((w : World) → P w → P (f w)) → Keeps P (meanwhile f)
  unfolding meanwhile
  Keeps-meanwhile f k = record { at = k }

  module _ {A B : Type 0} where
    Left-follow :
        (o : Outcome A) (f : A → Action B)
        → Left P o
        → ((a : A) → Keeps P (f a))
        → Left P (follow o f)
    Left-follow (done a w) f h k = (k a).at w h
    Left-follow (fail e w) f h k = h
    Left-follow raised f h k = tt

    pub Keeps-bind :
        (m : Action A) (f : A → Action B)
        → Keeps P m
        → ((a : A) → Keeps P (f a))
        → Keeps P (m >>= f)
    unfolding ◌>>=◌
    Keeps-bind m f km kf = record { at = λ w h. Left-follow (m w) f (km.at w h) kf }

    -- What a query returns may be known from the invariant.
    pub Keeps-ask :
        (Q : A → Type 0) (f : World → A) (k : A → Action B)
        → ((w : World) → P w → Q (f w))
        → ((a : A) → Q a → Keeps P (k a))
        → Keeps P (ask f >>= k)
    unfolding ◌>>=◌
    Keeps-ask Q f k q kk = record { at = λ w h. (kk (f w) (q w h)).at w h }

    pub Keeps-any :
        (f : World → A) (k : A → Action B) → ((a : A) → Keeps P (k a)) → Keeps P (ask f >>= k)
    Keeps-any f k kk = Keeps-ask (λ _. Unit) f k (λ w h. tt) (λ a _. kk a)

    -- The rest of the block may use what the checks before it have found.
    pub Keeps-some_or :
        (e : Failure) (o : Option A) (k : A → Action B)
        → ((a : A) → o ≡ some a → Keeps P (k a))
        → Keeps P (some_or e o >>= k)
    unfolding ◌>>=◌
    Keeps-some_or e none k kk = record { at = λ w h. h }
    Keeps-some_or e (some a) k kk = kk a refl

    pub Keeps-lift :
        (r : Result A) (k : A → Action B)
        → ((a : A) → r ≡ success a → Keeps P (k a))
        → Keeps P (lift r >>= k)
    unfolding ◌>>=◌
    Keeps-lift (failed e) k kk = record { at = λ w h. h }
    Keeps-lift (success a) k kk = kk a refl

    pub Keeps-success_or :
        (e : Failure) (r : Result A) (k : A → Action B)
        → ((a : A) → r ≡ success a → Keeps P (k a))
        → Keeps P (success_or e r >>= k)
    unfolding ◌>>=◌
    Keeps-success_or e (failed _) k kk = record { at = λ w h. h }
    Keeps-success_or e (success a) k kk = kk a refl

    Left-try :
        (o : Outcome A) (b : B) (f : A → Action B)
        → Left P o
        → ((a : A) → Keeps P (f a))
        → Left P (try_outcome o b f)
    Left-try (done a w) b f h k = (k a).at w h
    Left-try (fail e w) b f h k = h
    Left-try raised b f h k = tt

    pub Keeps-try_or :
        (m : Action A) (b : B) (f : A → Action B)
        → Keeps P m
        → ((a : A) → Keeps P (f a))
        → Keeps P (try_or m b f)
    unfolding try_or
    Keeps-try_or m b f km kf = record { at = λ w h. Left-try (m w) b f (km.at w h) kf }

  pub Keeps-ensure :
      {B : Type 0} (c : Bool) (e : Failure) (k : Unit {0} → Action B)
      → (c ≡ true → Keeps P (k tt))
      → Keeps P (ensure c e >>= k)
  unfolding ◌>>=◌
  Keeps-ensure true e k kk = kk refl
  Keeps-ensure false e k kk = record { at = λ w h. h }

-- The same rules for a run from one world, of which more is known.
module _ (P : World → Type 0) {B : Type 0} (w : World) (h : P w) where
  pub Left-ask :
      {A : Type 0} (f : World → A) (k : A → Action B)
      → Left P (k (f w) w)
      → Left P ((ask f >>= k) w)
  unfolding ◌>>=◌
  Left-ask f k l = l

  pub Left-ensure :
      (c : Bool) (e : Failure) (k : Unit {0} → Action B)
      → (c ≡ true → Left P (k tt w))
      → Left P ((ensure c e >>= k) w)
  unfolding ◌>>=◌
  Left-ensure true e k l = l refl
  Left-ensure false e k l = h

  pub Left-some_or :
      {A : Type 0} (e : Failure) (o : Option A) (k : A → Action B)
      → ((a : A) → o ≡ some a → Left P (k a w))
      → Left P ((some_or e o >>= k) w)
  unfolding ◌>>=◌
  Left-some_or e none k l = h
  Left-some_or e (some a) k l = l a refl

  pub Left-lift :
      {A : Type 0} (r : Result A) (k : A → Action B)
      → ((a : A) → r ≡ success a → Left P (k a w))
      → Left P ((lift r >>= k) w)
  unfolding ◌>>=◌
  Left-lift (failed e) k l = h
  Left-lift (success a) k l = l a refl

  pub Left-success_or :
      {A : Type 0} (e : Failure) (r : Result A) (k : A → Action B)
      → ((a : A) → r ≡ success a → Left P (k a w))
      → Left P ((success_or e r >>= k) w)
  unfolding ◌>>=◌
  Left-success_or e (failed x) k l = h
  Left-success_or e (success a) k l = l a refl

-- A part that leaves the invariant, and a rest that keeps it.
pub Left-bind :
    {A B : Type 0} (P : World → Type 0) (m : Action A) (f : A → Action B) (w : World)
    → Left P (m w)
    → ((a : A) → Keeps P (f a))
    → Left P ((m >>= f) w)
unfolding ◌>>=◌
Left-bind P m f w l k = Left-follow (m w) f l k
