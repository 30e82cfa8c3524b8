-- ===== src/Shared/Optional.antt =====
-- Values that are optional arguments of an `update_metadata`, and values that a check has made.
use venue_backend.Common.{String, ◌≡◌, refl, Option, none, some, List, []}
use venue_backend.Shared.Result.{plain, FieldError, Result, success, failed, field_errors}
use venue_backend.Shared.Values.{Raw}

-- `if name is not None: r = ...`: the check of an optional argument.
abbrev pub errors_of : {A : Type 0} → String → (Raw → Result A) → Option Raw → List FieldError
errors_of field create none = []
errors_of field create (some raw) = field_errors (plain field) (create raw)

-- `new_name = r.value`, or the old one.
abbrev pub kept_or : {A : Type 0} → A → Result A → A
kept_or old (success new) = new
kept_or old (failed e) = old

abbrev pub value_or : {A : Type 0} → A → (Raw → Result A) → Option Raw → A
value_or old create none = old
value_or old create (some raw) = kept_or old (create raw)

-- A value that a check has made of some argument.
pub data IsMade {A : Type 0} (create : Raw → Result A) (a : A) : Type 0 where
  made : (raw : Raw) → create raw ≡ success a → IsMade create a

kept_or-IsMade :
    {A : Type 0} (create : Raw → Result A) (raw : Raw) (old : A) (r : Result A)
    → create raw ≡ r
    → IsMade create old
    → IsMade create (kept_or old r)
kept_or-IsMade create raw old (success a) e m = made raw e
kept_or-IsMade create raw old (failed f) e m = m

pub value_or-IsMade :
    {A : Type 0} (create : Raw → Result A) (given : Option Raw) (old : A)
    → IsMade create old
    → IsMade create (value_or old create given)
value_or-IsMade create none old m = m
value_or-IsMade create (some raw) old m = kept_or-IsMade create raw old (create raw) refl m
