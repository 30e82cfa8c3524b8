-- ===== src/Shared/Result.antt =====
-- Outcomes as values: app/domain/shared/result.py and field_error.py.
-- A `Result` is either a success with its value or a failure with exactly one of `error` and
-- `details`, which is what `__post_init__` checks; so the three forms are three constructors.
-- The `status_code` of a success is never set by the program and is left out.
use venue_backend.Common.{
  ℕ, String, ◌≡◌, refl, Option, none, some, List, [], ◌∷◌, map, is_empty, if◌then◌else◌, arith,
}

-- `field=f"pricing_rules[{idx}]"` is `indexed "pricing_rules" idx`, and `f"{a}.{b}"` is `within a b`.
pub data Field : Type 0 where
  plain : String → Field
  indexed : String → ℕ → Field
  within : Field → Field → Field

pub record FieldError : Type 0 where
  pub code : String
  pub field : Field

pub data Failure : Type 0 where
  failure : String → Option ℕ → Failure
  failure_many : List FieldError → Option ℕ → Failure

pub data Result (A : Type 0) : Type 0 where
  success : A → Result A
  failed : Failure → Result A

-- `status_code if status_code is not None else other.status_code`
abbrev override : Option ℕ → Option ℕ → Option ℕ
override none old = old
override (some code) old = some code

-- `Result.from_failure(other, status_code=...)`
abbrev pub from_failure : Option ℕ → Failure → Failure
from_failure status (failure code old) = failure code (override status old)
from_failure status (failure_many details old) = failure_many details (override status old)

-- `if r.is_failure: return Result.from_failure(r, status_code=...)`
abbrev pub with_status : {A : Type 0} → ℕ → Result A → Result A
with_status status (success a) = success a
with_status status (failed e) = failed (from_failure (some status) e)

-- `result.value`: `None` for a failure.
abbrev pub value : {A : Type 0} → Result A → Option A
value (success a) = some a
value (failed f) = none

-- `if r.is_failure: errors.append(FieldError(code=r.error, field=...))`
abbrev pub field_errors : {A : Type 0} → Field → Result A → List FieldError
field_errors field (failed (failure code status)) = record { code = code; field = field } ∷ []
field_errors field _ = []

-- `FieldError(code=d.code, field=f"{prefix}.{d.field}") for d in r.details`
abbrev pub nested : {A : Type 0} → Field → Result A → List FieldError
nested prefix (failed (failure_many details status)) =
    map (λ d. record { code = d.code; field = within prefix d.field }) details
nested prefix _ = []

-- `if errors: return Result.failure_many(errors)`
abbrev pub unless_errors : {A : Type 0} → List FieldError → A → Result A
unless_errors errors a = if is_empty errors then success a else failed (failure_many errors none)

infixl 5 ◌>>=◌
abbrev pub ◌>>=◌ : {A B : Type 0} → Result A → (A → Result B) → Result B
success a >>= f = f a
failed e >>= f = failed e

pub >>=-eq-success :
    {A B : Type 0} (m : Result A) (f : A → Result B) {b : B}
    → (m >>= f) ≡ success b
    → (a : A) × (m ≡ success a) × (f a ≡ success b)
>>=-eq-success (success a) f h = (a, refl, h)
>>=-eq-success (failed e) f h = cc

pub with_status-eq-success :
    {A : Type 0} (status : ℕ) (r : Result A) {a : A}
    → with_status status r ≡ success a
    → r ≡ success a
with_status-eq-success status (success b) h = h
with_status-eq-success status (failed e) h = cc

pub unless_errors-eq-success :
    {A : Type 0} (errors : List FieldError) (a : A) {b : A}
    → unless_errors errors a ≡ success b
    → (errors ≡ []) × (b ≡ a)
unless_errors-eq-success errors a h = ground arith
