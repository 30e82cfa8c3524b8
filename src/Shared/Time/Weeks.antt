-- ===== src/Shared/Time/Weeks.antt =====
-- app/domain/shared/weekday.py
use venue_backend.Common.{
  ℕ, zero, suc, ◌+◌, ◌/◌, ◌%◌, ◌<◌, ◌≡◌, refl, Bool, Option, none, some, List, [], ◌∷◌, arith, ◌==◌,
}

pub data Weekday : Type 0 where
  monday tuesday wednesday thursday friday saturday sunday : Weekday

-- The members in their order: `for wd in Weekday`.
abbrev pub weekdays : List Weekday
weekdays = monday ∷ tuesday ∷ wednesday ∷ thursday ∷ friday ∷ saturday ∷ sunday ∷ []

-- `_ISO_TO_WEEKDAY` and `Weekday.from_iso`: `none` stands for the `ValueError`.
unfoldable pub from_iso : ℕ → Option Weekday
from_iso (suc zero) = some monday
from_iso (suc (suc zero)) = some tuesday
from_iso (suc (suc (suc zero))) = some wednesday
from_iso (suc (suc (suc (suc zero)))) = some thursday
from_iso (suc (suc (suc (suc (suc zero))))) = some friday
from_iso (suc (suc (suc (suc (suc (suc zero)))))) = some saturday
from_iso (suc (suc (suc (suc (suc (suc (suc zero))))))) = some sunday
from_iso _ = none

-- The position of a member, by which members are compared.
abbrev pub iso : Weekday → ℕ
iso monday = 1
iso tuesday = 2
iso wednesday = 3
iso thursday = 4
iso friday = 5
iso saturday = 6
iso sunday = 7

abbrev pub same_day : Weekday → Weekday → Bool
same_day a b = iso a == iso b

-- The weekday of a day number, counted from a Monday.
abbrev day_of : ℕ → Weekday
day_of zero = monday
day_of (suc zero) = tuesday
day_of (suc (suc zero)) = wednesday
day_of (suc (suc (suc zero))) = thursday
day_of (suc (suc (suc (suc zero)))) = friday
day_of (suc (suc (suc (suc (suc zero))))) = saturday
day_of _ = sunday

-- `Weekday.from_iso(dt.isoweekday())` of a wall-clock reading, which never raises.
unfoldable pub weekday_of : ℕ → Weekday
weekday_of wall = day_of (wall / 86_400_000_000 % 7)

from_iso-day_of : (n : ℕ) → n < 7 → from_iso (n + 1) ≡ some (day_of n)
unfolding from_iso
from_iso-day_of zero h = refl
from_iso-day_of (suc zero) h = refl
from_iso-day_of (suc (suc zero)) h = refl
from_iso-day_of (suc (suc (suc zero))) h = refl
from_iso-day_of (suc (suc (suc (suc zero)))) h = refl
from_iso-day_of (suc (suc (suc (suc (suc zero))))) h = refl
from_iso-day_of (suc (suc (suc (suc (suc (suc zero)))))) h = refl
from_iso-day_of (suc (suc (suc (suc (suc (suc (suc n))))))) h = absurd (omega arith)

-- The look-up in `from_iso` succeeds for every date, with the weekday of that date.
pub from_iso-weekday_of :
    (wall : ℕ) → from_iso (wall / 86_400_000_000 % 7 + 1) ≡ some (weekday_of wall)
unfolding weekday_of
from_iso-weekday_of wall = from_iso-day_of (wall / 86_400_000_000 % 7) (omega arith)

pub from_iso-iso : (day : Weekday) → from_iso (iso day) ≡ some day
unfolding from_iso
from_iso-iso monday = refl
from_iso-iso tuesday = refl
from_iso-iso wednesday = refl
from_iso-iso thursday = refl
from_iso-iso friday = refl
from_iso-iso saturday = refl
from_iso-iso sunday = refl

pub same_day_eq : (a b : Weekday) → same_day a b ≡ Bool.true → a ≡ b
same_day_eq a b h = ground arith
