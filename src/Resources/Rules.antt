-- ===== src/Resources/Rules.antt =====
-- pricing_rule.py, and `Resource._validate_pricing_rules` of resource.py.
pub mod Exact
use venue_backend.Common.{
  ℕ, ◌+◌, String, Bool, true, false, not, ◌&&◌, ◌||◌, none, List, [], ◌∷◌, ◌++◌, ltb, leb,
  if◌then◌else◌, any, is_empty,
}
use venue_backend.Shared.Result.{Field, indexed, FieldError, Result, success}
use venue_backend.Shared.Time.{Weekday, same_day}
use venue_backend.Shared.Values.{fail_with, Money, TimeWindow, in_window}
use venue_backend.Resources.Schedule.{WeeklySchedule, for_weekday, is_aligned}

-- `weekdays` is a `frozenset`: only membership, emptiness and "is there a member that" are asked
-- of it, which do not depend on the order of this list.
pub record PricingRule : Type 0 where
  pub weekdays : List Weekday
  pub window : TimeWindow
  pub price : Money

-- `PricingRule.create`
unfoldable pub create_rule : List Weekday → TimeWindow → Money → Result PricingRule
create_rule [] window price = fail_with "PricingRuleEmptyWeekdays"
create_rule (wd ∷ wds) window price =
    success (record { weekdays = wd ∷ wds; window = window; price = price })

-- `wd in rule.weekdays`
abbrev pub covers_day : Weekday → List Weekday → Bool
covers_day wd wds = any (same_day wd) wds

-- Some operating window of the weekday contains the rule's window.
abbrev pub is_contained : WeeklySchedule → TimeWindow → Weekday → Bool
is_contained hours w wd =
    any (λ op. leb op.start w.start && leb w.end op.end) (for_weekday hours wd)

-- A shared weekday, and the half-open intersection of the windows.
abbrev pub clash : PricingRule → PricingRule → Bool
clash rule prev =
    any (λ wd. covers_day wd prev.weekdays) rule.weekdays
    && (ltb rule.window.start prev.window.end && ltb prev.window.start rule.window.end)

abbrev rule_error : String → ℕ → List FieldError
rule_error code idx = record { code = code; field = indexed "pricing_rules" idx } ∷ []

-- The checks of one rule, `prevs` the rules before it. The two inner loops stop at the first error.
unfoldable pub rule_errors :
    ℕ → WeeklySchedule → ℕ → List PricingRule → PricingRule → List FieldError
rule_errors slot hours idx prevs rule =
    (if is_aligned slot rule.window then [] else rule_error "PricingRuleNotAlignedToSlotGrid" idx)
    ++ ((if any (λ wd. not (is_contained hours rule.window wd)) rule.weekdays
          then rule_error "PricingRuleOutsideOperatingHours" idx
          else [])
        ++ (if any (clash rule) prevs then rule_error "PricingRulesOverlap" idx else []))

validate_from : ℕ → WeeklySchedule → ℕ → List PricingRule → List PricingRule → List FieldError
unfolding rule_errors
validate_from slot hours idx prevs [] = []
validate_from slot hours idx prevs (rule ∷ rules) =
    rule_errors slot hours idx prevs rule
    ++ validate_from slot hours (idx + 1) (prevs ++ rule ∷ []) rules

-- `Resource._validate_pricing_rules`
unfoldable pub validate_pricing_rules : ℕ → WeeklySchedule → List PricingRule → List FieldError
unfolding validate_from
validate_pricing_rules slot hours rules = validate_from slot hours 0 [] rules

-- `wd_local in rule.weekdays` and `rule.window.start <= tod < rule.window.end`
abbrev pub matches : Weekday → ℕ → PricingRule → Bool
matches wd tod rule = covers_day wd rule.weekdays && in_window tod rule.window
