-- ===== src/Resources/Rules/Exact.antt =====
-- The validation of the pricing rules is exact, and what it accepts has at most one rule for any
-- weekday and time of day.
use mathlib.Core.Bool.{false≢true}
use venue_backend.Common.{
  append-eq-nil, ℕ, ◌+◌, ◌≡◌, refl, Bool, true, false, not, some, List, [], ◌∷◌, ◌++◌, arith, All,
  In, any, find, Bool-cases, inl, inr, ap, ◌∙◌, sym, ◌↔◌,
}
use venue_backend.Shared.Time.{Weekday, same_day, same_day_eq}
use venue_backend.Resources.Schedule.{WeeklySchedule, is_aligned}
use venue_backend.Resources.Rules.{
  PricingRule, covers_day, is_contained, clash, rule_errors, validate_from, validate_pricing_rules,
  matches,
}

-- The rule's window lies on the slot grid, and within the operating hours on each of its weekdays.
abbrev pub IsPlaced : ℕ → WeeklySchedule → PricingRule → Type 0
IsPlaced slot hours rule =
    (is_aligned slot rule.window ≡ true)
    × All (λ wd. is_contained hours rule.window wd ≡ true) rule.weekdays

-- No two rules clash: each with all before it.
abbrev pub NoClash : List PricingRule → List PricingRule → Type 0
NoClash prevs [] = Unit
NoClash prevs (rule ∷ rules) =
    All (λ prev. clash rule prev ≡ false) prevs × NoClash (prevs ++ rule ∷ []) rules

-- What the aggregate promises of its rules.
abbrev pub AreRules : ℕ → WeeklySchedule → List PricingRule → Type 0
AreRules slot hours rules = All (IsPlaced slot hours) rules × NoClash [] rules

any-false {ℓ} :
    {A : Type ℓ} (p : A → Bool) (xs : List A) → any p xs ≡ false → All (λ x. p x ≡ false) xs
any-false p [] h = tt
any-false p (x ∷ xs) h = (ground arith, any-false p xs (ground arith))

false-any {ℓ} :
    {A : Type ℓ} (p : A → Bool) (xs : List A) → All (λ x. p x ≡ false) xs → any p xs ≡ false
false-any p [] h = refl
false-any p (x ∷ xs) h = rw (h.0, false-any p xs h.1)

All-not {ℓ} :
    {A : Type ℓ} (p : A → Bool) (xs : List A)
    → All (λ x. not (p x) ≡ false) xs
    → All (λ x. p x ≡ true) xs
All-not p [] h = tt
All-not p (x ∷ xs) h = (ground (arith, h.0), All-not p xs h.1)

not-All {ℓ} :
    {A : Type ℓ} (p : A → Bool) (xs : List A)
    → All (λ x. p x ≡ true) xs
    → All (λ x. not (p x) ≡ false) xs
not-All p [] h = tt
not-All p (x ∷ xs) h = (ground (arith, h.0), not-All p xs h.1)

module _ (slot : ℕ) (hours : WeeklySchedule) where
  abbrev outside : PricingRule → Weekday → Bool
  outside rule wd = not (is_contained hours rule.window wd)

  rule_errors-nil :
      (idx : ℕ) (prevs : List PricingRule) (rule : PricingRule)
      → rule_errors slot hours idx prevs rule ≡ []
      → (is_aligned slot rule.window ≡ true)
        × (any (outside rule) rule.weekdays ≡ false)
        × (any (clash rule) prevs ≡ false)
  unfolding rule_errors
  rule_errors-nil idx prevs rule h = ground arith

  nil-rule_errors :
      (idx : ℕ) (prevs : List PricingRule) (rule : PricingRule)
      → is_aligned slot rule.window ≡ true
      → any (outside rule) rule.weekdays ≡ false
      → any (clash rule) prevs ≡ false
      → rule_errors slot hours idx prevs rule ≡ []
  unfolding rule_errors
  nil-rule_errors idx prevs rule a o c = rw (a, o, c)

  validate_sound :
      (idx : ℕ) (prevs rules : List PricingRule)
      → validate_from slot hours idx prevs rules ≡ []
      → All (IsPlaced slot hours) rules × NoClash prevs rules
  unfolding validate_from
  validate_sound idx prevs [] h = (tt, tt)
  validate_sound idx prevs (rule ∷ rules) h =
      let (here, rest) = append-eq-nil (rule_errors slot hours idx prevs rule) _ h in
      let (a, o, c) = rule_errors-nil idx prevs rule here in
      let (placed, apart) = validate_sound (idx + 1) (prevs ++ rule ∷ []) rules rest in
      (
        (
          (a, All-not (is_contained hours rule.window) rule.weekdays (any-false _ rule.weekdays o)),
          placed,
        ),
        (any-false (clash rule) prevs c, apart),
      )

  validate_complete :
      (idx : ℕ) (prevs rules : List PricingRule)
      → All (IsPlaced slot hours) rules
      → NoClash prevs rules
      → validate_from slot hours idx prevs rules ≡ []
  unfolding validate_from
  validate_complete idx prevs [] p n = refl
  validate_complete idx prevs (rule ∷ rules) p n =
      let o =
        false-any (outside rule) rule.weekdays
          (not-All (is_contained hours rule.window) rule.weekdays p.0.1) in
      rw (
        nil-rule_errors idx prevs rule p.0.0 o (false-any (clash rule) prevs n.0),
        validate_complete (idx + 1) (prevs ++ rule ∷ []) rules p.1 n.1,
      )

  -- `_validate_pricing_rules` finds no error exactly when every rule is aligned to the slot grid and
  -- within the operating hours on each of its weekdays, and no two rules clash.
  pub validate_pricing_rules_exact :
      (rules : List PricingRule)
      → (validate_pricing_rules slot hours rules ≡ []) ↔ AreRules slot hours rules
  unfolding validate_pricing_rules
  validate_pricing_rules_exact rules =
      (validate_sound 0 [] rules, λ h. validate_complete 0 [] rules h.0 h.1)

shared_day :
    (wd : Weekday) (theirs ours : List Weekday)
    → covers_day wd theirs ≡ true
    → covers_day wd ours ≡ true
    → any (λ d. covers_day d theirs) ours ≡ true
shared_day wd theirs [] ha hb = cc
shared_day wd theirs (b ∷ ours) ha hb = elim (Bool-cases (same_day wd b)) [
  | inl same ↦ rw (← same_day_eq wd b same, ha)
  | inr other ↦
      ground (arith, shared_day wd theirs ours ha (ground arith), Bool-cases (covers_day b theirs))
]

both_match :
    (wd : Weekday) (tod : ℕ) (rule prev : PricingRule)
    → matches wd tod rule ≡ true
    → matches wd tod prev ≡ true
    → clash rule prev ≡ true
both_match wd tod rule prev h k =
    ground (arith, shared_day wd prev.weekdays rule.weekdays (ground arith) (ground arith))

All-append_left {ℓ} :
    {A : Type ℓ} (P : A → Type 0) (xs : List A) (y : A) → All P (xs ++ y ∷ []) → All P xs × P y
All-append_left P [] y h = (tt, h.0)
All-append_left P (x ∷ xs) y h =
    let (rest, last) = All-append_left P xs y h.1 in ((h.0, rest), last)

-- A rule does not clash with those before its list.
later_rule :
    (prevs rules : List PricingRule) (rule : PricingRule)
    → NoClash prevs rules
    → In (λ r. r ≡ rule) rules
    → All (λ prev. clash rule prev ≡ false) prevs
later_rule prevs [] rule n m = elim m [ ]
later_rule prevs (r ∷ rs) rule n (inl e) = rw (← e) n.0
later_rule prevs (r ∷ rs) rule n (inr m) =
    (All-append_left _ prevs r (later_rule (prevs ++ r ∷ []) rs rule n.1 m)).0

-- Among rules that do not clash, the first that matches is the only one: whichever rule matches a
-- weekday and a time of day is the one that the scan finds, wherever it stands in the list.
pub find_matching :
    (prevs rules : List PricingRule) (rule : PricingRule) (wd : Weekday) (tod : ℕ)
    → NoClash prevs rules
    → In (λ r. r ≡ rule) rules
    → matches wd tod rule ≡ true
    → find (matches wd tod) rules ≡ some rule
find_matching prevs [] rule wd tod n m h = elim m [ ]
find_matching prevs (r ∷ rs) rule wd tod n (inl e) h =
    let here : matches wd tod r ≡ true = ap (matches wd tod) e ∙ h in rw here (ap some e)
find_matching prevs (r ∷ rs) rule wd tod n (inr m) h =
    let apart = (All-append_left _ prevs r (later_rule (prevs ++ r ∷ []) rs rule n.1 m)).1 in
    elim (Bool-cases (matches wd tod r)) [
      | inl both ↦ absurd (false≢true (sym apart ∙ both_match wd tod rule r h both))
      | inr other ↦ rw other (find_matching (prevs ++ r ∷ []) rs rule wd tod n.1 m h)
    ]
