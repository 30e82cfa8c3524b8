-- ===== src/Common/Members.antt =====
-- Members of a list after an append and after a replacement, and what a search finds.
use mathlib.Core.Path.{◌≡◌, sym, ap, ◌∙◌}
use mathlib.Core.Logic.{◌⊎◌, inl, inr}
use mathlib.Core.Bool.{Bool, true, false}
use mathlib.Core.Option.{none, some}
use mathlib.Core.List.{List, [], ◌∷◌, ◌++◌, map}
use native.Mathlib.Omega.{arith}
use venue_backend.Common.Tests.{if◌then◌else◌, Bool-cases}
use venue_backend.Common.Lists.{In, find}

module _ {A : Type 0} where
  abbrev pub Member : A → List A → Type 0
  Member x xs = In (λ y. y ≡ x) xs

  pub Member-append : (xs : List A) (b x : A) → Member x (xs ++ b ∷ []) → Member x xs ⊎ (x ≡ b)
  Member-append [] b x (inl e) = inr (sym e)
  Member-append [] b x (inr m) = elim m [ ]
  Member-append (y ∷ xs) b x (inl e) = inl (inl e)
  Member-append (y ∷ xs) b x (inr m) = elim (Member-append xs b x m) [
    | inl old ↦ inl (inr old)
    | inr e ↦ inr e
  ]

  pub Member-map :
      (p : A → Bool) (b : A) (xs : List A) (x : A)
      → Member x (map (λ y. if p y then b else y) xs)
      → (x ≡ b) ⊎ (Member x xs × (p x ≡ false))
  Member-map p b [] x m = elim m [ ]
  Member-map p b (y ∷ xs) x (inl e) = elim (Bool-cases (p y)) [
    | inl hit ↦ inl (sym (rw hit at e))
    | inr miss ↦ let k : y ≡ x = rw miss at e in inr (inl k, ap p (sym k) ∙ miss)
  ]
  Member-map p b (y ∷ xs) x (inr m) = elim (Member-map p b xs x m) [
    | inl e ↦ inl e
    | inr old ↦ inr (inr old.0, old.1)
  ]

  pub Member-find :
      (p : A → Bool) (xs : List A) (x : A) → find p xs ≡ some x → Member x xs × (p x ≡ true)
  Member-find p [] x h = cc
  Member-find p (y ∷ xs) x h = elim (Bool-cases (p y)) [
    | inl hit ↦ let e : y ≡ x = ground arith in (inl e, ap p (sym e) ∙ hit)
    | inr miss ↦ let rest = Member-find p xs x (ground arith) in (inr rest.0, rest.1)
  ]

  pub find-none :
      (p : A → Bool) (xs : List A) (x : A) → find p xs ≡ none → Member x xs → p x ≡ false
  find-none p [] x h m = elim m [ ]
  find-none p (y ∷ xs) x h (inl e) = ap p (sym e) ∙ ground arith
  find-none p (y ∷ xs) x h (inr m) = find-none p xs x (ground (arith, Bool-cases (p y))) m
