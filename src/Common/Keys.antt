-- ===== src/Common/Keys.antt =====
-- Rows with a primary key: what a loop leaves that updates, one after another, the rows that a query
-- has selected before.
use Prim.Native.Nat.{ℕ}
use mathlib.Core.Path.{◌≡◌, refl, sym, ap, ap₂, ◌∙◌, transport}
use mathlib.Core.Logic.{inl, inr}
use mathlib.Core.Bool.{Bool, true, false}
use mathlib.Core.List.{List, [], ◌∷◌, map, map-map}
use native.Mathlib.Omega.{arith}
use venue_backend.Common.Tests.{if◌then◌else◌, ◌==◌, Bool-cases}
use venue_backend.Common.Lists.{All, select}
use venue_backend.Common.Members.{Member}

module _ {A : Type 0} where
  -- The keys of the rows are distinct.
  abbrev pub AreKeyed : (A → ℕ) → List A → Type 0
  AreKeyed key [] = Unit
  AreKeyed key (x ∷ rows) = All (λ y. (key y == key x) ≡ false) rows × AreKeyed key rows

  pub map_agree :
      (f g : A → A) (rows : List A)
      → ((y : A) → Member y rows → f y ≡ g y)
      → map f rows ≡ map g rows
  map_agree f g [] h = refl
  map_agree f g (x ∷ rows) h =
      ap₂ (λ a l. a ∷ l) (h x (inl refl)) (map_agree f g rows (λ y m. h y (inr m)))

  map_same : (rows : List A) → map (λ y. y) rows ≡ rows
  map_same [] = refl
  map_same (x ∷ rows) = ap (λ l. x ∷ l) (map_same rows)

  All-Member : (P : A → Type 0) (rows : List A) (y : A) → All P rows → Member y rows → P y
  All-Member P [] y h m = elim m [ ]
  All-Member P (x ∷ rows) y h (inl e) = transport (ap P e) h.0
  All-Member P (x ∷ rows) y h (inr m) = All-Member P rows y h.1 m

  All-select : (P : A → Type 0) (p : A → Bool) (rows : List A) → All P rows → All P (select p rows)
  All-select P p [] h = tt
  All-select P p (x ∷ rows) h = elim (Bool-cases (p x)) [
    | inl hit ↦ rw hit (h.0, All-select P p rows h.1)
    | inr miss ↦ rw miss (All-select P p rows h.1)
  ]

-- Each row of `l` in turn writes its columns, by `put`, to the rows with its key.
module _ {A : Type 0} (key : A → ℕ) (put : A → A → A) where
  abbrev pub overwrites : List A → List A → List A
  overwrites [] rows = rows
  overwrites (c ∷ l) rows = overwrites l (map (λ y. if key y == key c then put c y else y) rows)

  -- What becomes of one row.
  abbrev pub written : List A → A → A
  written [] y = y
  written (c ∷ l) y = written l (if key y == key c then put c y else y)

  pub overwrites-map : (l rows : List A) → overwrites l rows ≡ map (written l) rows
  overwrites-map [] rows = sym (map_same rows)
  overwrites-map (c ∷ l) rows = overwrites-map l _ ∙ map-map (written l) _ rows

  pub written_apart : (l : List A) (y : A) → All (λ c. (key c == key y) ≡ false) l → written l y ≡ y
  written_apart [] y h = refl
  written_apart (c ∷ l) y h =
      let other : (key y == key c) ≡ false = ground (arith, h.0) in rw other (written_apart l y h.1)

  module _ (same_key : (c : A) → key (put c c) ≡ key c) where
    pub written-select :
        (p : A → Bool) (rows : List A) (y : A)
        → AreKeyed key rows
        → Member y rows
        → written (select p rows) y ≡ (if p y then put y y else y)
    written-select p [] y h m = elim m [ ]
    written-select p (x ∷ rows) y h (inl e) =
        transport (ap (λ z. written (select p (x ∷ rows)) z ≡ (if p z then put z z else z)) e) head
      where
        apart : All (λ c. (key c == key x) ≡ false) (select p rows)
        apart = All-select (λ z. (key z == key x) ≡ false) p rows h.0

        head : written (select p (x ∷ rows)) x ≡ (if p x then put x x else x)
        head = elim (Bool-cases (p x)) [
          | inl hit ↦
              let here : (key x == key x) ≡ true = ground arith in
              rw hit (
                ap (λ b. written (select p rows) (if b then put x x else x)) here
                ∙ written_apart (select p rows) (put x x) (rw (same_key x) apart))
          | inr miss ↦ rw miss (written_apart (select p rows) x apart)
        ]
    written-select p (x ∷ rows) y h (inr m) =
        let rest = written-select p rows y h.1 m in
        let other : (key y == key x) ≡ false =
          All-Member (λ z. (key z == key x) ≡ false) rows y h.0 m in
        elim (Bool-cases (p x)) [
          | inl hit ↦
              rw hit (ap (λ b. written (select p rows) (if b then put x y else y)) other ∙ rest)
          | inr miss ↦ rw miss rest
        ]

    -- Where the keys are distinct, the updates of the selected rows change those rows, each by its own
    -- update, and no other.
    pub overwrites-select :
        (p : A → Bool) (rows : List A)
        → AreKeyed key rows
        → overwrites (select p rows) rows ≡ map (λ y. if p y then put y y else y) rows
    overwrites-select p rows h =
        overwrites-map (select p rows) rows
        ∙ map_agree (written (select p rows)) _ rows (λ y m. written-select p rows y h m)
