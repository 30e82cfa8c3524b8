-- ===== src/Store/Writes.antt =====
-- A loop that updates one row after another, each by the same change: the rows that it leaves, and
-- when none of its updates can fail.
use venue_backend.Common.{
  ◌==◌, ◌≡◌, ◌≢◌, refl, sym, ◌∙◌, Bool, true, false, List, [], ◌∷◌, select, find, ap, is_some,
  is_empty, arith, Bool-cases, All, inl, inr, ◌⊎◌, map, if◌then◌else◌, AreKeyed, overwrites,
  overwrites-select,
}
use venue_backend.Bookings.{Booking, is_pending}
use venue_backend.Store.Tables.{replace}
use venue_backend.Store.Rows.{
  IsRow, IsRow-replace, IsRow-replace_keep, IsRow-select, select-IsRow, find-replace, row_found,
  All-IsRow, select-holds,
}

-- The rows after the updates of `l`, each by `f`.
abbrev pub rewritten : (Booking → Booking) → List Booking → List Booking → List Booking
rewritten f [] rows = rows
rewritten f (c ∷ l) rows = rewritten f l (replace (f c) rows)

module _ (f : Booking → Booking) (same_id : (c : Booking) → (f c).id ≡ c.id) where
  pub rewritten_keep :
      (l rows : List Booking) (x : Booking)
      → All (λ c. x.id ≢ c.id) l
      → IsRow x rows
      → IsRow x (rewritten f l rows)
  rewritten_keep [] rows x d m = m
  rewritten_keep (c ∷ l) rows x d m =
      rewritten_keep l _ x d.1 (IsRow-replace_keep (f c) rows x (λ e. d.0 (e ∙ same_id c)) m)

  -- A row after the loop is the change of a member of the list, or an old row with none of their ids.
  pub rewritten_cases :
      (l rows : List Booking) (x : Booking)
      → IsRow x (rewritten f l rows)
      → ((c : Booking) × IsRow c l × (x ≡ f c)) ⊎ (IsRow x rows × All (λ c. x.id ≢ c.id) l)
  rewritten_cases [] rows x m = inr (m, tt)
  rewritten_cases (c ∷ l) rows x m = elim (rewritten_cases l (replace (f c) rows) x m) [
    | inl (d, at, e) ↦ inl (d, inr at, e)
    | inr (old, apart) ↦ elim (IsRow-replace (f c) rows x old) [
      | inl e ↦ inl (c, inl refl, e)
      | inr (row, ne) ↦ inr (row, (λ e. ne (e ∙ sym (same_id c)), apart))
    ]
  ]

  -- The same where the list is selected from the rows: an old row that is left was not selected.
  pub rewritten-select :
      (p : Booking → Bool) (rows : List Booking) (x : Booking)
      → IsRow x (rewritten f (select p rows) rows)
      → ((c : Booking) × IsRow c rows × (p c ≡ true) × (x ≡ f c)) ⊎ (IsRow x rows × (p x ≡ false))
  rewritten-select p rows x m = elim (rewritten_cases (select p rows) rows x m) [
    | inl (c, at, e) ↦ inl (
      c,
      IsRow-select p rows c at,
      All-IsRow (λ b. p b ≡ true) (select p rows) c (select-holds p rows) at,
      e,
    )
    | inr (old, apart) ↦ elim (Bool-cases (p x)) [
      | inr miss ↦ inr (old, miss)
      | inl hit ↦ absurd (
          All-IsRow (λ c. x.id ≢ c.id) (select p rows) x apart (select-IsRow p rows x hit old) refl)
    ]
  ]

  pub rewritten-overwrites :
      (l rows : List Booking) → rewritten f l rows ≡ overwrites (λ b. b.id) (λ c y. f c) l rows
  rewritten-overwrites [] rows = refl
  rewritten-overwrites (c ∷ l) rows =
      rewritten-overwrites l _
      ∙ ap
          (λ i.
            overwrites (λ b. b.id) (λ c y. f c) l (map (λ y. if y.id == i then f c else y) rows))
          (same_id c)

  -- Where the ids are distinct, the loop changes the rows that satisfy the test, and no other.
  pub rewritten-map :
      (p : Booking → Bool) (rows : List Booking)
      → AreKeyed (λ b. b.id) rows
      → rewritten f (select p rows) rows ≡ map (λ b. if p b then f b else b) rows
  rewritten-map p rows keyed =
      rewritten-overwrites (select p rows) rows
      ∙ overwrites-select (λ b. b.id) (λ c y. f c) same_id p rows keyed

-- A booking that can be decided: pending, with a price, and with a row.
abbrev pub CanDecide : List Booking → Booking → Type 0
CanDecide rows c =
    (is_pending c.status ≡ true)
    × (is_some c.total_price_cents ≡ true)
    × (is_some (find (λ y. y.id == c.id) rows) ≡ true)

pub CanDecide-replace :
    (b : Booking) (rows l : List Booking)
    → All (CanDecide rows) l
    → All (CanDecide (replace b rows)) l
CanDecide-replace b rows [] h = tt
CanDecide-replace b rows (c ∷ l) h =
    ((h.0.0, h.0.1, find-replace c.id b rows ∙ h.0.2), CanDecide-replace b rows l h.1)

-- Every row has a price, as its column demands.
abbrev pub ArePriced : List Booking → Type 0
ArePriced rows = (b : Booking) → IsRow b rows → is_some b.total_price_cents ≡ true

-- What is selected from the rows can be decided, if the test asks for PENDING.
pub select-CanDecide :
    (p : Booking → Bool) (rows l : List Booking)
    → ((b : Booking) → p b ≡ true → is_pending b.status ≡ true)
    → ArePriced rows
    → ((b : Booking) → IsRow b l → IsRow b rows)
    → All (CanDecide rows) (select p l)
select-CanDecide p rows [] pend priced sub = tt
select-CanDecide p rows (y ∷ l) pend priced sub =
    let rest = select-CanDecide p rows l pend priced (λ b m. sub b (inr m)) in
    let here = sub y (inl refl) in
    elim (Bool-cases (p y)) [
      | inl kept ↦ rw kept ((pend y kept, priced y here, row_found rows y here), rest)
      | inr dropped ↦ rw dropped rest
    ]

-- Where a query finds nothing, no row satisfies its test.
pub select_empty :
    (p : Booking → Bool) (rows : List Booking) (x : Booking)
    → is_empty (select p rows) ≡ true
    → IsRow x rows
    → p x ≡ false
select_empty p [] x h m = elim m [ ]
select_empty p (y ∷ rows) x h (inl e) = ap p (sym e) ∙ ground arith
select_empty p (y ∷ rows) x h (inr m) = select_empty p rows x (ground (arith, Bool-cases (p y))) m
