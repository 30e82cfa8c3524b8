-- ===== src/Store/Rows.antt =====
-- Rows of the table of bookings: what finds, selects, replaces and appends them.
use mathlib.Core.Path.{subst}
use venue_backend.Common.{
  ℕ, ◌≡◌, ◌≢◌, refl, sym, ap, ◌∙◌, Bool, true, false, some, List, [], ◌∷◌, ◌++◌, arith, ◌==◌, any,
  find, is_some, In, All, Bool-cases, inl, inr, ◌⊎◌, select,
}
use venue_backend.Bookings.{Booking}
use venue_backend.Store.Tables.{replace}

-- A booking is a row of the table.
abbrev pub IsRow : Booking → List Booking → Type 0
IsRow b rows = In (λ y. y ≡ b) rows

pub IsRow-find :
    (p : Booking → Bool) (rows : List Booking) (b : Booking)
    → find p rows ≡ some b
    → IsRow b rows × (p b ≡ true)
IsRow-find p [] b h = cc
IsRow-find p (y ∷ rows) b h = elim (Bool-cases (p y)) [
  | inl found ↦ let e : y ≡ b = ground arith in (inl e, ap p (sym e) ∙ found)
  | inr other ↦ let rest = IsRow-find p rows b (ground arith) in (inr rest.0, rest.1)
]

-- A row after an update is the new one, or an old one with another id.
pub IsRow-replace :
    (b : Booking) (rows : List Booking) (x : Booking)
    → IsRow x (replace b rows)
    → (x ≡ b) ⊎ (IsRow x rows × (x.id ≢ b.id))
IsRow-replace b [] x m = elim m [ ]
IsRow-replace b (y ∷ rows) x (inl e) = elim (Bool-cases (y.id == b.id)) [
  | inl same ↦ inl (ground arith)
  | inr other ↦ let k : y ≡ x = ground arith in inr (inl k, λ c. ground (arith, ap (λ t. t.id) k))
]
IsRow-replace b (y ∷ rows) x (inr m) = elim (IsRow-replace b rows x m) [
  | inl e ↦ inl e
  | inr old ↦ inr (inr old.0, old.1)
]

pub IsRow-append :
    (rows : List Booking) (b x : Booking) → IsRow x (rows ++ b ∷ []) → IsRow x rows ⊎ (x ≡ b)
IsRow-append [] b x (inl e) = inr (sym e)
IsRow-append [] b x (inr m) = elim m [ ]
IsRow-append (y ∷ rows) b x (inl e) = inl (inl e)
IsRow-append (y ∷ rows) b x (inr m) = elim (IsRow-append rows b x m) [
  | inl old ↦ inl (inr old)
  | inr e ↦ inr e
]

pub any-row :
    (p : Booking → Bool) (rows : List Booking) (x : Booking)
    → any p rows ≡ false
    → IsRow x rows
    → p x ≡ false
any-row p (y ∷ rows) x h (inl e) = ap p (sym e) ∙ ground arith
any-row p (y ∷ rows) x h (inr m) = any-row p rows x (ground arith) m
any-row p [] x h m = elim m [ ]

pub IsRow-replace_keep :
    (b : Booking) (rows : List Booking) (x : Booking)
    → x.id ≢ b.id
    → IsRow x rows
    → IsRow x (replace b rows)
IsRow-replace_keep b [] x d m = m
IsRow-replace_keep b (y ∷ rows) x d (inl e) =
    let other : (y.id == b.id) ≡ false = ground (arith, ap (λ t. t.id) e) in rw other (inl e)
IsRow-replace_keep b (y ∷ rows) x d (inr m) = inr (IsRow-replace_keep b rows x d m)

pub IsRow-replace_new :
    (b : Booking) (rows : List Booking) (y : Booking)
    → y.id ≡ b.id
    → IsRow y rows
    → IsRow b (replace b rows)
IsRow-replace_new b [] y e m = m
IsRow-replace_new b (z ∷ rows) y e (inl s) =
    let here : (z.id == b.id) ≡ true = ground (arith, ap (λ t. t.id) s) in rw here (inl refl)
IsRow-replace_new b (z ∷ rows) y e (inr m) = inr (IsRow-replace_new b rows y e m)

pub select-IsRow :
    (p : Booking → Bool) (rows : List Booking) (b : Booking)
    → p b ≡ true
    → IsRow b rows
    → IsRow b (select p rows)
select-IsRow p [] b h m = m
select-IsRow p (y ∷ rows) b h (inl e) = let kept : p y ≡ true = ap p e ∙ h in rw kept (inl e)
select-IsRow p (y ∷ rows) b h (inr m) = elim (Bool-cases (p y)) [
  | inl kept ↦ rw kept (inr (select-IsRow p rows b h m))
  | inr dropped ↦ rw dropped (select-IsRow p rows b h m)
]

pub select-holds :
    (p : Booking → Bool) (rows : List Booking) → All (λ b. p b ≡ true) (select p rows)
select-holds p [] = tt
select-holds p (y ∷ rows) = elim (Bool-cases (p y)) [
  | inl kept ↦ rw kept (kept, select-holds p rows)
  | inr dropped ↦ rw dropped (select-holds p rows)
]

pub find-replace :
    (id : ℕ) (b : Booking) (rows : List Booking)
    → is_some (find (λ y. y.id == id) (replace b rows)) ≡ is_some (find (λ y. y.id == id) rows)
find-replace id b [] = refl
find-replace id b (y ∷ rows) = ground (arith, find-replace id b rows)

pub row_found :
    (rows : List Booking) (b : Booking)
    → IsRow b rows
    → is_some (find (λ y. y.id == b.id) rows) ≡ true
row_found [] b m = elim m [ ]
row_found (y ∷ rows) b (inl e) = ground (arith, ap (λ t. t.id) e)
row_found (y ∷ rows) b (inr m) = ground (arith, row_found rows b m)

pub IsRow-select :
    (p : Booking → Bool) (rows : List Booking) (b : Booking)
    → IsRow b (select p rows)
    → IsRow b rows
IsRow-select p [] b m = m
IsRow-select p (y ∷ rows) b m = elim (Bool-cases (p y)) [
  | inl kept ↦ elim (rw kept at m) [ inl e ↦ inl e | inr r ↦ inr (IsRow-select p rows b r) ]
  | inr dropped ↦ inr (IsRow-select p rows b (rw dropped at m))
]

pub All-IsRow : (P : Booking → Type 0) (l : List Booking) (b : Booking) → All P l → IsRow b l → P b
All-IsRow P [] b h m = elim m [ ]
All-IsRow P (y ∷ l) b h (inl e) = subst P e h.0
All-IsRow P (y ∷ l) b h (inr m) = All-IsRow P l b h.1 m
