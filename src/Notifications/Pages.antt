-- ===== src/Notifications/Pages.antt =====
-- What the query of a page finds, by its cursor, in the ordered list of all.
use venue_backend.Common.{
  ℕ, ◌==◌, ◌≡◌, refl, ap, ◌∙◌, Bool, true, false, ◌&&◌, none, some, ◌⊎◌, List, [], ◌∷◌, ◌++◌, All,
  select, find, inl, inr, Bool-cases, arith,
}
use venue_backend.Notifications.{
  Notification, newer, sort, take, is_for, is_listed, list_by_recipient,
}
use venue_backend.Notifications.Ordered.{
  AreOrdered, AreDistinct, All-sort, All-select, sort-AreOrdered, sort-select, select-AreOrdered,
}

-- The notifications that a recipient may list, newest first.
abbrev pub listed : ℕ → Bool → List Notification → List Notification
listed recipient_id unread_only rows = select (is_listed recipient_id unread_only) (sort rows)

select-All :
    (p : Notification → Bool) (xs : List Notification) → All (λ x. p x ≡ true) xs → select p xs ≡ xs
select-All p [] a = refl
select-All p (x ∷ xs) a = rw a.0 (ap (λ ys. x ∷ ys) (select-All p xs a.1))

select_and :
    (p q : Notification → Bool) (xs : List Notification)
    → select (λ x. p x && q x) xs ≡ select q (select p xs)
select_and p q [] = refl
select_and p q (x ∷ xs) = elim (Bool-cases (p x)) [
  | inr miss ↦ rw miss (select_and p q xs)
  | inl hit ↦ elim (Bool-cases (q x)) [
    | inl also_hit ↦ rw (hit, also_hit) (ap (λ ys. x ∷ ys) (select_and p q xs))
    | inr gone ↦ rw (hit, gone) (select_and p q xs)
  ]
]

All-at :
    (P : Notification → Type 0) (xs : List Notification) (c : Notification) (ys : List Notification)
    → All P (xs ++ c ∷ ys)
    → P c
All-at P [] c ys a = a.0
All-at P (x ∷ xs) c ys a = All-at P xs c ys a.1

newer_asym : (x c : Notification) → newer x c ≡ true → newer c x ≡ false
newer_asym x c h = ground arith

-- Of an ordered list, the condition of the cursor leaves what comes after its row.
select-after :
    (xs : List Notification) (c : Notification) (ys : List Notification)
    → AreOrdered (xs ++ c ∷ ys)
    → select (newer c) (xs ++ c ∷ ys) ≡ ys
select-after [] c ys o =
    let self : newer c c ≡ false = ground arith in rw self (select-All (newer c) ys o.0)
select-after (x ∷ xs) c ys o =
    rw (newer_asym x c (All-at (λ y. newer x y ≡ true) xs c ys o.0)) (select-after xs c ys o.1)

-- The look-up of a row of the recipient by its id finds it.
abbrev Found : ℕ → List Notification → Notification → Type 0
Found recipient_id rows x =
    ((x.recipient_id == recipient_id) ≡ false) ⊎ (find (is_for x.id recipient_id) rows ≡ some x)

Found-further :
    (r : ℕ) (y : Notification) (rows xs : List Notification)
    → All (λ x. (y.id == x.id) ≡ false) xs
    → All (Found r rows) xs
    → All (Found r (y ∷ rows)) xs
Found-further r y rows [] d a = tt
Found-further r y rows (x ∷ xs) d a = (further x d.0 a.0, Found-further r y rows xs d.1 a.1)
  where
    further : (x : Notification) → (y.id == x.id) ≡ false → Found r rows x → Found r (y ∷ rows) x
    further x apart (inl foreign) = inl foreign
    further x apart (inr found) = inr (rw apart found)

Found-first : (r : ℕ) (x : Notification) (rows : List Notification) → Found r (x ∷ rows) x
Found-first r x rows = elim (Bool-cases (x.recipient_id == r)) [
  | inl mine ↦ inr (ground arith)
  | inr foreign ↦ inl foreign
]

All-Found : (r : ℕ) (rows : List Notification) → AreDistinct rows → All (Found r rows) rows
All-Found r [] d = tt
All-Found r (x ∷ rows) d =
    (Found-first r x rows, Found-further r x rows rows d.0 (All-Found r rows d.1))

kept-All : (p : Notification → Bool) (xs : List Notification) → All (λ x. p x ≡ true) (select p xs)
kept-All p [] = tt
kept-All p (x ∷ xs) = elim (Bool-cases (p x)) [
  | inl hit ↦ rw hit (hit, kept-All p xs)
  | inr miss ↦ rw miss (kept-All p xs)
]

module _ (r : ℕ) (unread : Bool) (rows : List Notification) (distinct : AreDistinct rows) where
  listed_row :
      (xs : List Notification) (c : Notification) (ys : List Notification)
      → listed r unread rows ≡ xs ++ c ∷ ys
      → find (is_for c.id r) rows ≡ some c
  listed_row xs c ys e =
      let p = is_listed r unread in
      let mine : is_listed r unread c ≡ true =
        All-at (λ x. p x ≡ true) xs c ys (rw e at (kept-All p (sort rows))) in
      let found = All-at (Found r rows) xs c ys (
        rw e at (
          All-select p (Found r rows) (sort rows)
            (All-sort (Found r rows) rows (All-Found r rows distinct)))) in
      elim found [ inl foreign ↦ absurd (ground arith) | inr there ↦ there ]

  pub listed-AreOrdered : AreOrdered (listed r unread rows)
  listed-AreOrdered =
      select-AreOrdered (is_listed r unread) (sort rows) (sort-AreOrdered rows distinct)

  pub first_rows : (k : ℕ) → list_by_recipient r k none unread rows ≡ take k (listed r unread rows)
  unfolding list_by_recipient
  first_rows k = ap (take k) (
      sort-select _ rows distinct
      ∙ select_and (is_listed r unread) (λ _. true) (sort rows)
      ∙ select-All (λ _. true) (listed r unread rows) (all_true (listed r unread rows)))
    where
      all_true : (xs : List Notification) → All (λ _. true ≡ true) xs
      all_true [] = tt
      all_true (x ∷ xs) = (refl, all_true xs)

  pub next_rows :
      (k : ℕ) (xs : List Notification) (c : Notification) (ys : List Notification)
      → listed r unread rows ≡ xs ++ c ∷ ys
      → list_by_recipient r k (some c.id) unread rows ≡ take k ys
  unfolding list_by_recipient
  next_rows k xs c ys e = rw (listed_row xs c ys e) (
      ap (take k) (
        sort-select (λ n. is_listed r unread n && newer c n) rows distinct
        ∙ select_and (is_listed r unread) (newer c) (sort rows)
        ∙ ap (select (newer c)) e
        ∙ select-after xs c ys (rw e at listed-AreOrdered)))
