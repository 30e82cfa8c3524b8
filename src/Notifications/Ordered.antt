-- ===== src/Notifications/Ordered.antt =====
-- The order of the notifications, and what a condition leaves of the ordered list.
use venue_backend.Common.{
  ◌≡◌, refl, ap, sym, Bool, true, false, List, [], ◌∷◌, All, select, ◌==◌, inl, inr, Bool-cases,
  arith, if◌then◌else◌,
}
use venue_backend.Notifications.{Notification, newer, insert, sort}

-- Each notification is newer than all that follow.
abbrev pub AreOrdered : List Notification → Type 0
AreOrdered [] = Unit
AreOrdered (x ∷ xs) = All (λ y. newer x y ≡ true) xs × AreOrdered xs

-- The ids are a primary key.
abbrev pub AreDistinct : List Notification → Type 0
AreDistinct [] = Unit
AreDistinct (x ∷ xs) = All (λ y. (x.id == y.id) ≡ false) xs × AreDistinct xs

newer_trans : (x y z : Notification) → newer x y ≡ true → newer y z ≡ true → newer x z ≡ true
newer_trans x y z h k = ground arith

newer_total : (x y : Notification) → (x.id == y.id) ≡ false → newer x y ≡ false → newer y x ≡ true
newer_total x y h k = ground arith

All-newer :
    (x y : Notification) (zs : List Notification)
    → newer x y ≡ true
    → All (λ z. newer y z ≡ true) zs
    → All (λ z. newer x z ≡ true) zs
All-newer x y [] h a = tt
All-newer x y (z ∷ zs) h a = (newer_trans x y z h a.0, All-newer x y zs h a.1)

module _ (P : Notification → Type 0) where
  All-insert : (x : Notification) (ys : List Notification) → P x → All P ys → All P (insert x ys)
  All-insert x [] p a = (p, tt)
  All-insert x (y ∷ ys) p a = elim (Bool-cases (newer x y)) [
    | inl first ↦ rw first (p, a)
    | inr later ↦ rw later (a.0, All-insert x ys p a.1)
  ]

  pub All-sort : (xs : List Notification) → All P xs → All P (sort xs)
  unfolding sort
  All-sort [] a = tt
  All-sort (x ∷ xs) a = All-insert x (sort xs) a.0 (All-sort xs a.1)

insert-AreOrdered :
    (x : Notification) (ys : List Notification)
    → All (λ y. (x.id == y.id) ≡ false) ys
    → AreOrdered ys
    → AreOrdered (insert x ys)
insert-AreOrdered x [] d o = (tt, tt)
insert-AreOrdered x (y ∷ ys) d o = elim (Bool-cases (newer x y)) [
  | inl first ↦ rw first ((first, All-newer x y ys first o.0), o)
  | inr later ↦ rw later (
    All-insert (λ z. newer y z ≡ true) x ys (newer_total x y d.0 later) o.0,
    insert-AreOrdered x ys d.1 o.1,
  )
]

pub sort-AreOrdered : (xs : List Notification) → AreDistinct xs → AreOrdered (sort xs)
unfolding sort
sort-AreOrdered [] d = tt
sort-AreOrdered (x ∷ xs) d =
    insert-AreOrdered x (sort xs) (All-sort (λ y. (x.id == y.id) ≡ false) xs d.0)
      (sort-AreOrdered xs d.1)

insert-first :
    (x : Notification) (ys : List Notification)
    → All (λ y. newer x y ≡ true) ys
    → insert x ys ≡ x ∷ ys
insert-first x [] a = refl
insert-first x (y ∷ ys) a = rw (a.0) refl

module _ (p : Notification → Bool) where
  pub All-select :
      (P : Notification → Type 0) (xs : List Notification) → All P xs → All P (select p xs)
  All-select P [] a = tt
  All-select P (x ∷ xs) a = elim (Bool-cases (p x)) [
    | inl hit ↦ rw hit (a.0, All-select P xs a.1)
    | inr miss ↦ rw miss (All-select P xs a.1)
  ]

  select-insert :
      (x : Notification) (ys : List Notification)
      → AreOrdered ys
      → select p (insert x ys) ≡ (if p x then insert x (select p ys) else select p ys)
  select-insert x [] o = refl
  select-insert x (y ∷ ys) o = elim (Bool-cases (newer x y)) [
    | inl first ↦ elim (Bool-cases (p x)) [
      | inr miss ↦ rw (first, miss) refl
      | inl hit ↦
          rw (first, hit)
            (sym (
              insert-first x (select p (y ∷ ys))
                (All-select (λ z. newer x z ≡ true) (y ∷ ys) (first, All-newer x y ys first o.0))))
    ]
    | inr later ↦ elim (Bool-cases (p y)) [
      | inr gone ↦ rw (later, gone) (select-insert x ys o.1)
      | inl stays ↦ elim (Bool-cases (p x)) [
        | inl hit ↦
            rw (later, stays, hit, later) (ap (λ zs. y ∷ zs) (rw hit at (select-insert x ys o.1)))
        | inr miss ↦
            rw (later, stays, miss) (ap (λ zs. y ∷ zs) (rw miss at (select-insert x ys o.1)))
      ]
    ]
  ]

  -- A condition may be asked before or after the ordering.
  pub sort-select :
      (xs : List Notification) → AreDistinct xs → sort (select p xs) ≡ select p (sort xs)
  unfolding sort
  sort-select [] d = refl
  sort-select (x ∷ xs) d = elim (Bool-cases (p x)) [
    | inl hit ↦
        rw (hit, sort-select xs d.1)
          (sym (rw hit at (select-insert x (sort xs) (sort-AreOrdered xs d.1))))
    | inr miss ↦
        rw (miss, sort-select xs d.1)
          (sym (rw miss at (select-insert x (sort xs) (sort-AreOrdered xs d.1))))
  ]

  -- A part of an ordered list is ordered.
  pub select-AreOrdered : (xs : List Notification) → AreOrdered xs → AreOrdered (select p xs)
  select-AreOrdered [] o = tt
  select-AreOrdered (x ∷ xs) o = elim (Bool-cases (p x)) [
    | inl hit ↦ rw hit (All-select (λ y. newer x y ≡ true) xs o.0, select-AreOrdered xs o.1)
    | inr miss ↦ rw miss (select-AreOrdered xs o.1)
  ]
