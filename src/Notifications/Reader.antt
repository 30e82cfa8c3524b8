-- ===== src/Notifications/Reader.antt =====
-- A reader who follows the cursors sees every notification once, newest first, and comes to an end.
use venue_backend.Common.{
  ℕ, zero, suc, ◌+◌, ◌<◌, ◌≡◌, refl, ap, ◌∙◌, sym, Bool, true, false, Option, none, some, List, [],
  ◌∷◌, ◌++◌, length, ltb, leb, arith, if◌then◌else◌,
}
use mathlib.Core.List.{append_assoc}
use venue_backend.Shared.Time.{ℤ, pos, negsuc}
use venue_backend.Notifications.{
  Notification, take, list_by_recipient, clamp, last_id, Page, page_of, list_my_notifications,
}
use venue_backend.Notifications.Ordered.{AreDistinct, AreOrdered}
use venue_backend.Notifications.Pages.{listed, first_rows, next_rows, listed-AreOrdered}

-- The reader: the pages from a cursor on, until one has no cursor; `none` where the fuel ran out.
abbrev pub also : List Notification → Option (List Notification) → Option (List Notification)
also items none = none
also items (some more) = some (items ++ more)

unfoldable pub read_pages :
    ℕ → ℕ → ℤ → Bool → Option ℕ → List Notification → Option (List Notification)
read_pages zero actor_id limit unread_only cursor rows = none
read_pages (suc fuel) actor_id limit unread_only cursor rows =
    let page =
      list_my_notifications
        (record { actor_id = actor_id; limit = limit; cursor = cursor; unread_only = unread_only })
        rows in
    elim page.next_cursor [
      | none ↦ some page.items
      | some id ↦ also page.items (read_pages fuel actor_id limit unread_only (some id) rows)
    ]

-- A page of at least one item takes all that is left, or ends in an item before more.
data Cut (n : ℕ) : List Notification → Type 0 where
  last :
      (xs : List Notification)
      → take n (take (suc n) xs) ≡ xs
      → ltb n (length (take (suc n) xs)) ≡ false
      → Cut n xs
  more :
      (xs : List Notification) (c : Notification) (ys : List Notification)
      → take n (take (suc n) (xs ++ c ∷ ys)) ≡ xs ++ c ∷ []
      → ltb n (length (take (suc n) (xs ++ c ∷ ys))) ≡ true
      → Cut n (xs ++ c ∷ ys)

Cut-further : (n : ℕ) (x : Notification) (xs : List Notification) → Cut n xs → Cut (suc n) (x ∷ xs)
Cut-further n x _ (last xs all over) = last (x ∷ xs) (ap (λ ys. x ∷ ys) all) (ground arith)
Cut-further n x _ (more xs c ys part goes_on) =
    more (x ∷ xs) c ys (ap (λ zs. x ∷ zs) part) (ground arith)

cut : (n : ℕ) (xs : List Notification) → Cut (suc n) xs
cut n [] = last [] refl (ground arith)
cut zero (x ∷ []) = last (x ∷ []) refl refl
cut zero (x ∷ y ∷ ys) = more [] x (y ∷ ys) refl refl
cut (suc n) (x ∷ xs) = Cut-further (suc n) x xs (cut n xs)

last_id-append : (xs : List Notification) (c : Notification) → last_id (xs ++ c ∷ []) ≡ some c.id
last_id-append [] c = refl
last_id-append (x ∷ []) c = refl
last_id-append (x ∷ y ∷ xs) c = last_id-append (y ∷ xs) c

length-further :
    (xs : List Notification) (c : Notification) (ys : List Notification)
    → length ys < length (xs ++ c ∷ ys)
length-further [] c ys = omega arith
length-further (x ∷ xs) c ys = omega (arith, length-further xs c ys)

clamp-pos : (limit : ℤ) → (n : ℕ) × (clamp limit ≡ suc n)
clamp-pos (negsuc k) = (0, refl)
clamp-pos (pos zero) = (0, refl)
clamp-pos (pos (suc k)) = positive (ltb (suc k) 1) (leb (suc k) 100) k
  where
    positive :
        (a b : Bool) (k : ℕ) → (n : ℕ) × ((if a then 1 else if b then suc k else 100) ≡ suc n)
    positive true b k = (0, refl)
    positive false true k = (k, refl)
    positive false false k = (99, refl)

module _ (r : ℕ) (limit : ℤ) (unread : Bool) (rows : List Notification)
    (distinct : AreDistinct rows) where
  -- One page, of what the query finds after the cursor.
  one_page :
      (cursor : Option ℕ) (n : ℕ) (left : List Notification)
      → clamp limit ≡ suc n
      → list_by_recipient r (suc (suc n)) cursor unread rows ≡ take (suc (suc n)) left
      → list_my_notifications
          (record { actor_id = r; limit = limit; cursor = cursor; unread_only = unread })
          rows
        ≡ page_of (suc n) (take (suc (suc n)) left)
  unfolding list_my_notifications
  one_page cursor n left e found =
      let one_more : suc n + 1 ≡ suc (suc n) = omega arith in
      rw (e, one_more) (ap (page_of (suc n)) found)

  -- What the pages from a cursor on return, where `left` comes after the cursor.
  abbrev Reads : ℕ → Type 0
  Reads fuel =
      (cursor : Option ℕ) (before left : List Notification)
      → listed r unread rows ≡ before ++ left
      → ((k : ℕ) → list_by_recipient r k cursor unread rows ≡ take k left)
      → length left < fuel
      → read_pages fuel r limit unread cursor rows ≡ some left

  abbrev follow_page : ℕ → Page → Option (List Notification)
  follow_page fuel page = elim page.next_cursor [
    | none ↦ some page.items
    | some id ↦ also page.items (read_pages fuel r limit unread (some id) rows)
  ]

  by-Cut :
      (fuel n : ℕ) (before left : List Notification)
      → Reads fuel
      → Cut (suc n) left
      → listed r unread rows ≡ before ++ left
      → length left < suc fuel
      → follow_page fuel (page_of (suc n) (take (suc (suc n)) left)) ≡ some left
  by-Cut fuel n before _ reads (last xs all over) e enough = rw (over, all) refl
  by-Cut fuel n before _ reads (more xs c ys part goes_on) e enough =
      let e1 : listed r unread rows ≡ (before ++ xs) ++ c ∷ ys =
        e ∙ sym (append_assoc before xs (c ∷ ys)) in
      let e2 : listed r unread rows ≡ ((before ++ xs) ++ c ∷ []) ++ ys =
        e1 ∙ sym (append_assoc (before ++ xs) (c ∷ []) ys) in
      let rest : read_pages fuel r limit unread (some c.id) rows ≡ some ys =
        reads (some c.id) ((before ++ xs) ++ c ∷ []) ys e2
          (λ k. next_rows r unread rows distinct k (before ++ xs) c ys e1)
          (omega (arith, length-further xs c ys, enough)) in
      rw (goes_on, part, last_id-append xs c, rest) (ap some (append_assoc xs (c ∷ []) ys))

  read_from : (fuel : ℕ) → Reads fuel
  unfolding read_pages
  read_from zero cursor before left e found enough = absurd (omega arith)
  read_from (suc fuel) cursor before left e found enough =
      let (n, size) = clamp-pos limit in
      ap (follow_page fuel) (one_page cursor n left size (found (suc (suc n))))
      ∙ by-Cut fuel n before left (read_from fuel) (cut n left) e enough

  -- A reader who asks for the pages of the notifications, from the first one by the cursor of each to
  -- the next, comes to a page without a cursor, whatever the limit, and has then seen every
  -- notification of the recipient (the unread ones, where only those are asked for) exactly once,
  -- newest first; the ids of the table are distinct, and it does not change meanwhile.
  pub read_pages_all :
      (fuel : ℕ)
      → length (listed r unread rows) < fuel
      → (read_pages fuel r limit unread none rows ≡ some (listed r unread rows))
        × AreOrdered (listed r unread rows)
  read_pages_all fuel enough = (
    read_from fuel none [] (listed r unread rows) refl (first_rows r unread rows distinct) enough,
    listed-AreOrdered r unread rows distinct,
  )
