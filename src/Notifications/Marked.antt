-- ===== src/Notifications/Marked.antt =====
-- A notification that is marked as read is read, and is marked once.
use venue_backend.Common.{
  ℕ, ◌==◌, ◌≡◌, refl, true, false, some, List, [], ◌∷◌, find, is_some, inl, inr, Bool-cases, arith,
}
use venue_backend.Shared.Result.{success}
use venue_backend.Shared.Time.{utc}
use venue_backend.Notifications.{
  Notification, mark_read, is_for, get_for_recipient, replace_notification, mark_notification_read,
}

found_for :
    (id r : ℕ) (rows : List Notification) (n : Notification)
    → find (is_for id r) rows ≡ some n
    → is_for id r n ≡ true
found_for id r [] n h = cc
found_for id r (y ∷ rows) n h = ground (arith, found_for id r rows n)

find-replace :
    (id r : ℕ) (rows : List Notification) (n x : Notification)
    → find (is_for id r) rows ≡ some n
    → (x.id == id) ≡ true
    → is_for id r x ≡ true
    → find (is_for id r) (replace_notification x rows) ≡ some x
find-replace id r [] n x h e p = cc
find-replace id r (y ∷ rows) n x h e p = elim (Bool-cases (y.id == x.id)) [
  | inl hit ↦ rw (hit, p) refl
  | inr miss ↦ rw miss (ground (arith, find-replace id r rows n x))
]

already :
    (r id now : ℕ) (rows : List Notification) (n : Notification)
    → get_for_recipient id r rows ≡ some n
    → is_some n.read_at ≡ true
    → mark_notification_read r id now rows ≡ (success tt, rows)
unfolding mark_notification_read
already r id now rows n found read = rw (found, read) refl

abbrev read_now : Notification → ℕ → Notification
read_now n now = record n { read_at = some (utc now); updated_at = utc now }

first :
    (r id now : ℕ) (rows : List Notification) (n : Notification)
    → get_for_recipient id r rows ≡ some n
    → is_some n.read_at ≡ false
    → mark_notification_read r id now rows
      ≡ (success tt, replace_notification (read_now n now) rows)
unfolding mark_notification_read mark_read
first r id now rows n found unread = rw (found, unread) refl

-- Marking a notification of the recipient succeeds and leaves it read; marking it again, at any time,
-- succeeds and changes nothing.
pub mark_notification_read_once :
    (r id now later : ℕ) (rows : List Notification) (n : Notification)
    → get_for_recipient id r rows ≡ some n
    → (m : Notification) × (after : List Notification) × (mark_notification_read r id now rows
        ≡ (success tt, after))
      × (get_for_recipient id r after ≡ some m)
      × (is_some m.read_at ≡ true)
      × (mark_notification_read r id later after ≡ (success tt, after))
mark_notification_read_once r id now later rows n found = elim (Bool-cases (is_some n.read_at)) [
  | inl read ↦
      let same = already r id now rows n found read in
      (n, rows, same, found, read, already r id later rows n found read)
  | inr unread ↦
      let x = read_now n now in
      let mine = found_for id r rows n found in
      let there : get_for_recipient id r (replace_notification x rows) ≡ some x =
        find-replace id r rows n x found (ground arith) (ground arith) in
      (
        x,
        replace_notification x rows,
        first r id now rows n found unread,
        there,
        refl,
        already r id later (replace_notification x rows) x there refl,
      )
]
