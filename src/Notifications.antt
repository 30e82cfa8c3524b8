-- ===== src/Notifications.antt =====
-- The notifications of a user: notification.py, the repository notification_repository.py, and the
-- handlers of app/use_cases/notifications. The state is the table of the notifications. A UUID is a
-- number, and the texts of two UUIDs are ordered as their numbers.
pub mod Ordered
pub mod Pages
pub mod Reader
pub mod Marked
use venue_backend.Common.{
  ℕ, zero, suc, ◌+◌, String, Bool, true, false, not, ◌&&◌, ◌||◌, Option, none, some, List, [], ◌∷◌,
  ◌++◌, map, select, find, length, ltb, leb, ◌==◌, is_some, if◌then◌else◌,
}
use venue_backend.Shared.Result.{Result, success, failed, failure}
use venue_backend.Shared.Time.{ℤ, pos, negsuc, DateTime, utc}
use venue_backend.Store.{NotifKind, Datum, Notice}

pub record Notification : Type 0 where
  pub id : ℕ
  pub recipient_id : ℕ
  pub kind : NotifKind
  pub payload : List (String × Datum)
  pub read_at : Option DateTime
  pub created_at : ℕ
  pub updated_at : DateTime

-- `Notification.create`, of what `notify` is called with; `id` is what `uuid4()` returns.
unfoldable pub create_notification : ℕ → Notice → ℕ → Notification
create_notification id notice now = record {
  id = id;
  recipient_id = notice.recipient_id;
  kind = notice.kind;
  payload = notice.payload;
  read_at = none;
  created_at = now;
  updated_at = utc now;
}

-- `Notification.mark_read`
unfoldable pub mark_read : Notification → DateTime → Notification
mark_read n now = if is_some n.read_at then n else record n { read_at = some now; updated_at = now }

-- `get_for_recipient`
abbrev pub is_for : ℕ → ℕ → Notification → Bool
is_for id recipient_id n = n.id == id && n.recipient_id == recipient_id

abbrev pub get_for_recipient : ℕ → ℕ → List Notification → Option Notification
get_for_recipient id recipient_id rows = find (is_for id recipient_id) rows

-- `update` of the repository: the row of the notification is set to its columns.
abbrev pub replace_notification : Notification → List Notification → List Notification
replace_notification n = map (λ y. if y.id == n.id then n else y)

-- What `MarkNotificationReadHandler.handle` returns, and the table that it leaves.
abbrev pub marked :
    ℕ → Option Notification → List Notification → Result (Unit {0}) × List Notification
marked now none rows = (failed (failure "NotificationNotFound" (some 404)), rows)
marked now (some n) rows = (
  success tt,
  (if is_some n.read_at then rows else replace_notification (mark_read n (utc now)) rows),
)

-- `MarkNotificationReadHandler.handle`; the row that it updates is the one that it has read.
unfoldable pub mark_notification_read :
    ℕ → ℕ → ℕ → List Notification → Result (Unit {0}) × List Notification
mark_notification_read actor_id id now rows = marked now (get_for_recipient id actor_id rows) rows

-- The order of the pages: `created_at` descending, then `id` descending. It is the condition of the
-- cursor too: whether `y` comes after `x`.
abbrev pub newer : Notification → Notification → Bool
newer x y = ltb y.created_at x.created_at || (y.created_at == x.created_at && ltb y.id x.id)

-- `ORDER BY`
abbrev pub insert : Notification → List Notification → List Notification
insert x [] = x ∷ []
insert x (y ∷ ys) = let rest = insert x ys in if newer x y then x ∷ y ∷ ys else y ∷ rest

unfoldable pub sort : List Notification → List Notification
sort [] = []
sort (x ∷ xs) = insert x (sort xs)

-- `LIMIT`, and `rows[:limit]`
abbrev pub take : ℕ → List Notification → List Notification
take zero xs = []
take (suc n) [] = []
take (suc n) (x ∷ xs) = x ∷ take n xs

-- The condition of the cursor, by the row of the cursor where it is one of the recipient.
abbrev pub after_row : Option Notification → Notification → Bool
after_row none n = true
after_row (some c) n = newer c n

abbrev pub cursor_row : ℕ → Option ℕ → List Notification → Option Notification
cursor_row recipient_id none rows = none
cursor_row recipient_id (some id) rows = find (is_for id recipient_id) rows

abbrev pub is_listed : ℕ → Bool → Notification → Bool
is_listed recipient_id unread_only n =
    n.recipient_id == recipient_id && not (unread_only && is_some n.read_at)

-- `list_by_recipient`
unfoldable pub list_by_recipient : ℕ → ℕ → Option ℕ → Bool → List Notification → List Notification
list_by_recipient recipient_id limit cursor unread_only rows = take limit (
    sort (
      select
        (λ n.
          is_listed recipient_id unread_only n && after_row (cursor_row recipient_id cursor rows) n)
        rows))

-- `max(1, min(query.limit, _MAX_LIMIT))`
abbrev pub clamp : ℤ → ℕ
clamp (negsuc n) = 1
clamp (pos n) = if ltb n 1 then 1 else if leb n 100 then n else 100

-- `page[-1].id`
abbrev pub last_id : List Notification → Option ℕ
last_id [] = none
last_id (x ∷ []) = some x.id
last_id (x ∷ y ∷ ys) = last_id (y ∷ ys)

pub record Page : Type 0 where
  pub items : List Notification
  pub next_cursor : Option ℕ

pub record ListMyNotificationsQuery : Type 0 where
  pub actor_id : ℕ
  pub limit : ℤ
  pub cursor : Option ℕ
  pub unread_only : Bool

-- The page of the fetched rows, of which one more than the limit was asked for.
abbrev pub page_of : ℕ → List Notification → Page
page_of limit rows = record {
  items = take limit rows;
  next_cursor = (if ltb limit (length rows) then last_id (take limit rows) else none);
}

-- `ListMyNotificationsHandler.handle`
unfoldable pub list_my_notifications : ListMyNotificationsQuery → List Notification → Page
list_my_notifications query rows =
    page_of (clamp query.limit)
      (list_by_recipient query.actor_id (clamp query.limit + 1) query.cursor query.unread_only rows)
