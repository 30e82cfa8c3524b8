-- ===== src/Examples/Notices.antt =====
-- The theorems about the pages of notifications, on a concrete table.
use venue_backend.Common.{ℕ, ◌≡◌, refl, true, none, some, List, [], ◌∷◌, arith}
use venue_backend.Shared.Time.{pos, utc}
use venue_backend.Store.{booking_requested}
use venue_backend.Notifications.{Notification, sort}
use venue_backend.Notifications.Ordered.{AreOrdered}
use venue_backend.Notifications.Pages.{listed}
use venue_backend.Notifications.Reader.{read_pages, read_pages_all}

abbrev notice_of : ℕ → ℕ → ℕ → Notification
notice_of id recipient_id created_at = record {
  id = id;
  recipient_id = recipient_id;
  kind = booking_requested;
  payload = [];
  read_at = none;
  created_at = created_at;
  updated_at = utc created_at;
}

-- Three for the reader, two of them of one instant, and one for somebody else.
abbrev table : List Notification
table = notice_of 1 9 10 ∷ notice_of 2 9 20 ∷ notice_of 3 7 20 ∷ notice_of 4 9 20 ∷ []

-- Pages of two.
read_pages_all_example :
    (read_pages 5 9 (pos 2) true none table ≡ some (listed 9 true table))
    × AreOrdered (listed 9 true table)
unfolding sort
read_pages_all_example =
    read_pages_all 9 (pos 2) true table
      ((refl, (refl, (refl, tt))), ((refl, (refl, tt)), ((refl, tt), (tt, tt)))) 5 (omega arith)
