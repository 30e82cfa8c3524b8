-- ===== src/UseCases/Consistent/Queries.antt =====
-- What the queries return from consistent tables.
use venue_backend.Common.{ℕ, ◌==◌, ◌≡◌, Bool, Option, some, List, select}
use venue_backend.Bookings.{Booking}
use venue_backend.Bookings.Lifecycle.{IsRecorded}
use venue_backend.Store.{World, get_booking}
use venue_backend.Store.Rows.{IsRow, IsRow-find, IsRow-select}
use venue_backend.Store.Updates.{IsConsistent}

-- What is known of a booking, or of the bookings, that a query has found.
abbrev pub FoundRecorded : Option Booking → Type 0
FoundRecorded o = (b : Booking) → o ≡ some b → IsRecorded b

abbrev pub ListRecorded : List Booking → Type 0
ListRecorded l = (b : Booking) → IsRow b l → IsRecorded b

pub found : (id : ℕ) (w : World) → IsConsistent w → FoundRecorded (get_booking id w)
found id w i b e = i.recorded b (IsRow-find (λ y. y.id == id) w.bookings b e).0

pub listed : (p : Booking → Bool) (w : World) → IsConsistent w → ListRecorded (select p w.bookings)
listed p w i b m = i.recorded b (IsRow-select p w.bookings b m)
