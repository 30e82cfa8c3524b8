-- ===== src/Shared/Values/Stored.antt =====
-- A value that was stored passes its own check again, as when a row is read back or sent back.
use venue_backend.Common.{◌≤◌, ◌≡◌, String, arith}
use venue_backend.Shared.Result.{success}
use venue_backend.Shared.Text.{size, strip, strip_idem}
use venue_backend.Shared.Values.{text, ShortDescription, create_description}

accepted_content :
    (s : String) {d : ShortDescription}
    → create_description (text s) ≡ success d
    → (d ≡ record { content = strip s }) × (size (strip s) ≤ 500)
unfolding create_description
accepted_content s h = ground arith

refit :
    (t : String)
    → strip t ≡ t
    → size t ≤ 500
    → create_description (text t) ≡ success (record { content = t })
unfolding create_description
refit t same short = rw same (ground arith)

-- A description that was accepted is at most 500 characters long, and giving it to the check again
-- returns the same description.
pub create_description_stable :
    (s : String) (d : ShortDescription)
    → create_description (text s) ≡ success d
    → (size d.content ≤ 500) × (create_description (text d.content) ≡ success d)
create_description_stable s d h =
    let (e, short) = accepted_content s h in
    (rw e short, rw e (refit (strip s) (strip_idem s) short))
