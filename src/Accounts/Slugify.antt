-- ===== src/Accounts/Slugify.antt =====
-- _slugify.py of app/use_cases/accounts/commands. `ascii` is the text after the NFKD normalisation
-- and the encoding that drops what is not ASCII; `hex` is what `uuid4().hex[:8]` gives.
pub mod Formed
use Prim.Native.Char.{code}
use Prim.Native.String
use venue_backend.Common.{ℕ, String, Bool, true, false, not, ◌&&◌, ◌||◌, ltb, ◌==◌, if◌then◌else◌}
use venue_backend.Shared.Text.{size, is_blank}
use venue_backend.Shared.Text.Case.{lower}
use venue_backend.Shared.Names.{is_lower, is_digit, is_letter}

-- `[a-z0-9]`
abbrev pub is_alnum : ℕ → Bool
is_alnum c = is_lower c || is_digit c

-- `_NON_SLUG_RE.sub("-", s)`, after a run that has been replaced or not.
abbrev pub dashed : Bool → String → String
dashed run String.[] = String.[]
dashed run (String.◌∷◌ c s) =
    let kept = String.◌∷◌ c (dashed false s) in
    let skipped = dashed true s in
    if is_alnum (code c) then kept else if run then skipped else String.◌∷◌ "-" skipped

-- `s.strip("-")`
abbrev pub lstrip_dash : String → String
lstrip_dash String.[] = String.[]
lstrip_dash (String.◌∷◌ c s) = if code c == b'-' then lstrip_dash s else String.◌∷◌ c s

abbrev pub rstrip_dash : String → String
rstrip_dash String.[] = String.[]
rstrip_dash (String.◌∷◌ c s) =
    let rest = rstrip_dash s in
    if is_blank rest && code c == b'-' then String.[] else String.◌∷◌ c rest

-- `re.sub(r"-{2,}", "-", s)`, after a dash or not.
abbrev pub collapsed : Bool → String → String
collapsed dash String.[] = String.[]
collapsed dash (String.◌∷◌ c s) =
    let skipped = collapsed true s in
    let kept = String.◌∷◌ c (collapsed (code c == b'-') s) in
    if dash && code c == b'-' then skipped else kept

abbrev pub starts_alpha : String → Bool
starts_alpha String.[] = false
starts_alpha (String.◌∷◌ c s) = is_letter (code c)

abbrev pub slug_or : String → String → String
slug_or fallback s = if is_blank s || ltb (size s) 2 || not (starts_alpha s) then fallback else s

-- `slugify`
unfoldable pub slugify : String → String → String
slugify ascii hex =
    slug_or (String.◌∷◌ "u" (String.◌∷◌ "-" hex))
      (collapsed false (rstrip_dash (lstrip_dash (dashed false (lower ascii)))))
