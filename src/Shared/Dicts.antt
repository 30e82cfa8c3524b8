-- ===== src/Shared/Dicts.antt =====
-- Python dicts with text keys, as the lists of their items.
use text.Mathlib.Text.{◌==◌ as str_eq}
use venue_backend.Common.{String, Bool, List, map, any}
use venue_backend.Shared.Values.{Raw}

-- `dict[str, Any]`
abbrev pub Attributes : Type 0
Attributes = List (String × Raw)

-- `key in seen`, `key in base_keys`
abbrev pub has_key : String → List String → Bool
has_key key keys = any (str_eq key) keys

abbrev pub keys_of : Attributes → List String
keys_of = map (λ e. e.0)
