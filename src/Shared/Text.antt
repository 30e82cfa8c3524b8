-- ===== src/Shared/Text.antt =====
-- `str.strip`, `len` and `ord` of Python texts, as the value objects use them.
pub mod Case
use Prim.Native.Char.{code}
use Prim.Native.String.{String}
use venue_backend.Common.{
  ℕ, suc, ◌≤◌, ◌≡◌, refl, Bool, true, false, not, ◌&&◌, ◌||◌, arith, leb, ◌==◌, if◌then◌else◌,
}

-- `len(s)`: code points.
abbrev pub size : String → ℕ
size String.[] = 0
size (String.◌∷◌ c s) = suc (size s)

abbrev pub is_blank : String → Bool
is_blank String.[] = true
is_blank (String.◌∷◌ c s) = false

-- Whether every code point of a text passes a test.
abbrev pub every : (ℕ → Bool) → String → Bool
every p String.[] = true
every p (String.◌∷◌ c s) = p (code c) && every p s

-- `str.isspace` of one code point: what `strip` removes.
unfoldable pub is_space : ℕ → Bool
is_space c =
    (leb 9 c && leb c 13)
    || (leb 28 c && leb c 32)
    || c == 0x85
    || c == 0xa0
    || c == 0x1680
    || (leb 0x2000 c && leb c 0x200a)
    || (leb 0x2028 c && leb c 0x2029)
    || c == 0x202f
    || c == 0x205f
    || c == 0x3000

lstrip : String → String
lstrip String.[] = String.[]
lstrip (String.◌∷◌ c s) = if is_space (code c) then lstrip s else String.◌∷◌ c s

rstrip : String → String
rstrip String.[] = String.[]
rstrip (String.◌∷◌ c s) =
    let rest = rstrip s in
    if is_blank rest && is_space (code c) then String.[] else String.◌∷◌ c rest

-- `s.strip()`
unfoldable pub strip : String → String
unfolding is_space lstrip rstrip
strip s = rstrip (lstrip s)

size-lstrip : (s : String) → size (lstrip s) ≤ size s
unfolding lstrip
size-lstrip String.[] = omega arith
size-lstrip (String.◌∷◌ c s) = ground (arith, size-lstrip s)

size-rstrip : (s : String) → size (rstrip s) ≤ size s
unfolding rstrip
size-rstrip String.[] = omega arith
size-rstrip (String.◌∷◌ c s) = ground (arith, size-rstrip s)

-- A stripped text is no longer than the text.
pub size-strip : (s : String) → size (strip s) ≤ size s
unfolding strip
size-strip s = omega (arith, size-lstrip s, size-rstrip (lstrip s))

rstrip_idem : (s : String) → rstrip (rstrip s) ≡ rstrip s
unfolding rstrip
rstrip_idem String.[] = refl
rstrip_idem (String.◌∷◌ c s) = ground (arith, rstrip_idem s)

-- Whether a text begins with no space, so that `lstrip` leaves it.
starts_solid : String → Bool
starts_solid String.[] = true
starts_solid (String.◌∷◌ c s) = if is_space (code c) then false else true

lstrip_solid : (s : String) → starts_solid (lstrip s) ≡ true
unfolding lstrip starts_solid
lstrip_solid String.[] = refl
lstrip_solid (String.◌∷◌ c s) = ground (arith, lstrip_solid s)

rstrip_solid : (s : String) → starts_solid s ≡ true → starts_solid (rstrip s) ≡ true
unfolding rstrip starts_solid
rstrip_solid String.[] h = refl
rstrip_solid (String.◌∷◌ c s) h = ground arith

solid_lstrip : (s : String) → starts_solid s ≡ true → lstrip s ≡ s
unfolding lstrip starts_solid
solid_lstrip String.[] h = refl
solid_lstrip (String.◌∷◌ c s) h = ground arith

-- Stripping twice is stripping once: a stored value passes its own check unchanged.
pub strip_idem : (s : String) → strip (strip s) ≡ strip s
unfolding strip
strip_idem s =
    rw (solid_lstrip (rstrip (lstrip s)) (rstrip_solid (lstrip s) (lstrip_solid s)))
      (rstrip_idem (lstrip s))

-- A text without a space.
abbrev pub is_solid : ℕ → Bool
is_solid c = not (is_space c)

lstrip-every : (s : String) → every is_solid s ≡ true → lstrip s ≡ s
unfolding lstrip
lstrip-every String.[] h = refl
lstrip-every (String.◌∷◌ c s) h = ground arith

rstrip-every : (s : String) → every is_solid s ≡ true → rstrip s ≡ s
unfolding rstrip
rstrip-every String.[] h = refl
rstrip-every (String.◌∷◌ c s) h = ground (arith, rstrip-every s)

pub strip-every : (s : String) → every is_solid s ≡ true → strip s ≡ s
unfolding strip
strip-every s h = rw (lstrip-every s h) (rstrip-every s h)

pub every-implies :
    (p q : ℕ → Bool)
    → ((c : ℕ) → p c ≡ true → q c ≡ true)
    → (s : String) → every p s ≡ true
    → every q s ≡ true
every-implies p q f String.[] h = refl
every-implies p q f (String.◌∷◌ c s) h = ground (arith, f (code c), every-implies p q f s)
