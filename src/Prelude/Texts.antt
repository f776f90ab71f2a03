-- ===== src/Prelude/Texts.antt =====
-- Texts as lists of code points: a Python `str`, or ASGI header bytes read as latin-1.
use Prim.Native.Nat.{ℕ, ◌+◌}
use Prim.Native.Char.{code}
use Prim.Native.String.{String}
use mathlib.Core.Path.{◌≡◌, refl}
use mathlib.Core.Logic.{◌↔◌}
use mathlib.Core.Bool.{Bool, true, false, ◌&&◌, ◌||◌}
use mathlib.Core.List.{List, [], ◌∷◌, ◌++◌}
use native.Mathlib.Omega.{arith}
use fastapi_polyrepo_templat.Prelude.Tests.{◌==◌, leb, if◌then◌else◌}

abbrev pub Text : Type 0
Text = List ℕ

-- The code points of a literal.
abbrev pub codes : String → Text
codes String.[] = []
codes (String.◌∷◌ c s) = code c ∷ codes s

unfoldable pub text_eq : Text → Text → Bool
text_eq [] [] = true
text_eq [] (d ∷ t) = false
text_eq (c ∷ s) [] = false
text_eq (c ∷ s) (d ∷ t) = (c == d) && text_eq s t

pub text_eq_iff : (s t : Text) → (text_eq s t ≡ true) ↔ (s ≡ t)
unfolding text_eq
text_eq_iff [] [] = ground arith
text_eq_iff [] (d ∷ t) = ground arith
text_eq_iff (c ∷ s) [] = ground arith
text_eq_iff (c ∷ s) (d ∷ t) = ground (arith, text_eq_iff s t)

pub text_eq_refl : (s : Text) → text_eq s s ≡ true
text_eq_refl s = (text_eq_iff s s).1 refl

-- `not s`, for a text
unfoldable pub is_empty : Text → Bool
is_empty [] = true
is_empty (c ∷ s) = false

-- `s.startswith(prefix)`
unfoldable pub starts_with : Text → Text → Bool
starts_with [] s = true
starts_with (c ∷ p) [] = false
starts_with (c ∷ p) (d ∷ s) = (c == d) && starts_with p s

-- `s.lower()` of ASCII text, such as a header's name.
lower_code : ℕ → ℕ
lower_code c = if leb b'A' c && leb c b'Z' then c + 32 else c

unfoldable pub lower : Text → Text
unfolding lower_code
lower [] = []
lower (c ∷ s) = lower_code c ∷ lower s

-- The white space of `str.strip`.
unfoldable pub is_space : ℕ → Bool
is_space c =
    (leb 9 c && leb c 13)
    || (leb 28 c && leb c 32)
    || (c == 133)
    || (c == 160)
    || (c == 5760)
    || (leb 8192 c && leb c 8202)
    || (c == 8232)
    || (c == 8233)
    || (c == 8239)
    || (c == 8287)
    || (c == 12288)

lstrip : Text → Text
lstrip [] = []
lstrip (c ∷ s) = let rest = lstrip s in if is_space c then rest else c ∷ s

rstrip : Text → Text
rstrip [] = []
rstrip (c ∷ s) = let rest = rstrip s in if is_space c && is_empty rest then [] else c ∷ rest

-- `s.strip()`
unfoldable pub strip : Text → Text
unfolding lstrip rstrip is_space is_empty
strip s = rstrip (lstrip s)

-- All of the text is white space.
abbrev pub IsBlank : Text → Type 0
IsBlank [] = Unit
IsBlank (c ∷ s) = (is_space c ≡ true) × IsBlank s

lstrip-IsBlank : (s : Text) → IsBlank s → lstrip s ≡ []
unfolding lstrip
lstrip-IsBlank [] h = refl
lstrip-IsBlank (c ∷ s) h = rw h.0 (lstrip-IsBlank s h.1)

rstrip-IsBlank : (s : Text) → rstrip s ≡ [] → IsBlank s
unfolding rstrip is_empty
rstrip-IsBlank [] h = tt
rstrip-IsBlank (c ∷ s) h = (ground arith, rstrip-IsBlank s (ground arith))

lstrip_not-IsBlank : (s : Text) → IsBlank (lstrip s) → IsBlank s
unfolding lstrip
lstrip_not-IsBlank [] h = tt
lstrip_not-IsBlank (c ∷ s) h = ground (arith, lstrip_not-IsBlank s)

-- A text strips to nothing exactly if it is blank.
pub strip-nil_iff : (s : Text) → (strip s ≡ []) ↔ IsBlank s
unfolding strip
strip-nil_iff s =
    (λ e. lstrip_not-IsBlank s (rstrip-IsBlank (lstrip s) e), λ h. rw (lstrip-IsBlank s h) refl)

-- A text starts with a prefix exactly if it is the prefix and a rest.
pub starts_with_iff : (p s : Text) → (starts_with p s ≡ true) ↔ ((rest : Text) × (s ≡ p ++ rest))
unfolding starts_with
starts_with_iff [] s = (λ e. (s, refl), λ r. refl)
starts_with_iff (c ∷ p) [] = (λ e. cc, λ (rest, e). cc)
starts_with_iff (c ∷ p) (d ∷ s) = (
  λ e. let (rest, same) = (starts_with_iff p s).0 (ground arith) in (rest, ground arith),
  λ (rest, e). ground (arith, (starts_with_iff p s).1 (rest, cc)),
)
