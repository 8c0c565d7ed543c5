-- ===== src/Prelude/Text.antt =====
-- Python's `str` as the list of its code points, and the methods of `str` that the program calls.
-- Case mapping is that of ASCII; the white space is that of `str.strip`.
use Prim.Native.Char.{code}
use Prim.Native.Nat.{ℕ, ◌+◌, ◌-◌}
use Prim.Native.String.{String}
use mathlib.Core.Path.{◌≡◌, refl}
use mathlib.Core.Logic.{◌≢◌, ◌↔◌}
use mathlib.Core.Bool.{Bool, true, false, ◌&&◌, ◌||◌}
use mathlib.Core.List.{List, [], ◌∷◌, map}
use native.Mathlib.Omega.{arith}
use samfscon.Prelude.Tests.{leb, ◌==◌, if◌then◌else◌}

abbrev pub Text : Type 0
Text = List ℕ

-- The code points of a text literal.
abbrev pub codes : String → Text
codes String.[] = []
codes (String.◌∷◌ c s) = code c ∷ codes s

unfoldable pub eq_text : Text → Text → Bool
eq_text [] [] = true
eq_text (x ∷ xs) (y ∷ ys) = x == y && eq_text xs ys
eq_text _ _ = false

pub eq_text_iff : (s t : Text) → (eq_text s t ≡ true) ↔ (s ≡ t)
unfolding eq_text
eq_text_iff [] [] = ground arith
eq_text_iff [] (y ∷ t) = ground arith
eq_text_iff (x ∷ s) [] = ground arith
eq_text_iff (x ∷ s) (y ∷ t) = ground (arith, eq_text_iff s t)

pub eq_text_refl : (s : Text) → eq_text s s ≡ true
eq_text_refl s = (eq_text_iff s s).1 refl

pub eq_text_ne : (s t : Text) → s ≢ t → eq_text s t ≡ false
eq_text_ne s t h = ground (arith, eq_text_iff s t)

pub texts_differ : (s t : Text) → eq_text s t ≡ false → s ≢ t
texts_differ s t h = λ e. let same = (eq_text_iff s t).1 e in absurd (ground arith)

unfoldable pub is_space : ℕ → Bool
is_space c =
    (leb 9 c && leb c 13)
    || (leb 28 c && leb c 32)
    || c == 133
    || c == 160
    || c == 5760
    || (leb 8192 c && leb c 8202)
    || c == 8232
    || c == 8233
    || c == 8239
    || c == 8287
    || c == 12288

unfoldable pub is_digit : ℕ → Bool
is_digit c = leb b'0' c && leb c b'9'

unfoldable pub to_lower : ℕ → ℕ
to_lower c = if leb b'A' c && leb c b'Z' then c + 32 else c

unfoldable pub to_upper : ℕ → ℕ
to_upper c = if leb b'a' c && leb c b'z' then c - 32 else c

unfoldable pub lower : Text → Text
unfolding to_lower
lower s = map to_lower s

unfoldable pub upper : Text → Text
unfolding to_upper
upper s = map to_upper s

-- `str.lstrip`, `str.rstrip` and `str.strip` of the characters that a test accepts.
unfoldable pub lstrip_if : (ℕ → Bool) → Text → Text
lstrip_if p [] = []
lstrip_if p (c ∷ s) = if p c then lstrip_if p s else c ∷ s

unfoldable pub rstrip_if : (ℕ → Bool) → Text → Text
rstrip_if p [] = []
rstrip_if p (c ∷ s) =
    let rest = rstrip_if p s in elim rest [ [] ↦ if p c then [] else c ∷ [] | d ∷ r ↦ c ∷ d ∷ r ]

unfoldable pub strip : Text → Text
unfolding lstrip_if rstrip_if is_space
strip s = rstrip_if is_space (lstrip_if is_space s)

unfoldable pub starts_with : Text → Text → Bool
starts_with [] s = true
starts_with (c ∷ p) [] = false
starts_with (c ∷ p) (d ∷ s) = c == d && starts_with p s

unfoldable pub is_empty : Text → Bool
is_empty [] = true
is_empty (c ∷ s) = false

-- `part in text`
unfoldable pub is_within : Text → Text → Bool
unfolding starts_with is_empty
is_within part [] = is_empty part
is_within part (c ∷ s) = starts_with part (c ∷ s) || is_within part s

-- `text.endswith` of one character
unfoldable pub ends_with : ℕ → Text → Bool
ends_with e [] = false
ends_with e (c ∷ []) = c == e
ends_with e (c ∷ (d ∷ s)) = ends_with e (d ∷ s)
