-- ===== src/Srv/Acl/Rights.antt =====
-- The rights and the flags of an entry in SDDL: `_parse_rights`, `_parse_flags`, `render_rights` and
-- `render_flags` of backend/samfscon/srv/acl.py.
pub mod RoundTrip
use Prim.Native.Nat.{bit_and}
use samfscon.Prelude.{
  ℕ, zero, ◌%◌, Bool, true, false, Option, none, some, List, [], ◌∷◌, ◌++◌, ltb, ◌==◌,
  if◌then◌else◌, all, length, not,
}
use samfscon.Prelude.Text.{Text, codes, eq_text, strip, upper, starts_with, is_digit, is_empty}
use samfscon.Prelude.Decimal.{int_of}
use samfscon.Prelude.Hex.{to_hex8, int_of_hex}
use samfscon.Prelude.Dict
use samfscon.Srv.Acl.Masks.{◌|||◌, right_letters, flag_letters, inherited_ace}

-- `bool(mask & bit)`
unfoldable pub has_bit : ℕ → ℕ → Bool
has_bit mask bit = ltb 0 (bit_and mask bit)

-- The loop over the pairs of letters.
pub add_letters : ℕ → Bool → Text → ℕ × Bool
add_letters mask understood (a ∷ (b ∷ s)) = elim (Dict.get right_letters (a ∷ b ∷ [])) [
  | none ↦ add_letters mask false s
  | some value ↦ add_letters (mask ||| value) understood s
]
add_letters mask understood _ = (mask, understood)

pub hex_mask : Option ℕ → ℕ × Bool
hex_mask none = (0, false)
hex_mask (some n) = (n, true)

decimal_mask : Option (Bool × ℕ) → ℕ × Bool
decimal_mask none = (0, false)
decimal_mask (some (negative, n)) = (n, true)

-- `raw` after its first two characters
unfoldable pub after_prefix : Text → Text
after_prefix (a ∷ (b ∷ s)) = s
after_prefix _ = []

-- The cases of `_parse_rights` on the text in capitals.
pub rights_from : Text → ℕ × Bool
unfolding hex_mask decimal_mask after_prefix add_letters
rights_from raw =
    if is_empty raw
    then (0, true)
    else if starts_with (codes "0X") raw
    then hex_mask (int_of_hex (after_prefix raw))
    else if all is_digit raw
    then decimal_mask (int_of raw)
    else if length raw % 2 == 1
    then (0, false)
    else add_letters 0 true raw

pub parse_rights : Text → ℕ × Bool
unfolding rights_from
parse_rights text = rights_from (upper (strip text))

pub flags_from : ℕ → Text → ℕ
flags_from flags (a ∷ (b ∷ s)) = elim (Dict.get flag_letters (a ∷ b ∷ [])) [
  | none ↦ flags_from flags s
  | some value ↦ flags_from (flags ||| value) s
]
flags_from flags _ = flags

pub parse_flags : Text → ℕ
unfolding flags_from
parse_flags text = flags_from 0 (upper (strip text))

pub letters_for : List (Text × ℕ) → ℕ → Option Text
letters_for [] mask = none
letters_for ((letters, value) ∷ rest) mask =
    if mask == value then some letters else letters_for rest mask

pub render_rights : ℕ → Text
unfolding letters_for
render_rights mask = elim (letters_for right_letters mask) [
  | some letters ↦ letters
  | none ↦ codes "0x" ++ to_hex8 mask
]

pub letters_of : List (Text × ℕ) → ℕ → Text
unfolding has_bit
letters_of [] flags = []
letters_of ((letters, value) ∷ rest) flags =
    let out = letters_of rest flags in
    if value == inherited_ace then out else if has_bit flags value then letters ++ out else out

pub render_flags : ℕ → Text
unfolding letters_of
render_flags flags = letters_of flag_letters flags
