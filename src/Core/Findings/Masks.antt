-- ===== src/Core/Findings/Masks.antt =====
-- `_world_writable_masks` of backend/samfscon/core/findings.py, with `int(text, 8)`.
use Prim.Native.Nat.{bit_and}
use samfscon.Prelude.{
  ℕ, zero, suc, ◌+◌, ◌-◌, ◌*◌, Bool, true, false, Option, none, some, List, [], ◌∷◌, ltb, leb, ◌==◌,
  if◌then◌else◌, ◌&&◌, ◌||◌, not,
}
use samfscon.Prelude.Text.{Text, codes, strip}
use samfscon.Prelude.Dict
use samfscon.Prelude.Dict.{Dict}

-- What one character does to the number so far; the flag says that an underscore may follow.
pub octal_step : ℕ → Bool → ℕ → Option (ℕ × Bool)
octal_step acc after c =
    if leb b'0' c && leb c b'7'
    then some (acc * 8 + (c - 48), true)
    else if c == b'_' && after
    then some (acc, false)
    else none

pub octal_digits : ℕ → Bool → Text → Option ℕ
unfolding octal_step
octal_digits acc after [] = if after then some acc else none
octal_digits acc after (c ∷ s) = elim (octal_step acc after c) [
  | none ↦ none
  | some (acc', after') ↦ octal_digits acc' after' s
]

-- The digits, with or without `0o` in front, after which an underscore may stand.
pub octal_magnitude : Text → Option ℕ
octal_magnitude (z ∷ (o ∷ (c ∷ s))) =
    if z == b'0' && (o == b'o' || o == b'O')
    then octal_digits 0 true (c ∷ s)
    else octal_digits 0 false (z ∷ (o ∷ (c ∷ s)))
octal_magnitude s = octal_digits 0 false s

pub signed : Bool → Option ℕ → Option (Bool × ℕ)
signed negative none = none
signed negative (some n) = some (negative, n)

pub octal_signed : Text → Option (Bool × ℕ)
unfolding octal_magnitude signed
octal_signed [] = none
octal_signed (c ∷ s) =
    if c == b'-'
    then signed true (octal_magnitude s)
    else if c == b'+'
    then signed false (octal_magnitude s)
    else signed false (octal_magnitude (c ∷ s))

-- `int(raw.strip(), 8)`: whether it is negative, and its magnitude.
pub int_of_octal : Text → Option (Bool × ℕ)
unfolding octal_signed
int_of_octal raw = octal_signed (strip raw)

abbrev pub world_write : ℕ
world_write = 2

-- `mode & WORLD_WRITE` of a number in two's complement.
pub is_world_writable : Bool × ℕ → Bool
is_world_writable (negative, zero) = false
is_world_writable (negative, suc n) =
    if negative then not (ltb 0 (bit_and n world_write)) else ltb 0 (bit_and (suc n) world_write)

abbrev pub mask_options : List Text
mask_options =
    codes "create mask"
    ∷ codes "directory mask"
    ∷ codes "force create mode"
    ∷ codes "force directory mode"
    ∷ []

-- The options that let everybody write, with their values, and those that are no number.
pub record MaskReport : Type 0 where
  pub options : Dict Text
  pub unparsed : List Text

pub report_mask : Text → Text → Option (Bool × ℕ) → MaskReport → MaskReport
unfolding is_world_writable
report_mask option raw none rest = record rest { unparsed = option ∷ rest.unparsed }
report_mask option raw (some mode) rest =
    if is_world_writable mode
    then record rest { options = (option, strip raw) ∷ rest.options }
    else rest

pub report_masks : Dict Text → List Text → MaskReport
unfolding report_mask int_of_octal
report_masks stored [] = record { options = []; unparsed = [] }
report_masks stored (option ∷ options) =
    let rest = report_masks stored options in
    elim (Dict.get stored option) [
      | none ↦ rest
      | some raw ↦ report_mask option raw (int_of_octal raw) rest
    ]

pub world_writable_masks : Dict Text → MaskReport
unfolding report_masks
world_writable_masks stored = report_masks stored mask_options
