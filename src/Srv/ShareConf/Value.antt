-- ===== src/Srv/ShareConf/Value.antt =====
-- `validate_value` of backend/samfscon/srv/shareconf.py: one option value, normalised or refused.
pub mod Idempotent
pub mod Canonical
use samfscon.Prelude.{
  ℕ, zero, suc, ◌+◌, ◌-◌, Bool, true, false, Option, none, some, List, [], ◌∷◌, ◌++◌, ltb, leb,
  ◌==◌, if◌then◌else◌, all, ◌&&◌, ◌||◌, length,
}
use samfscon.Prelude.Text.{Text, codes, eq_text, lower, strip, is_space, starts_with}
use samfscon.Prelude.Words.{words, unwords}
use samfscon.Prelude.Decimal.{to_decimal, int_of}
use samfscon.Srv.ShareConf.Types.{OptionType, bool, text, list, mode, int, choice}

-- `InvalidRequest` with the code `invalid_option_value` or `option_not_editable`, and the name of
-- the option.
pub data Error : Type 0 where
  invalid_option_value option_not_editable : Text → Error

pub data Result {ℓ} (A : Type ℓ) : Type ℓ where
  ok : A → Result A
  err : Error → Result A

-- `_YES` and `_NO`
unfoldable pub is_yes : Text → Bool
is_yes s =
    eq_text s (codes "yes")
    || eq_text s (codes "true")
    || eq_text s (codes "1")
    || eq_text s (codes "on")

unfoldable pub is_no : Text → Bool
is_no s =
    eq_text s (codes "no")
    || eq_text s (codes "false")
    || eq_text s (codes "0")
    || eq_text s (codes "off")

unfoldable pub is_octal : ℕ → Bool
is_octal c = leb b'0' c && leb c b'7'

-- `_MODE_RE`: three or four octal digits, or five of which the first is 0. The text is stripped, so
-- that `$` matches at its end alone.
unfoldable pub is_mode : Text → Bool
unfolding is_octal
is_mode s =
    all is_octal s
    && (length s == 3 || length s == 4 || (length s == 5 && starts_with (codes "0") s))

pub zeros : ℕ → Text
zeros zero = []
zeros (suc n) = b'0' ∷ zeros n

-- `text.rjust(width, "0")`
unfoldable pub rjust_zero : Text → ℕ → Text
unfolding zeros
rjust_zero s width = zeros (width - length s) ++ s

-- `text.zfill(width)`, which leaves a sign in front.
pub zfill : Text → ℕ → Text
unfolding zeros
zfill [] width = zeros width
zfill (c ∷ s) width =
    if c == b'+' || c == b'-'
    then c ∷ zeros (width - length (c ∷ s)) ++ s
    else rjust_zero (c ∷ s) width

-- The separators of `re.split(r"[,\s]+", ...)`
unfoldable pub is_separator : ℕ → Bool
is_separator c = c == b',' || is_space c

unfoldable pub find_choice : List Text → Text → Option Text
find_choice [] s = none
find_choice (c ∷ cs) s = if eq_text (lower c) (lower s) then some c else find_choice cs s

pub int_value : Text → Option (Bool × ℕ) → Result Text
int_value name none = err (invalid_option_value name)
int_value name (some (negative, n)) =
    if negative && ltb 0 n then err (invalid_option_value name) else ok (to_decimal n)

-- The checks of one kind of option, on the stripped value.
unfoldable pub validate_text : Text → OptionType → List Text → Text → Result Text
unfolding is_yes is_no is_mode rjust_zero zfill int_value
validate_text name bool choices s =
    if is_yes (lower s)
    then ok (codes "yes")
    else if is_no (lower s)
    then ok (codes "no")
    else err (invalid_option_value name)
validate_text name mode choices s =
    if is_mode s
    then ok (if starts_with (codes "0") s then rjust_zero s 4 else zfill s 4)
    else err (invalid_option_value name)
validate_text name int choices s = int_value name (int_of s)
validate_text name choice choices s = elim (find_choice choices s) [
  | none ↦ err (invalid_option_value name)
  | some c ↦ ok c
]
validate_text name list choices s = ok (unwords (words is_separator s))
validate_text name text choices s = ok s

unfoldable pub validate_value : Text → OptionType → List Text → Text → Result Text
validate_value name type choices value = validate_text name type choices (strip value)
