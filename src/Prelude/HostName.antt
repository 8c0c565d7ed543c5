-- ===== src/Prelude/HostName.antt =====
-- The regular expressions of host names and address prefixes, which
-- backend/samfscon/core/findings.py and backend/samfscon/srv/globalconf.py have in common.
use Prim.Native.Nat.{ℕ}
use mathlib.Core.Bool.{Bool, false, ◌&&◌, ◌||◌}
use mathlib.Core.List.{List, [], ◌∷◌}
use samfscon.Prelude.Tests.{leb, ◌==◌, if◌then◌else◌}
use samfscon.Prelude.Lists.{all, length}
use samfscon.Prelude.Text.{Text, is_digit}
use samfscon.Prelude.Words.{split_on}

-- `[A-Za-z0-9]`
pub is_alnum : ℕ → Bool
unfolding is_digit
is_alnum c = is_digit c || (leb b'A' c && leb c b'Z') || (leb b'a' c && leb c b'z')

pub ends_well : Text → Bool
unfolding is_alnum
ends_well [] = false
ends_well (c ∷ []) = is_alnum c
ends_well (c ∷ (d ∷ s)) = ends_well (d ∷ s)

pub starts_well : Text → Bool
unfolding is_alnum
starts_well [] = false
starts_well (c ∷ s) = is_alnum c

-- `_LABEL`
pub is_label : Text → Bool
unfolding ends_well starts_well
is_label s = all (λ c. is_alnum c || c == b'-') s && starts_well s && ends_well s

pub without_first_dot : Text → Text
without_first_dot [] = []
without_first_dot (c ∷ s) = if c == b'.' then s else c ∷ s

pub without_last_dot : Text → Text
without_last_dot [] = []
without_last_dot (c ∷ []) = if c == b'.' then [] else c ∷ []
without_last_dot (c ∷ (d ∷ s)) = c ∷ without_last_dot (d ∷ s)

-- Labels between dots, with at most one more dot in front and one at the end.
unfoldable pub is_host_name : Text → Bool
unfolding without_first_dot without_last_dot
is_host_name s =
    let (field, fields) = split_on b'.' (without_last_dot (without_first_dot s)) in
    is_label field && all is_label fields

is_short_number : Text → Bool
is_short_number s = all is_digit s && leb 1 (length s) && leb (length s) 3

-- One to three short numbers, each followed by a dot.
are_numbers : List Text → Bool
unfolding is_short_number
are_numbers [] = false
are_numbers (last ∷ []) = all (λ c. false) last
are_numbers (f ∷ (g ∷ fs)) = is_short_number f && are_numbers (g ∷ fs)

-- `^\d{1,3}(\.\d{1,3}){0,2}\.$`
unfoldable pub is_address_prefix : Text → Bool
unfolding are_numbers
is_address_prefix s =
    let (field, fields) = split_on b'.' s in
    are_numbers (field ∷ fields) && leb 1 (length fields) && leb (length fields) 3
