-- ===== src/Srv/Files.antt =====
-- The paths of backend/samfscon/srv/files.py: `normalise` and `join`.
pub mod Inside
mod Tests
use samfscon.Prelude.{
  ℕ, Bool, true, false, Option, none, some, List, [], ◌∷◌, ◌++◌, ◌==◌, if◌then◌else◌, map, keep,
  any, not,
}
use samfscon.Prelude.Text.{Text, codes, eq_text, strip, lstrip_if, rstrip_if, is_empty}
use samfscon.Prelude.Words.{words}

pub is_backslash : ℕ → Bool
is_backslash c = c == 92

-- `text.replace("/", "\\")`
pub backslashed : Text → Text
backslashed s = map (λ c. if c == b'/' then 92 else c) s

-- `text.strip("\\")`
pub trim_backslashes : Text → Text
unfolding is_backslash
trim_backslashes s = rstrip_if is_backslash (lstrip_if is_backslash s)

-- `"\\".join(parts)`
pub join_parts : List Text → Text
join_parts [] = []
join_parts (p ∷ []) = p
join_parts (p ∷ (q ∷ ps)) = p ++ 92 ∷ join_parts (q ∷ ps)

pub is_here : Text → Bool
is_here part = eq_text part (codes ".")

pub is_parent : Text → Bool
is_parent part = eq_text part (codes "..")

-- The components that are neither empty nor `.`.
pub parts_of : Text → List Text
unfolding is_here
parts_of text = keep (λ p. not (is_here p)) (words is_backslash text)

pub trimmed : Option Text → Text
unfolding backslashed trim_backslashes
trimmed none = []
trimmed (some path) = trim_backslashes (backslashed (strip path))

-- `none` is the refusal `path_escapes_share`.
pub normalise : Option Text → Option Text
unfolding is_parent
normalise path =
    let text = trimmed path in
    let parts = parts_of text in
    if is_empty text then some [] else if any is_parent parts then none else some (join_parts parts)

-- `join`, which leaves out empty parts.
pub join : List Text → Text
join parts = join_parts (map trim_backslashes (keep (λ p. not (is_empty p)) parts))
