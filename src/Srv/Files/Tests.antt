-- ===== src/Srv/Files/Tests.antt =====
-- Examples of backend/samfscon/srv/files.py.
use samfscon.Prelude.{some, List, ◌≡◌, refl, All}
use samfscon.Prelude.Text.{Text, codes, strip, lstrip_if, rstrip_if, is_space, is_empty, eq_text}
use samfscon.Prelude.Words.{words}
use samfscon.Srv.Files.{
  is_backslash, backslashed, trim_backslashes, join_parts, is_here, is_parent, parts_of, trimmed,
  normalise,
}
use samfscon.Srv.Files.Inside.{IsBelow, normalise-IsBelow}

normalise-IsBelow_example :
    (parts : List Text) × (codes "Projects\\2026" ≡ join_parts parts) × All IsBelow parts
unfolding normalise parts_of trimmed backslashed trim_backslashes is_backslash join_parts is_here
    is_parent strip lstrip_if rstrip_if is_space is_empty eq_text words
normalise-IsBelow_example =
    normalise-IsBelow (some (codes " /Projects/./2026/")) (codes "Projects\\2026") refl
