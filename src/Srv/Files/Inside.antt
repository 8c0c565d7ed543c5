-- ===== src/Srv/Files/Inside.antt =====
-- A path that `normalise` returns stays inside its share.
use samfscon.Prelude.{
  false, Option, some, List, [], ◌∷◌, ◌≡◌, not, any, keep, All, arith, Bool-cases, inl, inr,
}
use samfscon.Prelude.Text.{Text, is_empty}
use samfscon.Prelude.Words.{IsWord, words, words-IsWord}
use samfscon.Srv.Files.{is_backslash, join_parts, is_here, is_parent, parts_of, trimmed, normalise}

-- A component below its directory: it is not empty, has no backslash, and is neither `.` nor `..`.
abbrev pub IsBelow : Text → Type 0
IsBelow p = IsWord is_backslash p × (is_here p ≡ false) × (is_parent p ≡ false)

kept-IsBelow :
    (ws : List Text)
    → All (IsWord is_backslash) ws
    → any is_parent (keep (λ p. not (is_here p)) ws) ≡ false
    → All IsBelow (keep (λ p. not (is_here p)) ws)
kept-IsBelow [] h e = tt
kept-IsBelow (w ∷ ws) h e = elim (Bool-cases (is_here w)) [
  | inl here ↦ rw here (kept-IsBelow ws h.1 (rw here at e))
  | inr named ↦
      let both = rw named at e in
      rw named ((h.0, named, ground arith), kept-IsBelow ws h.1 (ground arith))
]

-- Every path that `normalise` returns is a sequence of components joined by single backslashes, each
-- of them below its directory: not empty, without a backslash, and neither `.` nor `..`. The empty
-- sequence is the root of the share.
pub normalise-IsBelow :
    (path : Option Text) (r : Text)
    → normalise path ≡ some r
    → (parts : List Text) × (r ≡ join_parts parts) × All IsBelow parts
unfolding normalise parts_of join_parts
normalise-IsBelow path r e = elim (Bool-cases (is_empty (trimmed path))) [
  | inl empty ↦ ([], ground arith, tt)
  | inr filled ↦ elim (Bool-cases (any is_parent (parts_of (trimmed path)))) [
    | inl escapes ↦ absurd (ground arith)
    | inr inside ↦ (
      parts_of (trimmed path),
      ground arith,
      kept-IsBelow (words is_backslash (trimmed path)) (words-IsWord is_backslash (trimmed path))
          inside,
    )
  ]
]
