-- ===== src/Core/Errors/Patterns.antt =====
-- The patterns of backend/samfscon/core/errors.py: symbols of a status, and the texts of Kerberos, of
-- which case is ignored.
use samfscon.Prelude.{
  ℕ, Bool, true, false, Option, none, some, List, [], ◌∷◌, ◌++◌, ◌==◌, leb, if◌then◌else◌, ◌&&◌,
  ◌||◌, not, any,
}
use samfscon.Prelude.Text.{Text, codes, eq_text, lower, is_digit, is_empty, is_within}

-- `[A-Z0-9_]`
unfoldable pub is_symbol_char : ℕ → Bool
is_symbol_char c = is_digit c || (leb b'A' c && leb c b'Z') || c == b'_'

unfoldable pub take_symbol : Text → Text
unfolding is_symbol_char
take_symbol [] = []
take_symbol (c ∷ s) = let rest = take_symbol s in if is_symbol_char c then c ∷ rest else []

-- The text after a prefix, if it starts with it.
unfoldable pub after : Text → Text → Option Text
after [] s = some s
after (p ∷ ps) [] = none
after (p ∷ ps) (c ∷ s) = let rest = after ps s in if p == c then rest else none

unfoldable pub symbol_here : Text → Option Text → Option Text
unfolding take_symbol
symbol_here prefix none = none
symbol_here prefix (some rest) =
    let symbol = take_symbol rest in if is_empty symbol then none else some (prefix ++ symbol)

-- `_NT_STATUS_RE.search` and `_WERROR_RE.search`, by the prefix of the symbols.
unfoldable pub find_symbol : Text → Text → Option Text
unfolding symbol_here after
find_symbol prefix [] = none
find_symbol prefix (c ∷ s) =
    let rest = find_symbol prefix s in
    elim (symbol_here prefix (after prefix (c ∷ s))) [ none ↦ rest | some symbol ↦ some symbol ]

-- `\w`
pub is_word_char : ℕ → Bool
is_word_char c = is_digit c || (leb b'a' c && leb c b'z') || (leb b'A' c && leb c b'Z') || c == b'_'

-- Whether a text starts a word, for the character before it.
pub starts_no_word : Text → Bool
unfolding is_word_char
starts_no_word [] = true
starts_no_word (c ∷ s) = not (is_word_char c)

-- The text up to the end of its line.
pub first_line : Text → Text
first_line [] = []
first_line (c ∷ s) = let rest = first_line s in if c == 10 then [] else c ∷ rest

pub phrase_after : Text → Option Text → Bool
unfolding starts_no_word first_line
phrase_after phrase none = false
phrase_after phrase (some rest) = starts_no_word rest && is_within phrase (first_line rest)

-- `\bword\b.*?phrase`; the flag tells that no word character stands before the text.
pub word_then : Text → Text → Bool → Text → Bool
unfolding phrase_after after is_word_char
word_then word phrase fresh [] = false
word_then word phrase fresh (c ∷ s) =
    let rest = word_then word phrase (not (is_word_char c)) s in
    (fresh && phrase_after phrase (after word (c ∷ s))) || rest

abbrev pub unknown_principal : Text
unknown_principal = codes "not found in kerberos database"

pub has_any : List Text → Text → Bool
has_any phrases text = any (λ p. is_within p text) phrases

-- `(contact|find|reach) any? ?kdc` after a word.
pub unreachable_kdc : List Text → List Text
unreachable_kdc [] = []
unreachable_kdc (verb ∷ verbs) =
    (verb ++ codes " ankdc")
    ∷ ((verb ++ codes " an kdc")
        ∷ ((verb ++ codes " anykdc") ∷ ((verb ++ codes " any kdc") ∷ unreachable_kdc verbs)))

-- The pattern of a name, on a text in small letters.
pub matches_name : Text → Text → Bool
unfolding has_any unreachable_kdc word_then
matches_name name text =
    if eq_text name (codes "clock_skew")
    then is_within (codes "clock skew") text
    else if eq_text name (codes "preauthentication")
    then has_any (codes "preauthentication fail" ∷ (codes "pre-authentication fail" ∷ [])) text
    else if eq_text name (codes "kdc")
    then has_any
        (unreachable_kdc (
          codes "cannot contact"
          ∷ codes "cannot find"
          ∷ codes "cannot reach"
          ∷ codes "unable to contact"
          ∷ codes "unable to find"
          ∷ codes "unable to reach"
          ∷ []))
        text
    else if eq_text name (codes "client")
    then word_then (codes "client") unknown_principal true text
    else if eq_text name (codes "service")
    then word_then (codes "server") unknown_principal true text
      || word_then (codes "principal") unknown_principal true text
    else has_any
        (codes "ticket expired"
          ∷ codes "credential expired"
          ∷ codes "credentials expired"
          ∷ codes "credential have expired"
          ∷ codes "credentials have expired"
          ∷ [])
        text

-- `pattern.search`
pub matches : Text → Text → Bool
unfolding matches_name
matches name text = matches_name name (lower text)
