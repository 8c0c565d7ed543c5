-- ===== src/Srv/Acl/Parse.antt =====
-- `_split_dacl` and `parse` of backend/samfscon/srv/acl.py, with what its regular expressions match.
pub mod Marks
pub mod Sections
pub mod Bodies
pub mod Missing
pub mod RoundTrip
mod Tests
use samfscon.Prelude.{
  ℕ, Bool, true, false, Option, none, some, List, [], ◌∷◌, ◌++◌, ◌==◌, if◌then◌else◌, ◌&&◌, ◌||◌,
  any,
}
use samfscon.Prelude.Text.{Text, codes, rstrip_if, is_space, is_within, ends_with}
use samfscon.Srv.Acl.Entry.{Ace, SecurityDescriptor, parse_ace}

pub before_cons : ℕ → Option (Text × Text) → Option (Text × Text)
before_cons c none = none
before_cons c (some (w, t)) = some (c ∷ w, t)

-- `text.find` of a letter and a colon: the text before the first place, and the text after it.
pub find_mark : ℕ → Text → Option (Text × Text)
unfolding before_cons
find_mark m (c ∷ (d ∷ s)) =
    let rest = find_mark m (d ∷ s) in
    if c == m && d == b':' then some ([], s) else before_cons c rest
find_mark m _ = none

-- `(?=[...]:|$)`
pub at_end : List ℕ → Text → Bool
at_end marks [] = true
at_end marks (c ∷ []) = c == 10
at_end marks (c ∷ (d ∷ s)) = any (λ m. c == m) marks && d == b':'

pub field_cons : ℕ → Option Text → Option Text
field_cons c none = none
field_cons c (some w) = some (c ∷ w)

-- `(.+?)(?=[...]:|$)` at the start of a text
pub field : List ℕ → Text → Option Text
unfolding at_end field_cons
field marks [] = none
field marks (c ∷ s) =
    let rest = field marks s in
    if c == 10 then none else if at_end marks s then some (c ∷ []) else field_cons c rest

pub first_found : Option Text → Option Text → Option Text
first_found none rest = rest
first_found (some w) rest = some w

-- `re.search` of a letter, a colon and a field.
pub search_field : ℕ → List ℕ → Text → Option Text
unfolding field first_found
search_field m marks (c ∷ (d ∷ s)) =
    let rest = search_field m marks (d ∷ s) in
    if c == m && d == b':' then first_found (field marks s) rest else rest
search_field m marks _ = none

-- The letters of the sections that may follow the owner, and those that may follow the group.
abbrev pub after_owner : List ℕ
after_owner = b'G' ∷ b'D' ∷ b'S' ∷ []

abbrev pub after_group : List ℕ
after_group = b'D' ∷ b'S' ∷ []

-- `_OWNER_RE.search`
pub owner_of : Text → Option Text
unfolding search_field
owner_of sddl = search_field b'O' after_owner sddl

-- `_GROUP_RE.search`
pub group_of : Text → Option Text
unfolding search_field
group_of sddl = search_field b'G' after_group sddl

-- The characters up to `(` or `S`, and what follows.
pub until_body : Text → Text × Text
until_body [] = ([], [])
until_body (c ∷ s) =
    let (w, t) = until_body s in if c == b'(' || c == b'S' then ([], c ∷ s) else (c ∷ w, t)

-- What is read since the last `(`, if it is still open.
pub next_open : Option Text → ℕ → Option Text
next_open state c =
    if c == b'('
    then some []
    else if c == b')'
    then none
    else elim state [ none ↦ none | some w ↦ some (w ++ c ∷ []) ]

pub note_closed : Option Text → ℕ → List Text → List Text
note_closed none c rest = rest
note_closed (some w) c rest = if c == b')' then w ∷ rest else rest

-- `_ACE_RE.finditer`
pub ace_texts : Option Text → Text → List Text
unfolding next_open note_closed
ace_texts state [] = []
ace_texts state (c ∷ s) = note_closed state c (ace_texts (next_open state c) s)

pub record Split : Type 0 where
  pub prefix : Text
  pub aces : List Text
  pub suffix : Text

pub split_sacl : Text → Option (Text × Text) → Text × Text
split_sacl rest none = (rest, [])
split_sacl rest (some (body, after)) = (body, codes "S:" ++ after)

pub split_at : Option (Text × Text) → Option Split
unfolding until_body split_sacl ace_texts find_mark
split_at none = none
split_at (some (before, after)) =
    let (controls, rest) = until_body after in
    let (body, suffix) = split_sacl rest (find_mark b'S' rest) in
    some (record {
      prefix = before ++ (codes "D:" ++ controls);
      aces = ace_texts none body;
      suffix = suffix;
    })

-- `_split_dacl`; without a DACL there is no result.
pub split_dacl : Text → Option Split
unfolding split_at
split_dacl sddl = split_at (find_mark b'D' sddl)

-- The entries that have six fields.
pub parse_aces : List Text → List Ace
parse_aces [] = []
parse_aces (text ∷ texts) =
    let rest = parse_aces texts in elim (parse_ace text) [ none ↦ rest | some ace ↦ ace ∷ rest ]

pub is_protected : Text → Bool
is_protected prefix = is_within (codes "D:P") prefix || ends_with b'P' (rstrip_if is_space prefix)

pub descriptor_of : Text → Option Split → Option SecurityDescriptor
unfolding owner_of group_of parse_aces is_protected
descriptor_of sddl none = none
descriptor_of sddl (some split) = some (record {
  sddl = sddl;
  owner = owner_of sddl;
  group = group_of sddl;
  aces = parse_aces split.aces;
  protected = is_protected split.prefix;
})

-- `parse`; the refusal `no_dacl` is no result.
pub parse : Text → Option SecurityDescriptor
unfolding split_dacl descriptor_of
parse sddl = descriptor_of sddl (split_dacl sddl)
