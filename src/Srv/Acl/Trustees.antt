-- ===== src/Srv/Acl/Trustees.antt =====
-- Whom an entry is for: `SDDL_ALIASES`, `canonical_sid` and `unix_identity` of
-- backend/samfscon/srv/acl.py.
pub mod Canonical
use samfscon.Prelude.{Bool, Option, none, some, List, [], ◌∷◌, ◌==◌, if◌then◌else◌}
use samfscon.Prelude.Text.{Text, codes, strip, upper, starts_with}
use samfscon.Prelude.Dict
use samfscon.Prelude.Dict.{Dict}

-- `none` is an account of the domain, which only the server can name.
abbrev pub sddl_aliases : Dict (Option Text)
sddl_aliases =
    (codes "WD", some (codes "S-1-1-0"))
    ∷ (codes "AN", some (codes "S-1-5-7"))
    ∷ (codes "AU", some (codes "S-1-5-11"))
    ∷ (codes "IU", some (codes "S-1-5-4"))
    ∷ (codes "NU", some (codes "S-1-5-2"))
    ∷ (codes "SY", some (codes "S-1-5-18"))
    ∷ (codes "LS", some (codes "S-1-5-19"))
    ∷ (codes "NS", some (codes "S-1-5-20"))
    ∷ (codes "CO", some (codes "S-1-3-0"))
    ∷ (codes "CG", some (codes "S-1-3-1"))
    ∷ (codes "OW", some (codes "S-1-3-4"))
    ∷ (codes "BA", some (codes "S-1-5-32-544"))
    ∷ (codes "BU", some (codes "S-1-5-32-545"))
    ∷ (codes "BG", some (codes "S-1-5-32-546"))
    ∷ (codes "PU", some (codes "S-1-5-32-547"))
    ∷ (codes "BO", some (codes "S-1-5-32-551"))
    ∷ (codes "DA", none)
    ∷ (codes "DU", none)
    ∷ (codes "DG", none)
    ∷ []

pub sid_of : Option (Option Text) → Option Text
sid_of none = none
sid_of (some sid) = sid

pub canonical_sid : Text → Option Text
unfolding sid_of
canonical_sid trustee =
    let text = strip trustee in
    if starts_with (codes "S-") (upper text)
    then some text
    else sid_of (Dict.get sddl_aliases (upper text))

pub data UnixIdentity : Type 0 where
  unix_user unix_group : Text → UnixIdentity

-- The text after a prefix, if it has the prefix.
after_prefix : Text → Text → Option Text
after_prefix [] s = some s
after_prefix (p ∷ ps) [] = none
after_prefix (p ∷ ps) (c ∷ s) = let rest = after_prefix ps s in if p == c then rest else none

pub unix_identity : Text → Option UnixIdentity
unfolding after_prefix
unix_identity sid = elim (after_prefix (codes "S-1-22-1-") sid) [
  | some id ↦ some (unix_user id)
  | none ↦ elim (after_prefix (codes "S-1-22-2-") sid) [
    | some id ↦ some (unix_group id)
    | none ↦ none
  ]
]
