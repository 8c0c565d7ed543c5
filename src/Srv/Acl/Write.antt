-- ===== src/Srv/Acl/Write.antt =====
-- `domain_relative_trustees`, `to_descriptor`, `take_ownership`, `write_path_sddl`, `probe_access` and
-- `translate_access` of backend/samfscon/srv/acl.py. The parser of Samba and the calls of the tree are parameters.
pub mod Domain
pub mod Owner
mod Tests
use samfscon.Prelude.{
  ℕ, Bool, true, false, Option, none, some, List, [], ◌∷◌, ◌++◌, ◌⊎◌, inl, inr, if◌then◌else◌, ◌&&◌,
  not, any, map,
}
use samfscon.Prelude.Text.{Text, codes, eq_text, strip, upper, is_empty}
use samfscon.Prelude.Dict
use samfscon.Prelude.Dict.{Dict}
use samfscon.Core.Errors.Types.{ErrorClass, permission_denied}
use samfscon.Core.Errors.Translate.{Failure, translate}
use samfscon.Srv.Acl.Masks.{◌|||◌, file_write_data, file_append_data, write_dac, write_owner}
use samfscon.Srv.Acl.Entry.{Ace, SecurityDescriptor}
use samfscon.Srv.Acl.Parse.{parse}

-- `DOMAIN_RELATIVE_ALIASES`
abbrev pub domain_relative_aliases : List Text
domain_relative_aliases =
    codes "DA"
    ∷ codes "DU"
    ∷ codes "DG"
    ∷ codes "DD"
    ∷ codes "DC"
    ∷ codes "EA"
    ∷ codes "SA"
    ∷ codes "CA"
    ∷ codes "PA"
    ∷ codes "RS"
    ∷ codes "RO"
    ∷ codes "CN"
    ∷ codes "AP"
    ∷ codes "KA"
    ∷ codes "EK"
    ∷ codes "LA"
    ∷ codes "LG"
    ∷ []

pub is_listed : List Text → Text → Bool
is_listed texts t = any (λ u. eq_text u t) texts

-- `(candidate or "").strip().upper()`
pub token_of : Option Text → Text
token_of none = []
token_of (some t) = upper (strip t)

pub is_relative : Option Text → Bool
unfolding is_listed token_of
is_relative candidate = is_listed domain_relative_aliases (token_of candidate)

pub candidates_of : SecurityDescriptor → List (Option Text)
candidates_of d = d.owner ∷ (d.group ∷ map (λ (a : Ace). some a.trustee) d.aces)

pub note_relative : List Text → Option Text → List Text
unfolding is_relative
note_relative found candidate =
    if is_relative candidate && not (is_listed found (token_of candidate))
    then found ++ token_of candidate ∷ []
    else found

pub relative_from : List Text → List (Option Text) → List Text
unfolding note_relative
relative_from found [] = found
relative_from found (k ∷ candidates) = relative_from (note_relative found k) candidates

-- `domain_relative_trustees`, of the descriptor that was parsed.
pub domain_relative_trustees : SecurityDescriptor → List Text
unfolding relative_from candidates_of
domain_relative_trustees d = relative_from [] (candidates_of d)

-- What `to_descriptor` returns or raises.
pub data Outcome (D : Type 0) : Type 0 where
  no_dacl : Outcome D
  domain_unknown : List Text → Outcome D
  invalid_sddl : Text → Outcome D
  made : D → Outcome D

-- `domain or "S-1-5-32"`
pub domain_or_builtin : Option Text → Text
domain_or_builtin none = codes "S-1-5-32"
domain_or_builtin (some []) = codes "S-1-5-32"
domain_or_builtin (some (c ∷ s)) = c ∷ s

module _ {D : Type 0} (from_sddl : Text → Text → Text ⊎ D) where
  made_or_invalid : Text ⊎ D → Outcome D
  made_or_invalid (inl detail) = invalid_sddl detail
  made_or_invalid (inr d) = made d

  pub expand : Text → List Text → Option Text → Outcome D
  unfolding made_or_invalid domain_or_builtin
  expand sddl (r ∷ relative) none = domain_unknown (r ∷ relative)
  expand sddl relative domain = made_or_invalid (from_sddl sddl (domain_or_builtin domain))

  -- The refusal of `parse`, or the rest.
  pub expand_parsed : Text → Option Text → Option SecurityDescriptor → Outcome D
  unfolding expand domain_relative_trustees
  expand_parsed sddl domain none = no_dacl
  expand_parsed sddl domain (some d) = expand sddl (domain_relative_trustees d) domain

  -- `to_descriptor`
  pub to_descriptor : Option Text → Text → Outcome D
  unfolding expand_parsed
  to_descriptor domain sddl = expand_parsed sddl domain (parse sddl)

-- `if flag` of a flag that may be `None`
pub is_set : Option Bool → Bool
is_set none = false
is_set (some b) = b

-- `SECINFO_OWNER` and the others
abbrev pub secinfo_owner : ℕ
secinfo_owner = 0x1

abbrev pub secinfo_group : ℕ
secinfo_group = 0x2

abbrev pub secinfo_dacl : ℕ
secinfo_dacl = 0x4

abbrev pub secinfo_protected_dacl : ℕ
secinfo_protected_dacl = 0x80000000

-- What a write comes to: a refusal, or the call of `tree.set_acl` with its path, descriptor and parts.
pub data Written (D : Type 0) : Type 0 where
  not_sent : Outcome D → Written D
  set_acl : Text → D → ℕ → Written D

pub send : {D : Type 0} → Text → ℕ → Outcome D → Written D
send path info (made d) = set_acl path d info
send path info no_dacl = not_sent no_dacl
send path info (domain_unknown aliases) = not_sent (domain_unknown aliases)
send path info (invalid_sddl detail) = not_sent (invalid_sddl detail)

module _ {D : Type 0} (from_sddl : Text → Text → Text ⊎ D) (domain : Option Text) where
  -- `take_ownership`
  pub take_ownership : Text → Text → Written D
  unfolding send
  take_ownership path sid =
      send path secinfo_owner (to_descriptor from_sddl domain (codes "O:" ++ sid))

  -- `write_path_sddl`
  pub write_path_sddl : Text → Text → Option Bool → Written D
  unfolding send is_set
  write_path_sddl path sddl protected =
      let info = secinfo_owner ||| secinfo_group ||| secinfo_dacl in
      send path (if is_set protected then info ||| secinfo_protected_dacl else info)
        (to_descriptor from_sddl domain sddl)

-- The masks that `probe_access` asks for.
pub probe_masks : Dict ℕ
probe_masks =
    (codes "create", file_write_data ||| file_append_data)
    ∷ (codes "change_permissions", write_dac)
    ∷ (codes "take_ownership", write_owner)
    ∷ []

-- What a call of `tree.create` comes to: a handle, `TypeError`, or another exception.
pub data Attempt : Type 0 where
  opened type_error : Attempt
  failed : Failure → Attempt

pub data Probe : Type 0 where
  unknown_probe : Probe
  answer : Option Bool → Probe

pub is_permission_denied : ErrorClass → Bool
is_permission_denied permission_denied = true
is_permission_denied _ = false

-- The numbers of the symbols of a status, as `translate` takes them.
module _ (nt_number werror_number : Text → Option ℕ) where
  pub translate_access : Failure → Option Bool
  unfolding is_permission_denied
  translate_access e =
      if is_permission_denied (translate nt_number werror_number e).class then some false else none

  pub try_attempts : List (ℕ → Attempt) → ℕ → Option Bool
  unfolding translate_access
  try_attempts [] wanted = none
  try_attempts (attempt ∷ attempts) wanted =
      let rest = try_attempts attempts wanted in
      elim (attempt wanted) [
        | opened ↦ some true
        | type_error ↦ rest
        | failed e ↦ translate_access e
      ]

  -- `probe_access`; the share may fail to open.
  pub probe_access : Bool → List (ℕ → Attempt) → Text → Probe
  unfolding try_attempts probe_masks
  probe_access share_opens attempts question = elim (Dict.get probe_masks question) [
    | none ↦ unknown_probe
    | some wanted ↦ answer (if share_opens then try_attempts attempts wanted else none)
  ]
