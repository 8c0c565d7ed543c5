-- ===== src/Core/Findings/Management.antt =====
-- `_management`, `_broad_holders` and `_grant_command` of backend/samfscon/core/findings.py.
use samfscon.Prelude.{
  ℕ, Bool, true, false, Option, none, some, List, [], ◌∷◌, ◌++◌, ◌==◌, if◌then◌else◌, length, keep,
  any, all, ◌||◌, ◌&&◌, not,
}
use samfscon.Prelude.Text.{Text, codes, eq_text, is_digit, is_empty}
use samfscon.Prelude.Words.{split_on}
use samfscon.Prelude.Decimal.{int_of}
use samfscon.Core.Findings.Types.{
  Finding, high, medium, management, flag, count, word, words, word_or_null, Note, Capabilities,
  Registry,
}
use samfscon.Core.Findings.Stored.{is_false}

-- `BROAD_TRUSTEES`
abbrev pub broad_trustees : List Text
broad_trustees = codes "S-1-1-0" ∷ codes "S-1-5-11" ∷ codes "S-1-5-32-545" ∷ []

is_number : Text → Bool
is_number s = all is_digit s && not (is_empty s)

-- `BROAD_RIDS`
is_broad_rid : Option (Bool × ℕ) → Bool
is_broad_rid none = false
is_broad_rid (some (negative, rid)) = rid == 513 || rid == 514

-- `_DOMAIN_SID_RE`, on the fields between the hyphens, with a RID that is broad.
is_broad_domain_sid : Text × List Text → Bool
unfolding is_number is_broad_rid
is_broad_domain_sid (s, one ∷ (five ∷ (twenty_one ∷ (a ∷ (b ∷ (c ∷ (rid ∷ []))))))) =
    eq_text s (codes "S")
    && eq_text one (codes "1")
    && eq_text five (codes "5")
    && eq_text twenty_one (codes "21")
    && is_number a
    && is_number b
    && is_number c
    && is_number rid
    && is_broad_rid (int_of rid)
is_broad_domain_sid _ = false

-- A holder that means anyone who can sign in.
pub is_broad : Text → Bool
unfolding is_broad_domain_sid
is_broad sid = any (λ t. eq_text t sid) broad_trustees || is_broad_domain_sid (split_on b'-' sid)

pub broad_holders : List Text → List Text
unfolding is_broad
broad_holders sids = keep is_broad sids

-- `_grant_command`
pub grant_command : List Note → Option Text
grant_command [] = none
grant_command (note ∷ notes) =
    let rest = grant_command notes in
    elim note.command [ none ↦ rest | some c ↦ if is_empty c then rest else some c ]

note_codes : List Note → List Text
note_codes [] = []
note_codes (note ∷ notes) =
    let rest = note_codes notes in
    elim note.code [ none ↦ rest | some c ↦ if is_empty c then rest else c ∷ rest ]

unfoldable pub config_absent : Capabilities → List Finding
unfolding note_codes
config_absent c =
    if is_false c.registry_config
    then record {
      id = codes "registry_config_absent";
      severity = medium;
      area = management;
      subject = [];
      evidence =
          (codes "registry_config", flag false)
          ∷ (codes "notes", words (note_codes c.notes))
          ∷ (codes "fix", word (codes "include = registry"))
          ∷ [];
    }
      ∷ []
    else []

unfoldable pub shares_not_served : Option Registry → List Finding
shares_not_served none = []
shares_not_served (some registry) =
    if is_false registry.served
    then record {
      id = codes "registry_shares_not_served";
      severity = high;
      area = management;
      subject = [];
      evidence =
          (codes "registry_share_sections", count registry.share_section_count)
          ∷ (codes "live_matches", count registry.live_matches)
          ∷ (codes "sections", words registry.share_sections)
          ∷ (codes "global_section_excluded", flag true)
          ∷ (codes "fix", word (codes "registry shares = yes"))
          ∷ [];
    }
      ∷ []
    else []

unfoldable pub operator_unassigned : Capabilities → List Finding
unfolding grant_command
operator_unassigned c =
    if is_false c.has_disk_operator
    then record {
      id = codes "disk_operator_unassigned";
      severity = medium;
      area = management;
      subject = [];
      evidence =
          (codes "right", word (codes "SeDiskOperatorPrivilege"))
          ∷ (codes "holders", words [])
          ∷ (codes "grant_command", word_or_null (grant_command c.notes))
          ∷ [];
    }
      ∷ []
    else []

unfoldable pub broadly_granted_to : Capabilities → List Text → List Finding
broadly_granted_to c [] = []
broadly_granted_to c (b ∷ broad) =
    record {
      id = codes "disk_operator_broadly_granted";
      severity = high;
      area = management;
      subject = [];
      evidence =
          (codes "right", word (codes "SeDiskOperatorPrivilege"))
          ∷ (codes "broad_holders", words (b ∷ broad))
          ∷ (codes "broad_holder_names", words c.disk_operators)
          ∷ (codes "holders_total", count (length c.disk_operator_sids))
          ∷ (codes "convention", words (broad_trustees ++ codes "*-513" ∷ codes "*-514" ∷ []))
          ∷ (codes "kind", word (codes "convention"))
          ∷ [];
    }
    ∷ []

unfoldable pub broadly_granted : Capabilities → List Finding
unfolding broadly_granted_to broad_holders
broadly_granted c = broadly_granted_to c (broad_holders c.disk_operator_sids)

unfoldable pub management_findings : Option Capabilities → Option Registry → List Finding
unfolding config_absent shares_not_served operator_unassigned broadly_granted
management_findings none registry = []
management_findings (some c) registry =
    config_absent c ++ (shares_not_served registry ++ (operator_unassigned c ++ broadly_granted c))
