-- ===== src/Core/Findings/Types.antt =====
-- The records of backend/samfscon/core/findings.py, and what the rules are given.
use samfscon.Prelude.{ℕ, Bool, Option, none, some, List, [], ◌∷◌}
use samfscon.Prelude.Text.{Text, codes}
use samfscon.Prelude.Dict.{Dict}

-- `SEVERITIES`, the worst first
pub data Severity : Type 0 where
  high medium low info : Severity

-- `AREAS`
pub data Area : Type 0 where
  management transport shares sessions : Area

-- The values of JSON that occur in evidence.
pub data Value : Type 0 where
  null : Value
  flag : Bool → Value
  count : ℕ → Value
  word : Text → Value
  words : List Text → Value
  pairs : Dict Text → Value
  groups : Dict (List Text) → Value
  table : List (List Text) → Value

pub record Finding : Type 0 where
  pub id : Text
  pub severity : Severity
  pub area : Area
  pub subject : Text
  pub evidence : Dict Value

pub record Unreadable : Type 0 where
  pub area : Area
  pub subject : Text
  pub reason : Text

-- `dict.get(key)` as a value of evidence
pub word_or_null : Option Text → Value
word_or_null none = null
word_or_null (some t) = word t

pub flag_or_null : Option Bool → Value
flag_or_null none = null
flag_or_null (some b) = flag b

pub count_or_null : Option ℕ → Value
count_or_null none = null
count_or_null (some n) = count n

-- A note of the capabilities: its code, and the command among its parameters.
pub record Note : Type 0 where
  pub code : Option Text
  pub command : Option Text

pub record Capabilities : Type 0 where
  pub notes : List Note
  pub registry_config : Option Bool
  pub has_disk_operator : Option Bool
  pub disk_operator_sids : List Text
  pub disk_operators : List Text

pub record Registry : Type 0 where
  pub served : Option Bool
  pub share_section_count : ℕ
  pub live_matches : ℕ
  pub share_sections : List Text
  pub sections : Dict (Dict Text)

pub record Transport : Type 0 where
  pub auth : Option Text
  pub identity_verified : Option Bool
  pub signed : Option Bool
  pub encrypted : Option Bool
  pub server_name : Option Text

pub record Server : Type 0 where
  pub mode : Option Text

-- A share as the reader of shares describes it.
pub record Share : Type 0 where
  pub name : Option Text
  pub type : Option Text
  pub path : Option Text
  pub config_readable : Bool
  pub options : Option (Dict Text)
  pub config_unreadable_reason : Option Text

pub record SessionEntry : Type 0 where
  pub client : Option Text
  pub user : Option Text
  pub open_files : Option ℕ
  pub connected_seconds : Option ℕ
  pub guest : Option Bool

-- `IDS`
abbrev pub ids : List Text
ids =
    codes "registry_config_absent"
    ∷ codes "registry_shares_not_served"
    ∷ codes "disk_operator_unassigned"
    ∷ codes "disk_operator_broadly_granted"
    ∷ codes "transport_peer_unverified"
    ∷ codes "transport_this_session"
    ∷ codes "share_guest_ok"
    ∷ codes "share_guest_writable"
    ∷ codes "share_wide_links"
    ∷ codes "share_create_mask_world_writable"
    ∷ codes "share_force_user"
    ∷ codes "share_force_user_root"
    ∷ codes "share_hosts_allow_unparsable"
    ∷ codes "share_hosts_deny_without_allow"
    ∷ codes "share_hidden_name_browseable"
    ∷ codes "share_vfs_option_without_module"
    ∷ codes "share_path_nested"
    ∷ codes "share_path_duplicate"
    ∷ codes "share_path_sensitive"
    ∷ codes "share_configured_not_served"
    ∷ codes "share_root_not_writable"
    ∷ codes "guest_session_present"
    ∷ []
