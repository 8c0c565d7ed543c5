-- ===== src/Core/Findings/Paths.antt =====
-- `_share_paths`, `_configured_not_served`, `_normalise` and `_sensitive` of
-- backend/samfscon/core/findings.py.
pub mod Nesting
use samfscon.Prelude.{
  ℕ, suc, ◌-◌, Bool, true, false, Option, none, some, List, [], ◌∷◌, ◌++◌, ◌==◌, if◌then◌else◌,
  ◌&&◌, ◌||◌, not, any, length, map,
}
use samfscon.Prelude.Text.{Text, codes, eq_text, lower, starts_with, rstrip_if, is_empty}
use samfscon.Prelude.Dict
use samfscon.Prelude.Dict.{Dict}
use samfscon.Prelude.Sort.{sort, text_le}
use samfscon.Core.Findings.Types.{
  Finding, Severity, high, medium, low, info, shares, Value, flag, count, word, words, table,
  word_or_null, flag_or_null, Share, Registry,
}
use samfscon.Core.Findings.Stored.{flag_of, is_false, option_of, text_or_empty}

abbrev pub slash : Text
slash = codes "/"

unfoldable pub is_slash : ℕ → Bool
is_slash c = c == b'/'

-- `_normalise`
unfoldable pub normal_path : Option Text → Text
unfolding is_slash
normal_path none = []
normal_path (some []) = []
normal_path (some (c ∷ s)) =
    let trimmed = rstrip_if is_slash (c ∷ s) in if is_empty trimmed then slash else trimmed

-- What the rules read of a disk share: its name, its path, and its stored `read only`.
pub record Disk : Type 0 where
  pub name : Text
  pub path : Text
  pub read_only : Option Text

unfoldable pub disk_of : Share → Disk
unfolding normal_path
disk_of entry = record {
  name = text_or_empty entry.name;
  path = normal_path entry.path;
  read_only = option_of entry (codes "read only");
}

unfoldable pub disks_of : List Share → List Disk
unfolding disk_of
disks_of [] = []
disks_of (entry ∷ entries) =
    let rest = disks_of entries in
    if eq_text (text_or_empty entry.type) (codes "disk") then disk_of entry ∷ rest else rest

pub known_disks : List Disk → List Disk
known_disks [] = []
known_disks (d ∷ disks) = let rest = known_disks disks in if is_empty d.path then rest else d ∷ rest

-- `by_path[path]` without the share itself.
pub others_at : List Disk → Text → Text → List Text
others_at [] path name = []
others_at (d ∷ disks) path name =
    let rest = others_at disks path name in
    if eq_text d.path path && not (eq_text d.name name) then d.name ∷ rest else rest

unfoldable pub duplicate_of : ℕ → Disk → List Text → List Finding
duplicate_of unknown d [] = []
duplicate_of unknown d (o ∷ others) =
    record {
      id = codes "share_path_duplicate";
      severity = medium;
      area = shares;
      subject = d.name;
      evidence =
          (codes "path", word d.path)
          ∷ (codes "others", words (sort text_le (o ∷ others)))
          ∷ (codes "this_read_only", word_or_null d.read_only)
          ∷ (codes "paths_unknown", count unknown)
          ∷ [];
    }
    ∷ []

-- `path.startswith(other.rstrip("/") + "/")`, for two paths that differ.
unfoldable pub is_nested : Text → Text → Bool
unfolding is_slash
is_nested path other =
    not (eq_text other path) && starts_with (rstrip_if is_slash other ++ slash) path

unfoldable pub nested_finding : ℕ → Disk → Disk → Finding
nested_finding unknown d other = record {
  id = codes "share_path_nested";
  severity = medium;
  area = shares;
  subject = d.name;
  evidence =
      (codes "path", word d.path)
      ∷ (codes "within", word other.name)
      ∷ (codes "other_path", word other.path)
      ∷ (codes "this_read_only", word_or_null d.read_only)
      ∷ (codes "other_read_only", word_or_null other.read_only)
      ∷ (codes "paths_unknown", count unknown)
      ∷ [];
}

unfoldable pub nested_in : ℕ → Disk → List Disk → List Finding
unfolding is_nested nested_finding
nested_in unknown d [] = []
nested_in unknown d (other ∷ disks) =
    let rest = nested_in unknown d disks in
    if not (eq_text other.name d.name) && is_nested d.path other.path
    then nested_finding unknown d other ∷ rest
    else rest

-- `SENSITIVE_PATHS`
abbrev pub sensitive_paths : List (Text × Severity)
sensitive_paths =
    (codes "/", high)
    ∷ (codes "/etc", high)
    ∷ (codes "/root", high)
    ∷ (codes "/boot", high)
    ∷ (codes "/proc", high)
    ∷ (codes "/sys", high)
    ∷ (codes "/dev", high)
    ∷ (codes "/usr", medium)
    ∷ (codes "/var/lib", medium)
    ∷ []

severity_name : Severity → Text
severity_name high = codes "high"
severity_name medium = codes "medium"
severity_name low = codes "low"
severity_name info = codes "info"

pub matches_sensitive : Text → Text → Bool
matches_sensitive location path =
    if eq_text location slash
    then eq_text path slash
    else eq_text path location || starts_with (location ++ slash) path

pub sensitive_in : List (Text × Severity) → Text → Option (Text × Severity)
unfolding matches_sensitive
sensitive_in [] path = none
sensitive_in ((location, severity) ∷ rest) path =
    if matches_sensitive location path then some (location, severity) else sensitive_in rest path

-- `_sensitive`
pub sensitive_of : Text → Option (Text × Severity)
unfolding sensitive_in
sensitive_of path = sensitive_in sensitive_paths path

unfoldable pub sensitive_findings : Disk → List Finding
unfolding sensitive_of severity_name
sensitive_findings d = elim (sensitive_of d.path) [
  | none ↦ []
  | some (location, severity) ↦
      record {
        id = codes "share_path_sensitive";
        severity = severity;
        area = shares;
        subject = d.name;
        evidence =
            (codes "path", word d.path)
            ∷ (codes "matched", word location)
            ∷ (codes "convention", table (map (λ s. s.0 ∷ severity_name s.1 ∷ []) sensitive_paths))
            ∷ (codes "kind", word (codes "convention"))
            ∷ [];
      }
      ∷ []
]

unfoldable pub findings_of_each : ℕ → List Disk → List Disk → List Finding
unfolding others_at duplicate_of nested_in sensitive_findings
findings_of_each unknown known [] = []
findings_of_each unknown known (d ∷ disks) =
    duplicate_of unknown d (others_at known d.path d.name)
    ++ (nested_in unknown d known ++ (sensitive_findings d ++ findings_of_each unknown known disks))

unfoldable pub path_findings_of : List Disk → List Finding
unfolding findings_of_each known_disks
path_findings_of disks =
    let known = known_disks disks in findings_of_each (length disks - length known) known known

-- `_share_paths`
unfoldable pub path_findings : List Share → List Finding
unfolding disks_of path_findings_of
path_findings entries = path_findings_of (disks_of entries)

unfoldable pub live_names : List Share → List Text
live_names entries = map (λ e. lower (text_or_empty e.name)) entries

section_le : Text × Dict Text → Text × Dict Text → Bool
section_le a b = text_le a.0 b.0

pub is_served : List Text → Text → Bool
is_served live section =
    any (λ n. eq_text n (lower section)) live || eq_text (lower section) (codes "global")

unfoldable pub not_served_finding : Registry → Text → Dict Text → Finding
not_served_finding registry section options = record {
  id = codes "share_configured_not_served";
  severity = medium;
  area = shares;
  subject = section;
  evidence =
      (codes "available", word_or_null (Dict.get options (codes "available")))
      ∷ (codes "in_registry", flag true)
      ∷ (codes "in_live_list", flag false)
      ∷ (codes "registry_shares_served", flag_or_null registry.served)
      ∷ [];
}

unfoldable pub not_served_in : Registry → List Text → Dict (Dict Text) → List Finding
unfolding is_served not_served_finding
not_served_in registry live [] = []
not_served_in registry live ((section, options) ∷ sections) =
    let rest = not_served_in registry live sections in
    if not (is_served live section) && is_false (flag_of options (codes "available"))
    then not_served_finding registry section options ∷ rest
    else rest

-- `_configured_not_served`, of the names that are served.
unfoldable pub not_served_findings : List Text → Option Registry → List Finding
unfolding not_served_in section_le
not_served_findings live none = []
not_served_findings live (some registry) =
    not_served_in registry live (sort section_le registry.sections)
