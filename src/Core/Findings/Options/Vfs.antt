-- ===== src/Core/Findings/Options/Vfs.antt =====
-- `_vfs_options_without_module` of backend/samfscon/core/findings.py.
use samfscon.Prelude.{Bool, Option, none, some, List, [], ◌∷◌, ◌++◌, if◌then◌else◌, any}
use samfscon.Prelude.Text.{Text, codes, eq_text}
use samfscon.Prelude.Dict
use samfscon.Prelude.Dict.{Dict}
use samfscon.Prelude.Sort.{sort, text_le}
use samfscon.Srv.ShareConf.Catalogue.{by_name}
use samfscon.Srv.ShareConf.Validate.{vfs_modules}
use samfscon.Core.Findings.Types.{Finding, medium, shares, word, words, word_or_null}

-- The module that an option of the catalogue needs.
pub required_module : Text → Option Text
required_module option = elim (by_name option) [ none ↦ none | some spec ↦ spec.requires_vfs ]

pub is_loaded : List Text → Text → Bool
is_loaded loaded m = any (λ l. eq_text l m) loaded

-- The module that an option misses, if it needs one that is not loaded.
pub missing_module : List Text → Text → Option Text
unfolding is_loaded
missing_module loaded option = elim (required_module option) [
  | none ↦ none
  | some m ↦ if is_loaded loaded m then none else some m
]

unfoldable pub group_of : Dict (List Text) → Text → List Text
group_of missing m = elim (Dict.get missing m) [ none ↦ [] | some options ↦ options ]

-- `missing.setdefault(module, []).append(option)`
pub note_missing : Dict (List Text) → Text → Option Text → Dict (List Text)
unfolding group_of
note_missing missing option none = missing
note_missing missing option (some m) = Dict.put missing m (group_of missing m ++ option ∷ [])

pub missing_from : List Text → Dict (List Text) → Dict Text → Dict (List Text)
unfolding note_missing missing_module
missing_from loaded missing [] = missing
missing_from loaded missing ((option, value) ∷ stored) =
    missing_from loaded (note_missing missing option (missing_module loaded option)) stored

module_le : Text × List Text → Text × List Text → Bool
module_le a b = text_le a.0 b.0

unfoldable pub vfs_finding : Text → Dict Text → Text × List Text → Finding
vfs_finding name stored (m, options) = record {
  id = codes "share_vfs_option_without_module";
  severity = medium;
  area = shares;
  subject = name;
  evidence =
      (codes "requires", word m)
      ∷ (codes "options", words (sort text_le options))
      ∷ (codes "vfs_objects", word_or_null (Dict.get stored (codes "vfs objects")))
      ∷ (codes "observed_in", word (codes "share_registry_key"))
      ∷ [];
}

unfoldable pub findings_of : Text → Dict Text → Dict (List Text) → List Finding
unfolding vfs_finding
findings_of name stored [] = []
findings_of name stored (entry ∷ missing) =
    vfs_finding name stored entry ∷ findings_of name stored missing

unfoldable pub vfs_findings : Text → Dict Text → List Finding
unfolding findings_of missing_from module_le
vfs_findings name stored = elim (Dict.get stored (codes "vfs objects")) [
  | none ↦ []
  | some objects ↦
      findings_of name stored (sort module_le (missing_from (vfs_modules stored) [] stored))
]
