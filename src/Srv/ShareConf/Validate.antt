-- ===== src/Srv/ShareConf/Validate.antt =====
-- `validate`, `split`, `describe_catalogue` and `vfs_modules` of backend/samfscon/srv/shareconf.py.
pub mod Sound
pub mod Latest
pub mod Partition
mod Tests
use samfscon.Prelude.{
  Bool, true, false, Option, none, some, List, [], ◌∷◌, ◌==◌, if◌then◌else◌, map, String, any, ◌&&◌,
  not,
}
use samfscon.Prelude.Text.{Text, codes, eq_text, lower, strip, is_empty}
use samfscon.Prelude.Words.{words}
use samfscon.Prelude.Dict
use samfscon.Prelude.Dict.{Dict}
use samfscon.Srv.ShareConf.Types.{ShareOption, OptionType, Group}
use samfscon.Srv.ShareConf.Catalogue.{catalogue, by_name, is_srvsvc_owned}
use samfscon.Srv.ShareConf.Value.{
  Error, option_not_editable, Result, ok, err, validate_value, is_separator,
}

-- `text.replace("_", " ")`
unfoldable pub spaces_for_underscores : Text → Text
spaces_for_underscores s = map (λ c. if c == b'_' then 32 else c) s

pub normal_name : Text → Text
unfolding spaces_for_underscores
normal_name raw = spaces_for_underscores (lower (strip raw))

-- What an entry of the form becomes: nothing (it is passed over), a deletion, or a value.
pub data Checked : Type 0 where
  skipped deletion : Checked
  assigned : Text → Checked

pub validate_one : ShareOption → Text → Result Text
validate_one option value = validate_value option.name option.type option.choices value

pub check_value : Text → Text → Result Checked
check_value name value = elim (by_name name) [
  | none ↦ ok (assigned (strip value))
  | some option ↦ elim (validate_one option value) [ ok v ↦ ok (assigned v) | err e ↦ err e ]
]

pub check_entry : Text → Option Text → Result Checked
unfolding check_value
check_entry name value =
    if is_empty name
    then ok skipped
    else if is_srvsvc_owned name
    then err (option_not_editable name)
    else elim value [ none ↦ ok deletion | some v ↦ check_value name v ]

-- The loop of `validate`, over what it has checked so far; it stops at the first refusal.
pub validate_from : Dict (Option Text) → Dict (Option Text) → Result (Dict (Option Text))
validate_from checked [] = ok checked
validate_from checked ((raw_name, value) ∷ options) =
    elim (check_entry (normal_name raw_name) value) [
      | err e ↦ err e
      | ok entry ↦ elim entry [
        | skipped ↦ validate_from checked options
        | deletion ↦ validate_from (Dict.put checked (normal_name raw_name) none) options
        | assigned v ↦ validate_from (Dict.put checked (normal_name raw_name) (some v)) options
      ]
    ]

pub validate : Dict (Option Text) → Result (Dict (Option Text))
unfolding validate_from
validate options = validate_from [] options

pub record ShareOptions : Type 0 where
  pub known : Dict Text
  pub extra : Dict Text

pub is_catalogued : Text → Bool
is_catalogued name = elim (by_name name) [ none ↦ false | some option ↦ true ]

pub split_step : ShareOptions → Text → Text → ShareOptions
split_step result name value =
    if is_catalogued name
    then record result { known = Dict.put result.known name value }
    else if is_srvsvc_owned name
    then result
    else record result { extra = Dict.put result.extra name value }

pub split_from : ShareOptions → Dict Text → ShareOptions
split_from result [] = result
split_from result ((name, value) ∷ rest) = split_from (split_step result name value) rest

pub split : Dict Text → ShareOptions
unfolding split_from
split given = split_from (record { known = []; extra = [] }) given

pub record Described : Type 0 where
  pub name : Text
  pub type : OptionType
  pub group : Group
  pub default : Option Text
  pub choices : List Text
  pub doc : String
  pub requires_vfs : Option Text

is_blank : String → Bool
is_blank String.[] = true
is_blank (String.◌∷◌ c s) = false

describe_option : Text → ShareOption → Described
unfolding is_blank
describe_option language o = record {
  name = o.name;
  type = o.type;
  group = o.group;
  default = o.default;
  choices = o.choices;
  doc = if eq_text language (codes "de") && not (is_blank o.doc_de) then o.doc_de else o.doc;
  requires_vfs = o.requires_vfs;
}

pub describe_catalogue : Text → List Described
unfolding describe_option
describe_catalogue language = map (describe_option language) catalogue

pub vfs_modules : Dict Text → List Text
vfs_modules options = elim (Dict.get options (codes "vfs objects")) [
  | none ↦ []
  | some raw ↦ words is_separator raw
]
