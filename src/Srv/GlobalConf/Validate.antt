-- ===== src/Srv/GlobalConf/Validate.antt =====
-- `safety_for`, `describe_catalogue`, `validate` and `split` of
-- backend/samfscon/srv/globalconf.py.
pub mod Allowed
pub mod Window
pub mod Sorted
mod Tests
use samfscon.Prelude.{
  Bool, true, false, Option, none, some, List, [], ◌∷◌, if◌then◌else◌, map, String, any, ◌&&◌, not,
}
use samfscon.Prelude.Text.{Text, codes, eq_text, lower, strip, starts_with}
use samfscon.Prelude.Dict
use samfscon.Prelude.Dict.{Dict}
use samfscon.Srv.ShareConf.Types.{OptionType}
use samfscon.Srv.ShareConf.Value.{Error, ok, err, validate_value}
use samfscon.Srv.GlobalConf.Types.{
  GlobalOption, Group, Safety, safe, risky, read_only, Effect, Daemon,
}
use samfscon.Srv.GlobalConf.Catalogue.{catalogue, by_name}
use samfscon.Srv.GlobalConf.Dialect.{is_window_empty}

unfoldable pub reason_in : List (Text × Text) → Text → Option Text
reason_in [] mode = none
reason_in ((restricted_mode, reason) ∷ rest) mode =
    if eq_text restricted_mode mode then some reason else reason_in rest mode

unfoldable pub safety_for : GlobalOption → Text → Safety × Option Text
unfolding reason_in
safety_for option mode = elim (reason_in option.read_only_in mode) [
  | some reason ↦ (read_only, some reason)
  | none ↦ (option.safety, option.read_only_reason)
]

-- `option.mode_only is None or option.mode_only == mode`
unfoldable pub applies_in : GlobalOption → Text → Bool
applies_in option mode = elim option.mode_only [ none ↦ true | some only ↦ eq_text only mode ]

-- `NOT_WRITABLE_PREFIXES`
abbrev pub not_writable_prefixes : List (Text × Text)
not_writable_prefixes = (codes "idmap config", codes "idmap_remaps_existing_files") ∷ []

unfoldable pub prefix_reason : List (Text × Text) → Text → Option Text
prefix_reason [] name = none
prefix_reason ((prefix, reason) ∷ rest) name =
    if starts_with prefix name then some reason else prefix_reason rest name

-- The `InvalidRequest` and the `Conflict` of `validate`, with what their context says.
pub data Refusal : Type 0 where
  option_not_editable : Text → Option Text → Refusal
  unknown_option : Text → Refusal
  option_not_applicable : Text → Refusal
  confirmation_required : Text → Option Text → Refusal
  bad_value : Error → Refusal
  dialect_window_empty : Refusal

pub data Outcome {ℓ} (A : Type ℓ) : Type ℓ where
  accept : A → Outcome A
  refuse : Refusal → Outcome A

unfoldable pub is_confirmed : List Text → Text → Bool
is_confirmed confirm name = any (λ c. eq_text c name) confirm

unfoldable pub validate_one : GlobalOption → Text → Outcome (Option Text)
validate_one option value = elim (validate_value option.name option.type option.choices value) [
  | ok v ↦ accept (some v)
  | err e ↦ refuse (bad_value e)
]

-- The last checks, by how the option stands on this kind of server.
unfoldable pub check_safety :
    List Text → GlobalOption → Option Text → Safety × Option Text → Outcome (Option Text)
unfolding validate_one
check_safety confirm option value (read_only, reason) =
    refuse (option_not_editable option.name reason)
check_safety confirm option none (safe, reason) = accept none
check_safety confirm option none (risky, reason) = accept none
check_safety confirm option (some v) (safe, reason) = validate_one option v
check_safety confirm option (some v) (risky, reason) =
    if is_confirmed confirm option.name
    then validate_one option v
    else refuse (confirmation_required option.name option.risk)

unfoldable pub check_option : Text → List Text → GlobalOption → Option Text → Outcome (Option Text)
unfolding check_safety
check_option mode confirm option value =
    if applies_in option mode
    then check_safety confirm option value (safety_for option mode)
    else refuse (option_not_applicable option.name)

-- The name under which an entry of the form is kept, and what becomes of it.
unfoldable pub check_entry : Text → List Text → Text → Option Text → Outcome (Text × Option Text)
unfolding check_option
check_entry mode confirm raw_name value =
    elim (prefix_reason not_writable_prefixes (lower (strip raw_name))) [
      | some reason ↦ refuse (option_not_editable raw_name (some reason))
      | none ↦ elim (by_name (lower (strip raw_name))) [
        | none ↦ refuse (unknown_option raw_name)
        | some option ↦ elim (check_option mode confirm option value) [
          | refuse r ↦ refuse r
          | accept v ↦ accept (option.name, v)
        ]
      ]
    ]

unfoldable pub validate_from :
    Text → List Text → Dict (Option Text) → Dict (Option Text) → Outcome (Dict (Option Text))
validate_from mode confirm checked [] = accept checked
validate_from mode confirm checked ((raw_name, value) ∷ options) =
    elim (check_entry mode confirm raw_name value) [
      | refuse r ↦ refuse r
      | accept (name, v) ↦ validate_from mode confirm (Dict.put checked name v) options
    ]

unfoldable pub validate : Text → List Text → Dict (Option Text) → Outcome (Dict (Option Text))
unfolding validate_from
validate mode confirm options = elim (validate_from mode confirm [] options) [
  | refuse r ↦ refuse r
  | accept checked ↦ if is_window_empty checked then refuse dialect_window_empty else accept checked
]

pub record Described : Type 0 where
  pub name : Text
  pub type : OptionType
  pub group : Group
  pub default : Option Text
  pub default_note : Option Text
  pub choices : List Text
  pub doc : String
  pub safety : Safety
  pub risk : Option Text
  pub read_only_reason : Option Text
  pub effect : Effect
  pub daemons : List Daemon
  pub live_source : Option Text

when_risky : Safety → Option Text → Option Text
when_risky risky r = r
when_risky _ r = none

when_read_only : Safety → Option Text → Option Text
when_read_only read_only r = r
when_read_only _ r = none

describe_option : Text → Text → GlobalOption → Described
unfolding when_risky when_read_only
describe_option mode language o =
    let (safety, reason) = safety_for o mode in
    record {
      name = o.name;
      type = o.type;
      group = o.group;
      default = o.default;
      default_note = o.default_note;
      choices = o.choices;
      doc = if starts_with (codes "de") language then o.doc_de else o.doc;
      safety = safety;
      risk = when_risky safety o.risk;
      read_only_reason = when_read_only safety reason;
      effect = o.effect;
      daemons = o.daemons;
      live_source = o.live_source;
    }

describe_all : Text → Text → List GlobalOption → List Described
unfolding describe_option
describe_all mode language [] = []
describe_all mode language (o ∷ os) =
    let rest = describe_all mode language os in
    if applies_in o mode then describe_option mode language o ∷ rest else rest

pub describe_catalogue : Text → Text → List Described
unfolding describe_all
describe_catalogue mode language = describe_all mode language catalogue

-- The four dictionaries that `split` returns.
pub record Buckets : Type 0 where
  pub known : Dict Text
  pub extra : Dict Text
  pub not_applicable : Dict Text
  pub idmap : Dict Text

pub data Bucket : Type 0 where
  to_known to_extra to_not_applicable to_idmap : Bucket

pub bucket_of : Text → Text → Bucket
bucket_of mode name = elim (prefix_reason not_writable_prefixes (lower (strip name))) [
  | some reason ↦ to_idmap
  | none ↦ elim (by_name (lower (strip name))) [
    | none ↦ to_extra
    | some option ↦ if applies_in option mode then to_known else to_not_applicable
  ]
]

pub file_in : Buckets → Text → Text → Bucket → Buckets
file_in b name value to_known = record b { known = Dict.put b.known name value }
file_in b name value to_extra = record b { extra = Dict.put b.extra name value }
file_in b name value to_not_applicable = record b {
  not_applicable = Dict.put b.not_applicable name value;
}
file_in b name value to_idmap = record b { idmap = Dict.put b.idmap name value }

pub split_from : Text → Buckets → Dict Text → Buckets
unfolding file_in bucket_of
split_from mode b [] = b
split_from mode b ((name, value) ∷ rest) =
    split_from mode (file_in b name value (bucket_of mode name)) rest

pub split : Dict Text → Text → Buckets
unfolding split_from
split stored mode =
    split_from mode (record { known = []; extra = []; not_applicable = []; idmap = [] }) stored
