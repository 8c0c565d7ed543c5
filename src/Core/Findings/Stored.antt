-- ===== src/Core/Findings/Stored.antt =====
-- The readers of a share's options, `_stored`, `_flag` and `_option`, and the counters,
-- `unreadable_shares` and `coverage`, of backend/samfscon/core/findings.py.
pub mod Counts
use samfscon.Prelude.{
  ℕ, suc, ◌-◌, Bool, true, false, Option, none, some, List, [], ◌∷◌, if◌then◌else◌, length,
}
use samfscon.Prelude.Text.{Text, codes, strip, lower, is_empty}
use samfscon.Prelude.Dict
use samfscon.Prelude.Dict.{Dict}
use samfscon.Srv.ShareConf.Value.{is_yes, is_no}
use samfscon.Core.Findings.Types.{Share, Unreadable, shares}

-- `str(value or "")`
pub text_or_empty : Option Text → Text
text_or_empty none = []
text_or_empty (some t) = t

pub options_of : Option (Dict Text) → Dict Text
options_of none = []
options_of (some options) = options

-- `_stored`
unfoldable pub stored_of : Share → Option (Dict Text)
unfolding options_of
stored_of entry = if entry.config_readable then some (options_of entry.options) else none

-- `yes`, `no`, or neither
pub decided : Text → Option Bool
decided value = if is_yes value then some true else if is_no value then some false else none

-- `_flag`
pub flag_of : Dict Text → Text → Option Bool
unfolding decided
flag_of stored name = elim (Dict.get stored name) [
  | none ↦ none
  | some raw ↦ decided (lower (strip raw))
]

-- `flag is True` and `flag is False`
pub is_true : Option Bool → Bool
is_true (some true) = true
is_true _ = false

unfoldable pub is_false : Option Bool → Bool
is_false (some false) = true
is_false _ = false

pub stored_option : Option (Dict Text) → Text → Option Text
stored_option none name = none
stored_option (some stored) name = Dict.get stored name

-- `_option`
unfoldable pub option_of : Share → Text → Option Text
unfolding stored_option
option_of entry name = stored_option (stored_of entry) name

pub reason_of : Text → Text
reason_of reason = if is_empty reason then codes "configuration_not_in_registry" else reason

pub is_stored : Option (Dict Text) → Bool
is_stored none = false
is_stored (some stored) = true

pub unreadable_shares : List Share → List Unreadable
unfolding reason_of is_stored
unreadable_shares [] = []
unreadable_shares (entry ∷ entries) =
    let rest = unreadable_shares entries in
    if is_stored (stored_of entry)
    then rest
    else record {
      area = shares;
      subject = text_or_empty entry.name;
      reason = reason_of (text_or_empty entry.config_unreadable_reason);
    }
      ∷ rest

pub count_readable : List Share → ℕ
unfolding is_stored
count_readable [] = 0
count_readable (entry ∷ entries) =
    let rest = count_readable entries in if is_stored (stored_of entry) then suc rest else rest

pub record Coverage : Type 0 where
  pub shares_total : ℕ
  pub shares_with_readable_configuration : ℕ
  pub shares_without_readable_configuration : ℕ

pub coverage : List Share → Coverage
unfolding count_readable
coverage entries = record {
  shares_total = length entries;
  shares_with_readable_configuration = count_readable entries;
  shares_without_readable_configuration = length entries - count_readable entries;
}
