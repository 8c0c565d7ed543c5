-- ===== src/Srv/GlobalConf/Validate/Tests.antt =====
-- Examples of backend/samfscon/srv/globalconf.py.
use samfscon.Prelude.{ℕ, ◌≤◌, Option, none, some, List, [], ◌∷◌, ◌≡◌, refl, All}
use samfscon.Prelude.Text.{Text, codes, eq_text, strip, lower, upper, starts_with, is_space}
use samfscon.Prelude.Dict
use samfscon.Prelude.Dict.{Dict}
use samfscon.Srv.ShareConf.Value.{validate_value, validate_text, find_choice}
use samfscon.Srv.GlobalConf.Types.{mode_ad_member}
use samfscon.Srv.GlobalConf.Catalogue.{by_name}
use samfscon.Srv.GlobalConf.Dialect.{
  dialect_index, is_before, is_window_empty, given, min_protocol, max_protocol,
}
use samfscon.Srv.GlobalConf.Validate.{
  accept, validate, validate_from, check_entry, check_option, check_safety, validate_one,
  prefix_reason, safety_for, reason_in, applies_in, is_confirmed,
}
use samfscon.Srv.GlobalConf.Validate.Allowed.{IsAllowed, validate-IsAllowed}
use samfscon.Srv.GlobalConf.Validate.Window.{validate-window}

abbrev confirm : List Text
confirm = min_protocol ∷ max_protocol ∷ []

-- A window from SMB2_10 to SMB3_11, and an option that needs no confirmation.
abbrev form : Dict (Option Text)
form =
    (codes "Server min protocol", some (codes "smb2_10"))
    ∷ (max_protocol, some (codes " SMB3_11"))
    ∷ (codes "load printers", none)
    ∷ []

abbrev checked : Dict (Option Text)
checked =
    (min_protocol, some (codes "SMB2_10"))
    ∷ (max_protocol, some (codes "SMB3_11"))
    ∷ (codes "load printers", none)
    ∷ []

validate-form : validate mode_ad_member confirm form ≡ accept checked
unfolding validate validate_from check_entry check_option check_safety validate_one prefix_reason
    safety_for reason_in applies_in is_confirmed by_name validate_value validate_text find_choice
    is_window_empty given is_before dialect_index strip lower upper starts_with is_space eq_text
    Dict.put Dict.get
validate-form = refl

validate-IsAllowed_example : All (IsAllowed mode_ad_member confirm) checked
validate-IsAllowed_example = validate-IsAllowed mode_ad_member confirm form checked validate-form

validate-window_example :
    (i : ℕ) × (j : ℕ) × (dialect_index (codes "SMB2_10") ≡ some i)
    × (dialect_index (codes "SMB3_11") ≡ some j)
    × (i ≤ j)
unfolding Dict.get eq_text
validate-window_example =
    validate-window mode_ad_member confirm form checked (codes "SMB2_10") (codes "SMB3_11")
      validate-form refl refl

abbrev stored : Dict Text
stored = (codes "workgroup", codes "HQ") ∷ (codes "idmap config * : range", codes "1-9") ∷ []
