-- ===== src/Srv/ShareConf/Validate/Tests.antt =====
-- Examples of backend/samfscon/srv/shareconf.py.
use samfscon.Prelude.{Option, none, some, [], ◌∷◌, ◌≡◌, refl, All}
use samfscon.Prelude.Text.{Text, codes, eq_text, strip, lower, is_empty, starts_with, is_space}
use samfscon.Prelude.Dict
use samfscon.Prelude.Dict.{Dict}
use samfscon.Srv.ShareConf.Types.{mode}
use samfscon.Srv.ShareConf.Catalogue.{by_name, is_srvsvc_owned}
use samfscon.Srv.ShareConf.Value.{
  ok, is_octal, is_yes, is_no, is_mode, rjust_zero, validate_text, validate_value,
}
use samfscon.Srv.ShareConf.Value.Idempotent.{validate_value_idem}
use samfscon.Srv.ShareConf.Value.Canonical.{IsCanonical, validate_value-IsCanonical}
use samfscon.Srv.ShareConf.Validate.{
  validate, validate_from, check_entry, check_value, validate_one, normal_name,
  spaces_for_underscores,
}
use samfscon.Srv.ShareConf.Validate.Sound.{IsSound, validate-IsSound}
use samfscon.Srv.ShareConf.Validate.Latest.{last_asked, DoesAsAsked, validate-latest}

validate_value_idem_example :
    validate_value (codes "create mask") mode [] (codes "0755") ≡ ok (codes "0755")
unfolding validate_value validate_text is_mode is_octal rjust_zero strip starts_with is_space
validate_value_idem_example =
    validate_value_idem (codes "create mask") mode [] (codes " 755 ") (codes "0755") tt refl

validate_value-IsCanonical_example : IsCanonical mode [] (codes "0755")
unfolding validate_value validate_text is_mode is_octal rjust_zero strip starts_with is_space
validate_value-IsCanonical_example =
    validate_value-IsCanonical (codes "create mask") mode [] (codes " 755 ") (codes "0755") refl

-- An entry of the catalogue under a name with an underscore, and one outside it that is deleted.
abbrev form : Dict (Option Text)
form = (codes "Read_Only", some (codes "TRUE")) ∷ (codes "strict sync", none) ∷ []

abbrev checked : Dict (Option Text)
checked = (codes "read only", some (codes "yes")) ∷ (codes "strict sync", none) ∷ []

validate-form : validate form ≡ ok checked
unfolding validate validate_from check_entry check_value validate_one normal_name
    spaces_for_underscores by_name is_srvsvc_owned validate_value validate_text is_yes is_no strip
    lower is_empty eq_text Dict.put is_space
validate-form = refl

validate-IsSound_example : All IsSound checked
validate-IsSound_example = validate-IsSound form checked validate-form

validate-latest_example :
    DoesAsAsked
      (codes "read only")
      none
      (last_asked (codes "read only") form)
      (Dict.get checked (codes "read only"))
unfolding is_empty
validate-latest_example = validate-latest form checked (codes "read only") refl validate-form

abbrev stored : Dict Text
stored = (codes "path", codes "/srv") ∷ (codes "read only", codes "yes") ∷ []
