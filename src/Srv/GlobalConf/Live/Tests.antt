-- ===== src/Srv/GlobalConf/Live/Tests.antt =====
-- A server that does not report what its registry says.
use samfscon.Prelude.{true, false, some, List, [], ◌∷◌, ◌≡◌, ◌↔◌, refl}
use samfscon.Prelude.Text.{Text, codes, eq_text, is_within, starts_with, is_empty}
use samfscon.Prelude.Dict
use samfscon.Prelude.Dict.{Dict}
use samfscon.Srv.GlobalConf.Catalogue.{by_name}
use samfscon.Srv.GlobalConf.Live.{
  LiveValue, server_string, find_value, in_force_check, check_stored, compare_with, is_value,
  default_comment,
}
use samfscon.Srv.GlobalConf.Live.InForce.{Compared, in_force_check_decides}

abbrev stored : Dict Text
stored = (server_string, codes "files") ∷ []

abbrev live : List LiveValue
live =
    record {
      option = server_string;
      value = some (codes "old");
      readable = true;
      source = codes "srvsvc.comment";
    }
    ∷ []

ignored : (in_force_check stored live).0 ≡ some false
unfolding in_force_check check_stored compare_with is_value default_comment find_value by_name
    Dict.get eq_text is_within starts_with is_empty
ignored = refl

in_force_check_decides_example : ((in_force_check stored live).0 ≡ some false) ↔ (
    (value : Text) × (r : LiveValue) × (Dict.get stored (codes "server string") ≡ some value)
    × Compared live value r false)
in_force_check_decides_example = in_force_check_decides stored live false
