-- ===== src/Srv/GlobalConf/Catalogue.antt =====
-- `CATALOGUE` of backend/samfscon/srv/globalconf.py, and what is looked up in it.
mod Server
mod Protocol
mod Access
mod Files
mod Printing
mod Winbind
mod Advanced
use samfscon.Prelude.{Bool, Option, none, some, List, [], ◌∷◌, ◌++◌, if◌then◌else◌}
use samfscon.Prelude.Text.{Text, eq_text}
use samfscon.Srv.GlobalConf.Types.{GlobalOption}
use Server.{server_options}
use Protocol.{protocol_options}
use Access.{access_options}
use Files.{files_options}
use Printing.{printing_options}
use Winbind.{winbind_options}
use Advanced.{advanced_options}

abbrev pub catalogue : List GlobalOption
catalogue =
    server_options
    ++ (protocol_options
        ++ (access_options
            ++ (files_options ++ (printing_options ++ (winbind_options ++ advanced_options)))))

unfoldable pub find_option : List GlobalOption → Text → Option GlobalOption
find_option [] name = none
find_option (o ∷ os) name = if eq_text o.name name then some o else find_option os name

-- `BY_NAME.get(name)`; no two options of the catalogue have one name.
unfoldable pub by_name : Text → Option GlobalOption
unfolding find_option
by_name name = find_option catalogue name
