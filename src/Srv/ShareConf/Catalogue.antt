-- ===== src/Srv/ShareConf/Catalogue.antt =====
-- `CATALOGUE` of backend/samfscon/srv/shareconf.py, and what is looked up in it.
mod Basic
mod Access
mod Files
mod Vfs
mod Advanced
use samfscon.Prelude.{
  Bool, Option, none, some, List, [], ◌∷◌, ◌++◌, if◌then◌else◌, map, String, any, ◌||◌,
}
use samfscon.Prelude.Text.{Text, codes, eq_text}
use samfscon.Prelude.Dict
use samfscon.Prelude.Dict.{Dict}
use samfscon.Srv.ShareConf.Types.{ShareOption}
use Basic.{basic_options}
use Access.{access_options}
use Files.{files_options}
use Vfs.{vfs_options}
use Advanced.{advanced_options}

abbrev pub catalogue : List ShareOption
catalogue =
    basic_options ++ (access_options ++ (files_options ++ (vfs_options ++ advanced_options)))

pub find_option : List ShareOption → Text → Option ShareOption
find_option [] name = none
find_option (o ∷ os) name = if eq_text o.name name then some o else find_option os name

-- `BY_NAME.get(name)`; no two options of the catalogue have one name.
unfoldable pub by_name : Text → Option ShareOption
unfolding find_option
by_name name = find_option catalogue name

-- `SHOWN_SEPARATELY`, which is `SRVSVC_OWNED`
unfoldable pub is_srvsvc_owned : Text → Bool
is_srvsvc_owned name = eq_text name (codes "path") || eq_text name (codes "comment")
