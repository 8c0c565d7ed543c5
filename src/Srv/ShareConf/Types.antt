-- ===== src/Srv/ShareConf/Types.antt =====
-- `Option` of backend/samfscon/srv/shareconf.py, and the kinds and groups of options.
use samfscon.Prelude.{Option, List, String}
use samfscon.Prelude.Text.{Text}

-- `TYPE_BOOL` to `TYPE_CHOICE`
pub data OptionType : Type 0 where
  bool text list mode int choice : OptionType

-- `GROUP_BASIC` to `GROUP_ADVANCED`
pub data Group : Type 0 where
  basic access files vfs advanced : Group

-- The class `Option` of the source.
pub record ShareOption : Type 0 where
  pub name : Text
  pub type : OptionType
  pub group : Group
  pub default : Option Text
  pub choices : List Text
  pub doc : String
  pub doc_de : String
  pub requires_vfs : Option Text
