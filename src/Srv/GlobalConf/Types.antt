-- ===== src/Srv/GlobalConf/Types.antt =====
-- `GlobalOption` of backend/samfscon/srv/globalconf.py, its constants, and the dialects of SMB.
use samfscon.Prelude.{Option, List, [], ◌∷◌, String}
use samfscon.Prelude.Text.{Text, codes}
use samfscon.Srv.ShareConf.Types.{OptionType}

-- `GROUP_SERVER` to `GROUP_ADVANCED`
pub data Group : Type 0 where
  server protocol access files printing winbind advanced : Group

-- `SAFE`, `RISKY`, `READ_ONLY`
pub data Safety : Type 0 where
  safe risky read_only : Safety

-- `EFFECT_CONNECTION`, `EFFECT_RELOAD`, `EFFECT_RESTART`
pub data Effect : Type 0 where
  connection reload restart : Effect

-- `DAEMON_SMBD`, `DAEMON_NMBD`, `DAEMON_WINBINDD`
pub data Daemon : Type 0 where
  smbd nmbd winbindd : Daemon

-- `MODE_AD_MEMBER` of backend/samfscon/config.py, a kind of server.
abbrev pub mode_ad_member : Text
mode_ad_member = codes "ad_member"

pub record GlobalOption : Type 0 where
  pub name : Text
  pub type : OptionType
  pub group : Group
  pub default : Option Text
  pub default_note : Option Text
  pub choices : List Text
  pub doc : String
  pub doc_de : String
  pub safety : Safety
  pub risk : Option Text
  pub read_only_reason : Option Text
  pub read_only_in : List (Text × Text)
  pub mode_only : Option Text
  pub effect : Effect
  pub daemons : List Daemon
  pub live_source : Option Text

-- `DIALECTS`, the oldest first
abbrev pub dialects : List Text
dialects =
    codes "NT1"
    ∷ codes "SMB2_02"
    ∷ codes "SMB2_10"
    ∷ codes "SMB3_00"
    ∷ codes "SMB3_02"
    ∷ codes "SMB3_11"
    ∷ []

-- `DIALECT_ALIASES`
abbrev pub dialect_aliases : List (Text × Text)
dialect_aliases =
    (codes "SMB1", codes "NT1")
    ∷ (codes "LANMAN2", codes "NT1")
    ∷ (codes "SMB2", codes "SMB2_02")
    ∷ (codes "SMB2_FF", codes "SMB2_10")
    ∷ (codes "SMB3", codes "SMB3_00")
    ∷ []
