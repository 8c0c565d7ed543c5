-- ===== src/Core/Findings/Evaluate/Silence.antt =====
-- A rule speaks only of what was read.
use samfscon.Prelude.{Bool, Option, none, some, List, [], ◌∷◌, ◌≡◌, refl, map, if◌then◌else◌, arith}
use samfscon.Core.Findings.Types.{Share, Registry}
use samfscon.Core.Findings.Stored.{stored_of, option_of}
use samfscon.Core.Findings.Hosts.{IpAddress}
use samfscon.Core.Findings.Paths.{disk_of, disks_of, path_findings, live_names}
use samfscon.Core.Findings.Evaluate.{
  Inputs, option_findings_of, share_findings, shares_part, gather, evaluate,
}

-- A share without the options of a configuration that was not read.
pub without_unread : Share → Share
without_unread e = if e.config_readable then e else record e { options = none }

-- The same of the arguments of `evaluate`.
abbrev pub without_unread_shares : Option (List Share) → Option (List Share)
without_unread_shares none = none
without_unread_shares (some entries) = some (map without_unread entries)

module _ (e : Share) where
  stored-without_unread : stored_of (without_unread e) ≡ stored_of e
  unfolding stored_of without_unread
  stored-without_unread = ground arith

  name-without_unread : (without_unread e).name ≡ e.name
  unfolding without_unread
  name-without_unread = ground arith

  type-without_unread : (without_unread e).type ≡ e.type
  unfolding without_unread
  type-without_unread = ground arith

  path-without_unread : (without_unread e).path ≡ e.path
  unfolding without_unread
  path-without_unread = ground arith

  disk-without_unread : disk_of (without_unread e) ≡ disk_of e
  unfolding disk_of option_of
  disk-without_unread = simp (stored-without_unread, name-without_unread, path-without_unread)

disks-without_unread :
    (entries : List Share) → disks_of (map without_unread entries) ≡ disks_of entries
unfolding disks_of
disks-without_unread [] = refl
disks-without_unread (e ∷ entries) =
    simp (disk-without_unread, type-without_unread, disks-without_unread entries)

options-without_unread :
    (ip : IpAddress) (entries : List Share)
    → option_findings_of ip (map without_unread entries) ≡ option_findings_of ip entries
unfolding option_findings_of
options-without_unread ip [] = refl
options-without_unread ip (e ∷ entries) =
    rw (stored-without_unread e, name-without_unread e, options-without_unread ip entries) refl

live-without_unread :
    (entries : List Share) → live_names (map without_unread entries) ≡ live_names entries
unfolding live_names
live-without_unread [] = refl
live-without_unread (e ∷ entries) = simp (name-without_unread, live-without_unread entries)

shares-without_unread :
    (ip : IpAddress) (entries : Option (List Share)) (registry : Option Registry) (suppress : Bool)
    → shares_part ip (without_unread_shares entries) registry suppress
      ≡ shares_part ip entries registry suppress
unfolding shares_part share_findings path_findings
shares-without_unread ip none registry suppress = refl
shares-without_unread ip (some entries) registry suppress =
    rw
      (disks-without_unread entries, options-without_unread ip entries, live-without_unread entries)
      refl

-- No finding depends on the options of a share whose configuration could not be read: `evaluate`
-- returns the same when they are taken away.
pub evaluate-without_unread :
    (ip : IpAddress) (i : Inputs)
    → evaluate ip (record i { shares = without_unread_shares i.shares }) ≡ evaluate ip i
unfolding evaluate gather
evaluate-without_unread ip i = rw shares-without_unread refl
