-- ===== src/Core/Findings/Evaluate/Declared.antt =====
-- Each finding has an id of `IDS`.
use samfscon.Prelude.{
  Bool, true, false, Option, List, ◌≡◌, refl, All-append, any, if◌then◌else◌, [],
}
use samfscon.Prelude.Text.{Text, eq_text}
use samfscon.Prelude.Sort.{All-sort}
use samfscon.Core.Findings.Types.{Registry, ids}
use samfscon.Core.Findings.Hosts.{IpAddress}
use samfscon.Core.Findings.Paths.{not_served_findings}
use samfscon.Core.Findings.Evaluate.{Inputs, gather, evaluate, finding_le}
use samfscon.Core.Findings.Evaluate.Ids.{rest-ids}
use samfscon.Core.Findings.Ids.{AllIds, Covers, management-ids, not_served-ids}

abbrev pub is_declared : Text → Bool
is_declared id = any (λ d. eq_text d id) ids

abbrev pub IsDeclared : Text → Type 0
IsDeclared id = is_declared id ≡ true

IsDeclared-Covers : Covers IsDeclared
unfolding eq_text
IsDeclared-Covers = record {
  registry_config_absent = refl;
  registry_shares_not_served = refl;
  disk_operator_unassigned = refl;
  disk_operator_broadly_granted = refl;
  transport_peer_unverified = refl;
  transport_this_session = refl;
  share_guest_ok = refl;
  share_guest_writable = refl;
  share_wide_links = refl;
  share_create_mask_world_writable = refl;
  share_force_user = refl;
  share_force_user_root = refl;
  share_hosts_allow_unparsable = refl;
  share_hosts_deny_without_allow = refl;
  share_hidden_name_browseable = refl;
  share_vfs_option_without_module = refl;
  share_path_nested = refl;
  share_path_duplicate = refl;
  share_path_sensitive = refl;
  share_root_not_writable = refl;
  guest_session_present = refl;
}

last-IsDeclared :
    (suppress : Bool) (registry : Option Registry) (live : List Text)
    → AllIds IsDeclared (if suppress then [] else not_served_findings live registry)
unfolding eq_text
last-IsDeclared true registry live = tt
last-IsDeclared false registry live = not_served-ids IsDeclared refl live registry

-- Every finding of `evaluate` carries an id that `IDS` declares, whatever the inputs.
pub evaluate-IsDeclared : (ip : IpAddress) (i : Inputs) → AllIds IsDeclared (evaluate ip i)
unfolding evaluate gather
evaluate-IsDeclared ip i =
    All-sort finding_le (λ f. IsDeclared f.id) (gather ip i)
      (All-append (λ f. IsDeclared f.id) _ _
        (management-ids IsDeclared IsDeclared-Covers i.capabilities i.registry)
        (rest-ids IsDeclared IsDeclared-Covers ip i _ (last-IsDeclared _ i.registry)))
