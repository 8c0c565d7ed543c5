-- ===== src/Core/Findings/Evaluate/Suppressed.antt =====
-- One finding about the registry in place of one for each share.
use samfscon.Prelude.{
  Bool, true, false, List, Option, ◌≡◌, refl, sym, subst, All-append, any, if◌then◌else◌, [],
}
use samfscon.Prelude.Text.{Text, codes, eq_text}
use samfscon.Prelude.Sort.{All-sort}
use samfscon.Core.Findings.Types.{Registry}
use samfscon.Core.Findings.Hosts.{IpAddress}
use samfscon.Core.Findings.Management.{management_findings}
use samfscon.Core.Findings.Paths.{not_served_findings}
use samfscon.Core.Findings.Evaluate.{Inputs, gather, evaluate, finding_le, has_id}
use samfscon.Core.Findings.Evaluate.Ids.{rest-ids}
use samfscon.Core.Findings.Ids.{AllIds, Covers, management-ids}

abbrev pub IsOther : Text → Type 0
IsOther id = eq_text id (codes "share_configured_not_served") ≡ false

IsOther-Covers : Covers IsOther
unfolding eq_text
IsOther-Covers = record {
  registry_config_absent = refl;
  registry_shares_not_served = refl;
  disk_operator_unassigned = refl;
  disk_operator_broadly_granted = refl;
  transport_peer_unverified = refl;
  transport_this_session = refl;
  share_guest_ok = refl;
  share_guest_writable = refl;
  share_wide_links = refl;
  share_create_mask_world_writable = refl;
  share_force_user = refl;
  share_force_user_root = refl;
  share_hosts_allow_unparsable = refl;
  share_hosts_deny_without_allow = refl;
  share_hidden_name_browseable = refl;
  share_vfs_option_without_module = refl;
  share_path_nested = refl;
  share_path_duplicate = refl;
  share_path_sensitive = refl;
  share_root_not_writable = refl;
  guest_session_present = refl;
}

last-IsOther :
    (suppress : Bool) (registry : Option Registry) (live : List Text)
    → suppress ≡ true
    → AllIds IsOther (if suppress then [] else not_served_findings live registry)
last-IsOther suppress registry live s =
    subst (λ b. AllIds IsOther (if b then [] else not_served_findings live registry)) (sym s) tt

-- When `_management` reports that the registry's shares are not served, `evaluate` has no finding
-- `share_configured_not_served`, for any share.
pub evaluate-IsOther :
    (ip : IpAddress) (i : Inputs)
    → any
        (has_id (codes "registry_shares_not_served"))
        (management_findings i.capabilities i.registry)
      ≡ true
    → AllIds IsOther (evaluate ip i)
unfolding evaluate gather
evaluate-IsOther ip i reported =
    All-sort finding_le (λ f. IsOther f.id) (gather ip i)
      (All-append (λ f. IsOther f.id) _ _
        (management-ids IsOther IsOther-Covers i.capabilities i.registry)
        (rest-ids IsOther IsOther-Covers ip i _ (λ live. last-IsOther _ i.registry live reported)))
