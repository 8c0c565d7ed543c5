-- ===== src/Core/Findings/Ids.antt =====
-- The ids of the findings of the single rules.
use samfscon.Prelude.{
  ℕ, Bool, true, false, Option, none, some, List, [], ◌∷◌, ◌++◌, if◌then◌else◌, All, All-append,
  Option-cases, inl, inr,
}
use samfscon.Prelude.Text.{Text, codes}
use samfscon.Prelude.Dict
use samfscon.Prelude.Dict.{Dict}
use samfscon.Prelude.Sort.{sort}
use samfscon.Core.Findings.Types.{
  Finding, Capabilities, Registry, Transport, Server, Share, SessionEntry,
}
use samfscon.Core.Findings.Hosts.{IpAddress}
use samfscon.Core.Findings.Management.{
  management_findings, config_absent, shares_not_served, operator_unassigned, broadly_granted,
  broadly_granted_to, broad_holders,
}
use samfscon.Core.Findings.Connection.{
  transport_findings, peer_unverified, this_session, root_findings, root_findings_from,
  root_finding, name_le, session_findings, guest_finding,
}
use samfscon.Core.Findings.Options.{
  option_findings, guest_findings, wide_links_findings, mask_findings, mask_findings_of,
  force_user_findings, force_user_finding, hosts_findings, hosts_findings_of, deny_findings,
  hidden_findings, share_finding,
}
use samfscon.Core.Findings.Options.Vfs.{vfs_findings, vfs_finding, findings_of}
use samfscon.Core.Findings.Paths.{
  Disk, path_findings, path_findings_of, findings_of_each, duplicate_of, nested_in, nested_finding,
  sensitive_findings, sensitive_of, not_served_findings, not_served_in, not_served_finding,
}

abbrev pub AllIds : (Text → Type 0) → List Finding → Type 0
AllIds P fs = All (λ f. P f.id) fs

-- The predicate holds of the ids of every rule but one.
pub record Covers (P : Text → Type 0) : Type 0 where
  pub registry_config_absent : P (codes "registry_config_absent")
  pub registry_shares_not_served : P (codes "registry_shares_not_served")
  pub disk_operator_unassigned : P (codes "disk_operator_unassigned")
  pub disk_operator_broadly_granted : P (codes "disk_operator_broadly_granted")
  pub transport_peer_unverified : P (codes "transport_peer_unverified")
  pub transport_this_session : P (codes "transport_this_session")
  pub share_guest_ok : P (codes "share_guest_ok")
  pub share_guest_writable : P (codes "share_guest_writable")
  pub share_wide_links : P (codes "share_wide_links")
  pub share_create_mask_world_writable : P (codes "share_create_mask_world_writable")
  pub share_force_user : P (codes "share_force_user")
  pub share_force_user_root : P (codes "share_force_user_root")
  pub share_hosts_allow_unparsable : P (codes "share_hosts_allow_unparsable")
  pub share_hosts_deny_without_allow : P (codes "share_hosts_deny_without_allow")
  pub share_hidden_name_browseable : P (codes "share_hidden_name_browseable")
  pub share_vfs_option_without_module : P (codes "share_vfs_option_without_module")
  pub share_path_nested : P (codes "share_path_nested")
  pub share_path_duplicate : P (codes "share_path_duplicate")
  pub share_path_sensitive : P (codes "share_path_sensitive")
  pub share_root_not_writable : P (codes "share_root_not_writable")
  pub guest_session_present : P (codes "guest_session_present")

module _ (P : Text → Type 0) where
  more :
      (b : Bool) (f : Finding) (fs : List Finding)
      → P f.id
      → AllIds P fs
      → AllIds P (if b then f ∷ fs else fs)
  more true f fs p q = (p, q)
  more false f fs p q = q

  one : (f : Finding) → P f.id → AllIds P (f ∷ [])
  one f p = (p, tt)

  one_if : (b : Bool) (f : Finding) → P f.id → AllIds P (if b then f ∷ [] else [])
  one_if b f p = more b f [] p tt

  one_of :
      (b c : Bool) (f g : Finding)
      → P f.id
      → P g.id
      → AllIds P (if b then f ∷ [] else if c then g ∷ [] else [])
  one_of true c f g p q = (p, tt)
  one_of false c f g p q = one_if c g q

  one_unless : (b : Bool) (f : Finding) → P f.id → AllIds P (if b then [] else f ∷ [])
  one_unless true f p = tt
  one_unless false f p = (p, tt)

  join : (xs ys : List Finding) → AllIds P xs → AllIds P ys → AllIds P (xs ++ ys)
  join xs ys p q = All-append (λ f. P f.id) xs ys p q

  pub not_served-ids :
      P (codes "share_configured_not_served")
      → (live : List Text) (registry : Option Registry)
      → AllIds P (not_served_findings live registry)
  unfolding not_served_findings not_served_in not_served_finding
  not_served-ids p live none = tt
  not_served-ids p live (some registry) = each _
    where
      each : (sections : Dict (Dict Text)) → AllIds P (not_served_in registry live sections)
      each [] = tt
      each (s ∷ sections) = more _ _ _ p (each sections)

module _ (P : Text → Type 0) (h : Covers P) where
  pub management-ids :
      (c : Option Capabilities) (registry : Option Registry)
      → AllIds P (management_findings c registry)
  unfolding management_findings config_absent operator_unassigned broadly_granted shares_not_served
      broadly_granted_to
  management-ids none registry = tt
  management-ids (some c) registry = join P _ _ (one_if P _ _ h.registry_config_absent) (
      join P _ _ (not_served registry) (
        join P _ _ (one_if P _ _ h.disk_operator_unassigned)
          (granted (broad_holders c.disk_operator_sids))))
    where
      not_served : (r : Option Registry) → AllIds P (shares_not_served r)
      not_served none = tt
      not_served (some r) = one_if P _ _ h.registry_shares_not_served

      granted : (sids : List Text) → AllIds P (broadly_granted_to c sids)
      granted [] = tt
      granted (b ∷ broad) = (h.disk_operator_broadly_granted, tt)

  pub transport-ids :
      (t : Transport) (server : Option Server) → AllIds P (transport_findings t server)
  unfolding transport_findings peer_unverified this_session
  transport-ids t server =
      join P (peer_unverified t server) (this_session t ∷ [])
        (one_if P _ _ h.transport_peer_unverified) (h.transport_this_session, tt)

  pub session-ids : (entries : List SessionEntry) → AllIds P (session_findings entries)
  unfolding session_findings guest_finding
  session-ids [] = tt
  session-ids (e ∷ entries) = more P _ _ _ h.guest_session_present (session-ids entries)

  root-ids_from : (roots : Dict (Option Bool)) → AllIds P (root_findings_from roots)
  unfolding root_findings_from root_finding
  root-ids_from [] = tt
  root-ids_from (r ∷ roots) = more P _ _ _ h.share_root_not_writable (root-ids_from roots)

  pub root-ids : (roots : Dict (Option Bool)) → AllIds P (root_findings roots)
  unfolding root_findings
  root-ids roots = root-ids_from (sort name_le roots)

  vfs-ids : (name : Text) (stored : Dict Text) → AllIds P (vfs_findings name stored)
  unfolding vfs_findings findings_of vfs_finding
  vfs-ids name stored = elim (Option-cases (Dict.get stored (codes "vfs objects"))) [
    | inl absent ↦ rw (absent, vfs_findings) tt
    | inr (objects, there) ↦ rw (there, vfs_findings) (each _)
  ]
    where
      each : (missing : Dict (List Text)) → AllIds P (findings_of name stored missing)
      each [] = tt
      each (m ∷ missing) = (h.share_vfs_option_without_module, each missing)

  hosts-ids :
      (name : Text) (stored : Dict Text) (bad : Dict (List Text))
      → AllIds P (hosts_findings_of name stored bad)
  unfolding hosts_findings_of share_finding
  hosts-ids name stored [] = tt
  hosts-ids name stored (b ∷ bad) = (h.share_hosts_allow_unparsable, tt)

  mask-ids :
      (name : Text) (options : Dict Text) (unparsed : List Text)
      → AllIds P (mask_findings_of name options unparsed)
  unfolding mask_findings_of share_finding
  mask-ids name [] unparsed = tt
  mask-ids name (o ∷ options) unparsed = (h.share_create_mask_world_writable, tt)

  user-ids :
      (root : Bool) → P (if root then codes "share_force_user_root" else codes "share_force_user")
  user-ids true = h.share_force_user_root
  user-ids false = h.share_force_user

  guest_findings-ids : (name : Text) (stored : Dict Text) → AllIds P (guest_findings name stored)
  unfolding guest_findings share_finding
  guest_findings-ids name stored = one_of P _ _ _ _ h.share_guest_writable h.share_guest_ok

  wide_links_findings-ids :
      (name : Text) (stored : Dict Text) → AllIds P (wide_links_findings name stored)
  unfolding wide_links_findings share_finding
  wide_links_findings-ids name stored = one_if P _ _ h.share_wide_links

  mask_findings-ids : (name : Text) (stored : Dict Text) → AllIds P (mask_findings name stored)
  unfolding mask_findings
  mask_findings-ids name stored = mask-ids name _ _

  force_user_findings-ids :
      (name : Text) (stored : Dict Text) → AllIds P (force_user_findings name stored)
  unfolding force_user_findings force_user_finding share_finding
  force_user_findings-ids name stored = one_unless P _ _ (user-ids _)

  deny_findings-ids : (name : Text) (stored : Dict Text) → AllIds P (deny_findings name stored)
  unfolding deny_findings share_finding
  deny_findings-ids name stored = one_if P _ _ h.share_hosts_deny_without_allow

  hidden_findings-ids : (name : Text) (stored : Dict Text) → AllIds P (hidden_findings name stored)
  unfolding hidden_findings share_finding
  hidden_findings-ids name stored = one_if P _ _ h.share_hidden_name_browseable

  hosts_findings-ids :
      (ip : IpAddress) (name : Text) (stored : Dict Text) → AllIds P (hosts_findings ip name stored)
  unfolding hosts_findings
  hosts_findings-ids ip name stored = hosts-ids name stored _

  pub option_findings-ids :
      (ip : IpAddress) (name : Text) (stored : Dict Text)
      → AllIds P (option_findings ip name stored)
  unfolding option_findings
  option_findings-ids ip name stored = join P _ _ (guest_findings-ids name stored) (
      join P _ _ (wide_links_findings-ids name stored) (
        join P _ _ (mask_findings-ids name stored) (
          join P _ _ (force_user_findings-ids name stored) (
            join P _ _ (hosts_findings-ids ip name stored) (
              join P _ _ (deny_findings-ids name stored)
                (join P _ _ (hidden_findings-ids name stored) (vfs-ids name stored)))))))

  duplicate-ids : (n : ℕ) (d : Disk) (others : List Text) → AllIds P (duplicate_of n d others)
  unfolding duplicate_of
  duplicate-ids n d [] = tt
  duplicate-ids n d (o ∷ others) = (h.share_path_duplicate, tt)

  nested-ids : (n : ℕ) (d : Disk) (disks : List Disk) → AllIds P (nested_in n d disks)
  unfolding nested_in nested_finding
  nested-ids n d [] = tt
  nested-ids n d (e ∷ disks) = more P _ _ _ h.share_path_nested (nested-ids n d disks)

  sensitive-ids : (d : Disk) → AllIds P (sensitive_findings d)
  unfolding sensitive_findings
  sensitive-ids d = elim (Option-cases (sensitive_of d.path)) [
    | inl harmless ↦ rw (harmless, sensitive_findings) tt
    | inr (s, found) ↦ rw (found, sensitive_findings) (h.share_path_sensitive, tt)
  ]

  each-ids : (n : ℕ) (known disks : List Disk) → AllIds P (findings_of_each n known disks)
  unfolding findings_of_each
  each-ids n known [] = tt
  each-ids n known (d ∷ disks) =
      join P _ _ (duplicate-ids n d _)
        (join P _ _ (nested-ids n d known) (join P _ _ (sensitive-ids d) (each-ids n known disks)))

  pub path-ids : (entries : List Share) → AllIds P (path_findings entries)
  unfolding path_findings path_findings_of
  path-ids entries = each-ids _ _ _
