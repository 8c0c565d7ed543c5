-- ===== src/Core/Findings/Options.antt =====
-- `_share_options` and `_vfs_options_without_module` of backend/samfscon/core/findings.py.
pub mod Vfs
use samfscon.Prelude.{
  Bool, true, false, Option, none, some, List, [], ◌∷◌, ◌++◌, if◌then◌else◌, ◌&&◌, ◌||◌, not,
}
use samfscon.Prelude.Text.{
  Text, codes, eq_text, strip, lower, upper, starts_with, is_empty, is_within, ends_with,
}
use samfscon.Prelude.Dict
use samfscon.Prelude.Dict.{Dict}
use samfscon.Core.Findings.Types.{
  Finding, Severity, high, medium, low, shares, Value, null, flag, count, word, words, pairs,
  groups, word_or_null,
}
use samfscon.Core.Findings.Stored.{flag_of, is_true, is_false}
use samfscon.Core.Findings.Masks.{world_writable_masks, MaskReport, world_write}
use samfscon.Core.Findings.Hosts.{IpAddress, unrecognised_hosts, is_one_of}
use Vfs.{vfs_findings}

guest_evidence : Dict Text → Dict Value
guest_evidence stored =
    (codes "option", word (codes "guest ok"))
    ∷ (codes "value", word (codes "yes"))
    ∷ (codes "read_only", word_or_null (Dict.get stored (codes "read only")))
    ∷ (codes "observed_in", word (codes "share_registry_key"))
    ∷ (codes "global_readable", flag false)
    ∷ []

unfoldable pub share_finding : Text → Severity → Text → Dict Value → Finding
share_finding id severity name evidence = record {
  id = id;
  severity = severity;
  area = shares;
  subject = name;
  evidence = evidence;
}

unfoldable pub guest_findings : Text → Dict Text → List Finding
unfolding guest_evidence share_finding
guest_findings name stored =
    let guest = is_true (flag_of stored (codes "guest ok")) in
    if guest && is_false (flag_of stored (codes "read only"))
    then share_finding (codes "share_guest_writable") high name (guest_evidence stored) ∷ []
    else if guest
    then share_finding (codes "share_guest_ok") medium name (guest_evidence stored) ∷ []
    else []

unfoldable pub wide_links_findings : Text → Dict Text → List Finding
unfolding share_finding
wide_links_findings name stored =
    if is_true (flag_of stored (codes "wide links"))
    then share_finding (codes "share_wide_links") high name (
        (codes "wide_links", word_or_null (Dict.get stored (codes "wide links")))
        ∷ (codes "follow_symlinks", word_or_null (Dict.get stored (codes "follow symlinks")))
        ∷ (codes "unix_extensions", null)
        ∷ (codes "unix_extensions_note", word (codes "global_only"))
        ∷ [])
      ∷ []
    else []

unfoldable pub mask_findings_of : Text → Dict Text → List Text → List Finding
unfolding share_finding
mask_findings_of name [] unparsed = []
mask_findings_of name (o ∷ options) unparsed =
    share_finding (codes "share_create_mask_world_writable") medium name (
      (codes "options", pairs (o ∷ options))
      ∷ (codes "world_write", count world_write)
      ∷ (codes "unparsed", words unparsed)
      ∷ [])
    ∷ []

unfoldable pub mask_findings : Text → Dict Text → List Finding
unfolding mask_findings_of
mask_findings name stored =
    let masks = world_writable_masks stored in mask_findings_of name masks.options masks.unparsed

-- `(stored.get(name) or "").strip()`
stripped : Dict Text → Text → Text
stripped stored name = elim (Dict.get stored name) [ none ↦ [] | some raw ↦ strip raw ]

unfoldable pub force_user_finding : Text → Text → Finding
unfolding share_finding
force_user_finding name user =
    let root = is_one_of (codes "root" ∷ codes "0" ∷ []) (lower user) in
    share_finding (if root then codes "share_force_user_root" else codes "share_force_user")
      (if root then high else low) name
      ((codes "option", word (codes "force user")) ∷ (codes "value", word user) ∷ [])

unfoldable pub force_user_findings : Text → Dict Text → List Finding
unfolding stripped force_user_finding
force_user_findings name stored =
    let user = stripped stored (codes "force user") in
    if is_empty user then [] else force_user_finding name user ∷ []

-- The values of `hosts allow` and `hosts deny` that are stored.
stored_values : Dict Text → List Text → Dict Text
stored_values stored [] = []
stored_values stored (option ∷ options) =
    let rest = stored_values stored options in
    elim (Dict.get stored option) [ none ↦ rest | some raw ↦ (option, raw) ∷ rest ]

abbrev recognised_forms : List Text
recognised_forms =
    codes "address"
    ∷ codes "cidr"
    ∷ codes "netmask"
    ∷ codes "prefix"
    ∷ codes "hostname"
    ∷ codes "@netgroup"
    ∷ codes "ALL"
    ∷ codes "LOCAL"
    ∷ codes "EXCEPT"
    ∷ []

unfoldable pub hosts_findings_of : Text → Dict Text → Dict (List Text) → List Finding
unfolding share_finding stored_values
hosts_findings_of name stored [] = []
hosts_findings_of name stored (u ∷ unrecognised) =
    share_finding (codes "share_hosts_allow_unparsable") medium name (
      (codes "unrecognised", groups (u ∷ unrecognised))
      ∷ (
        codes "values",
        pairs (stored_values stored (codes "hosts allow" ∷ codes "hosts deny" ∷ [])),
      )
      ∷ (codes "recognised_forms", words recognised_forms)
      ∷ [])
    ∷ []

unfoldable pub hosts_findings : IpAddress → Text → Dict Text → List Finding
unfolding hosts_findings_of
hosts_findings ip name stored = hosts_findings_of name stored (unrecognised_hosts ip stored)

is_absent : {A : Type 0} → Option A → Bool
is_absent none = true
is_absent (some a) = false

unfoldable pub deny_findings : Text → Dict Text → List Finding
unfolding share_finding stripped is_absent
deny_findings name stored =
    let deny = upper (stripped stored (codes "hosts deny")) in
    if not (is_empty deny)
      && is_absent (Dict.get stored (codes "hosts allow"))
      && (is_within (codes "ALL") deny || is_within (codes "0.0.0.0/0") deny)
    then share_finding (codes "share_hosts_deny_without_allow") low name (
        (codes "hosts_deny", word_or_null (Dict.get stored (codes "hosts deny")))
        ∷ (codes "hosts_allow", null)
        ∷ (codes "global_readable", flag false)
        ∷ [])
      ∷ []
    else []

unfoldable pub hidden_findings : Text → Dict Text → List Finding
unfolding share_finding
hidden_findings name stored =
    if ends_with b'$' name && is_true (flag_of stored (codes "browseable"))
    then share_finding (codes "share_hidden_name_browseable") low name (
        (codes "name", word name)
        ∷ (codes "browseable", word_or_null (Dict.get stored (codes "browseable")))
        ∷ [])
      ∷ []
    else []

-- `_share_options`
unfoldable pub option_findings : IpAddress → Text → Dict Text → List Finding
option_findings ip name stored =
    guest_findings name stored
    ++ (wide_links_findings name stored
        ++ (mask_findings name stored
            ++ (force_user_findings name stored
                ++ (hosts_findings ip name stored
                    ++ (deny_findings name stored
                        ++ (hidden_findings name stored ++ vfs_findings name stored))))))
