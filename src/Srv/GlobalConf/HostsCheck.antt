-- ===== src/Srv/GlobalConf/HostsCheck.antt =====
-- `_check_hosts` of backend/samfscon/srv/globalconf.py.
pub mod Lockout
mod Tests
use samfscon.Prelude.{
  Bool, true, false, Option, none, some, List, [], ◌∷◌, if◌then◌else◌, ◌&&◌, not,
}
use samfscon.Prelude.Text.{Text, codes, strip, is_empty}
use samfscon.Prelude.Dict
use samfscon.Prelude.Dict.{Dict}
use samfscon.Srv.GlobalConf.Validate.{is_confirmed}
use samfscon.Srv.GlobalConf.Hosts.{
  IpLibrary, Reason, own_address_unknown, except_clause, entries_not_decidable, Verdict, covered,
  excluded, undecidable, HostsVerdict, hosts_verdict,
}

abbrev pub hosts_allow : Text
hosts_allow = codes "hosts allow"

abbrev pub hosts_deny : Text
hosts_deny = codes "hosts deny"

-- `UNDECIDABLE_CONFIRM_FOR` and `ADDRESS_UNKNOWN_CONFIRM`
abbrev pub allow_undecidable : Text
allow_undecidable = codes "hosts allow:undecidable"

abbrev pub deny_undecidable : Text
deny_undecidable = codes "hosts deny:undecidable"

abbrev pub address_unknown : Text
address_unknown = codes "own address:unknown"

-- What the check comes to: it passes, it refuses a list, or it asks for a confirmation, with the
-- option, its value, the entries that were not decided, the reason and the token to confirm with.
pub data HostsCheck : Type 0 where
  passes : HostsCheck
  allow_excludes_console : Text → HostsCheck
  deny_includes_console : Text → HostsCheck
  confirmation_needed : Text → Text → List Text → Reason → Text → HostsCheck

-- `effective`
unfoldable pub text_of_change : Option Text → Text
text_of_change none = []
text_of_change (some value) = strip value

unfoldable pub effective : Dict (Option Text) → Dict Text → Text → Text
unfolding text_of_change
effective checked stored name = elim (Dict.get checked name) [
  | some change ↦ text_of_change change
  | none ↦ text_of_change (Dict.get stored name)
]

pub token_for : Text → Reason → Text
token_for token own_address_unknown = address_unknown
token_for token except_clause = token
token_for token entries_not_decidable = token

-- `undecidable`
pub unless_confirmed : List Text → Text → Text → Text → Reason → List Text → HostsCheck
unfolding token_for
unless_confirmed confirm option value token reason entries =
    if is_confirmed confirm (token_for token reason)
    then passes
    else confirmation_needed option value entries reason (token_for token reason)

unfoldable pub judge_allow : List Text → Text → Verdict → HostsCheck
unfolding unless_confirmed
judge_allow confirm allow covered = passes
judge_allow confirm allow excluded = allow_excludes_console allow
judge_allow confirm allow (undecidable reason entries) =
    unless_confirmed confirm hosts_allow allow allow_undecidable reason entries

pub judge_deny : List Text → Text → Verdict → HostsCheck
unfolding unless_confirmed
judge_deny confirm deny covered = deny_includes_console deny
judge_deny confirm deny excluded = passes
judge_deny confirm deny (undecidable reason entries) =
    unless_confirmed confirm hosts_deny deny deny_undecidable reason entries

module _ {A N : Type 0} (ip : IpLibrary A N) (confirm : List Text) (address : Option Text) where
  -- The check of the two lists as they will stand.
  unfoldable pub check_lists : Text → Text → HostsCheck
  unfolding judge_allow judge_deny
  check_lists [] [] = passes
  check_lists [] (d ∷ deny) =
      judge_deny confirm (d ∷ deny) (hosts_verdict ip (d ∷ deny) address).verdict
  check_lists (a ∷ allow) deny =
      judge_allow confirm (a ∷ allow) (hosts_verdict ip (a ∷ allow) address).verdict

  -- `_check_hosts`
  unfoldable pub check_hosts : Dict (Option Text) → Dict Text → HostsCheck
  unfolding check_lists effective
  check_hosts checked stored =
      if not (Dict.has checked hosts_allow) && not (Dict.has checked hosts_deny)
      then passes
      else check_lists (effective checked stored hosts_allow) (effective checked stored hosts_deny)
