-- ===== src/Srv/GlobalConf/Write/Tests.antt =====
-- A change of the list of hosts, and what the server reports after it.
use samfscon.Prelude.{
  Bool, true, false, Option, none, some, [], ◌∷◌, ◌≡◌, refl, ◌⊎◌, inr, all, ◌||◌, ◌&&◌, not, ◌==◌,
  if◌then◌else◌,
}
use samfscon.Prelude.Text.{
  Text, codes, eq_text, is_digit, is_empty, strip, lower, upper, to_upper, starts_with, is_space,
  lstrip_if, rstrip_if,
}
use samfscon.Prelude.Words.{words, unwords, split_on}
use samfscon.Prelude.HostName.{is_address_prefix, is_host_name}
use samfscon.Prelude.Dict
use samfscon.Prelude.Dict.{Dict}
use samfscon.Srv.ShareConf.Value.{is_separator, validate_value, validate_text, find_choice}
use samfscon.Srv.GlobalConf.Types.{mode_ad_member}
use samfscon.Srv.GlobalConf.Catalogue.{by_name}
use samfscon.Srv.GlobalConf.Dialect.{is_window_empty, given, is_before, dialect_index}
use samfscon.Srv.GlobalConf.Validate.{
  accept, validate, validate_from, check_entry, check_option, check_safety, validate_one,
  prefix_reason, safety_for, reason_in, applies_in, is_confirmed,
}
use samfscon.Srv.GlobalConf.Hosts.{
  IpLibrary, HostEntry, covers, host_entries, parse_host_entry, kind_of, hosts_verdict, verdict_on,
  is_except, judge, judge_entry, covers_target, is_target, is_given, verdict_of,
  verdict_without_cover,
}
use samfscon.Srv.GlobalConf.HostsCheck.{
  passes, hosts_allow, hosts_deny, check_hosts, effective, check_lists, text_of_change, judge_allow,
}
use samfscon.Srv.GlobalConf.HostsCheck.Lockout.{admits}
use samfscon.Srv.GlobalConf.Write.{
  GlobalConfig, Request, no_live_source, WriteResult, written, write, write_checked, after_hosts,
  write_section, store, verify, verify_written, breaks_floor,
}
use samfscon.Srv.GlobalConf.Write.Guarded.{Guarded, write-Guarded, write-admits}

abbrev digits_and_dots : IpLibrary Text Text
digits_and_dots = record {
  ip_address =
      λ s. if not (is_empty s) && all (λ c. is_digit c || c == b'.') s then some s else none;
  ip_network = λ s. none;
  equals = eq_text;
  contains = λ a n. false;
}

abbrev console : Text
console = codes "10.0.0.5"

abbrev is_yes_answer : Option Bool → Bool
is_yes_answer none = false
is_yes_answer (some b) = b

abbrev certain : HostEntry → Bool
certain e = is_yes_answer (covers digits_and_dots e console)

abbrev current : GlobalConfig
current = record {
  section_present = some false;
  stored = (hosts_deny, codes "ALL") ∷ [];
  own_client_address = some console;
  mode = mode_ad_member;
}

abbrev request : Request
request = record {
  options = (codes "Hosts Allow", some (codes "10.0.0.5")) ∷ [];
  confirm = hosts_allow ∷ [];
  create_section = true;
  console_min_protocol = some (codes "SMB3");
}

abbrev checked : Dict (Option Text)
checked = (hosts_allow, some (codes "10.0.0.5")) ∷ []

-- A server that stores what it is given.
abbrev keep_all : Dict (Option Text) → Text ⊎ Dict (Option Text)
keep_all options = inr options

abbrev Result : Type 0
Result = WriteResult (Dict (Option Text)) Text

validated : validate mode_ad_member (hosts_allow ∷ []) request.options ≡ accept checked
unfolding validate validate_from check_entry check_option check_safety validate_one prefix_reason
    safety_for reason_in applies_in is_confirmed by_name validate_value validate_text find_choice
    is_window_empty given is_before dialect_index strip lower upper starts_with is_space eq_text
    Dict.put Dict.get words unwords lstrip_if rstrip_if is_separator is_empty
validated = refl

host_check :
    check_hosts digits_and_dots request.confirm (some console) checked current.stored ≡ passes
unfolding eq_text upper to_upper strip lstrip_if rstrip_if is_space words starts_with is_empty
    is_digit is_address_prefix is_host_name Dict.get Dict.has host_entries parse_host_entry kind_of
    is_separator check_hosts check_lists effective text_of_change judge_allow hosts_verdict
    verdict_on is_except judge judge_entry covers covers_target is_target is_given verdict_of
    verdict_without_cover split_on
host_check = refl

stored_change :
    write_checked digits_and_dots keep_all none current request (accept checked)
    ≡ written checked checked true no_live_source
unfolding write_checked after_hosts write_section store verify verify_written breaks_floor given
    Dict.get eq_text
stored_change = rw host_check refl

write_done :
    write digits_and_dots keep_all none true current request
    ≡ written checked checked true no_live_source
unfolding write
write_done = rw validated stored_change

write-Guarded_example :
    Guarded digits_and_dots keep_all none true current request checked checked true no_live_source
write-Guarded_example =
    write-Guarded digits_and_dots keep_all none true current request checked checked true
      no_live_source write_done

nonempty :
    host_entries digits_and_dots (effective checked current.stored hosts_allow) ≡ []
    → effective checked current.stored hosts_allow ≡ []
unfolding eq_text upper to_upper strip lstrip_if rstrip_if is_space words starts_with is_empty
    is_digit is_address_prefix is_host_name Dict.get host_entries parse_host_entry kind_of
    is_separator effective text_of_change
nonempty e = absurd (cc e)

write-admits_example :
    admits certain
      (host_entries digits_and_dots (effective checked current.stored hosts_allow))
      (host_entries digits_and_dots (effective checked current.stored hosts_deny))
    ≡ true
unfolding is_confirmed Dict.has Dict.get eq_text
write-admits_example =
    write-admits digits_and_dots keep_all none true current request checked checked true
      no_live_source console certain (λ e b h. rw h refl) (refl, refl, refl) refl refl nonempty
      write_done
