-- ===== src/Srv/GlobalConf/HostsCheck/Tests.antt =====
-- A change of `hosts allow` that names the console.
use samfscon.Prelude.{
  Bool, true, false, Option, none, some, [], ◌∷◌, ◌≡◌, refl, all, ◌||◌, ◌&&◌, not, ◌==◌,
  if◌then◌else◌,
}
use samfscon.Prelude.Text.{
  Text, codes, eq_text, is_digit, is_empty, strip, upper, to_upper, starts_with, is_space,
  lstrip_if, rstrip_if,
}
use samfscon.Prelude.Words.{words, split_on}
use samfscon.Prelude.HostName.{is_address_prefix, is_host_name}
use samfscon.Prelude.Dict
use samfscon.Prelude.Dict.{Dict}
use samfscon.Srv.GlobalConf.Validate.{is_confirmed}
use samfscon.Srv.ShareConf.Value.{is_separator}
use samfscon.Srv.GlobalConf.Hosts.{
  IpLibrary, HostEntry, covers, host_entries, parse_host_entry, kind_of, hosts_verdict, verdict_on,
  is_except, judge, judge_entry, covers_target, is_target, is_given, verdict_of,
  verdict_without_cover,
}
use samfscon.Srv.GlobalConf.HostsCheck.{
  passes, hosts_allow, hosts_deny, check_hosts, effective, check_lists, text_of_change, judge_allow,
}
use samfscon.Srv.GlobalConf.HostsCheck.Lockout.{admits, check_hosts-admits}

-- A library that takes digits and dots for an address, and knows no networks.
abbrev digits_and_dots : IpLibrary Text Text
digits_and_dots = record {
  ip_address =
      λ s. if not (is_empty s) && all (λ c. is_digit c || c == b'.') s then some s else none;
  ip_network = λ s. none;
  equals = eq_text;
  contains = λ a n. false;
}

abbrev console : Text
console = codes "10.0.0.5"

abbrev is_yes_answer : Option Bool → Bool
is_yes_answer none = false
is_yes_answer (some b) = b

-- The server matches what is certain to match.
abbrev certain : HostEntry → Bool
certain e = is_yes_answer (covers digits_and_dots e console)

abbrev change : Dict (Option Text)
change = (hosts_allow, some (codes "10.0.0.5 127.")) ∷ []

abbrev stored : Dict Text
stored = (hosts_deny, codes "ALL") ∷ []

check_passes : check_hosts digits_and_dots [] (some console) change stored ≡ passes
unfolding eq_text upper to_upper strip lstrip_if rstrip_if is_space words starts_with is_empty
    is_digit is_address_prefix is_host_name Dict.get host_entries parse_host_entry kind_of
    is_separator check_hosts Dict.has check_lists effective text_of_change judge_allow hosts_verdict
    verdict_on is_except judge judge_entry covers covers_target is_target is_given verdict_of
    verdict_without_cover split_on
check_passes = refl

nonempty :
    host_entries digits_and_dots (effective change stored hosts_allow) ≡ []
    → effective change stored hosts_allow ≡ []
unfolding eq_text upper to_upper strip lstrip_if rstrip_if is_space words starts_with is_empty
    is_digit is_address_prefix is_host_name Dict.get host_entries parse_host_entry kind_of
    is_separator effective text_of_change
nonempty e = absurd (cc e)

check_hosts-admits_example :
    admits certain
      (host_entries digits_and_dots (effective change stored hosts_allow))
      (host_entries digits_and_dots (effective change stored hosts_deny))
    ≡ true
unfolding is_confirmed Dict.has Dict.get eq_text
check_hosts-admits_example =
    check_hosts-admits digits_and_dots [] console certain (λ e b h. rw h refl) (refl, refl, refl)
      change stored refl nonempty check_passes
