-- ===== src/Srv/GlobalConf/Hosts.antt =====
-- `parse_host_entry`, `covers`, `hosts_verdict` and `_check_hosts` of
-- backend/samfscon/srv/globalconf.py. The module `ipaddress` is a parameter.
pub mod Decided
use samfscon.Prelude.{
  ℕ, Bool, true, false, Option, none, some, List, [], ◌∷◌, ◌==◌, if◌then◌else◌, ◌||◌, not, any, map,
}
use samfscon.Prelude.Text.{Text, codes, eq_text, strip, upper, starts_with, is_space, is_empty}
use samfscon.Prelude.Words.{words}
use samfscon.Prelude.HostName.{is_host_name, is_address_prefix}
use samfscon.Srv.ShareConf.Value.{is_separator}
use samfscon.Prelude.Dict
use samfscon.Prelude.Dict.{Dict}

-- `ipaddress.ip_address`, `ipaddress.ip_network(_, strict=False)`, `==` and `in`, on the types of
-- their results; nothing stands for `ValueError`.
pub record IpLibrary (A N : Type 0) : Type 0 where
  pub ip_address : Text → Option A
  pub ip_network : Text → Option N
  pub equals : A → A → Bool
  pub contains : A → N → Bool

-- `HostEntry.kind`
pub data HostKind : Type 0 where
  all_hosts local except_ netgroup prefix address network name unparsable : HostKind

pub record HostEntry : Type 0 where
  pub text : Text
  pub kind : HostKind

unfoldable pub is_given : {A : Type 0} → Option A → Bool
is_given none = false
is_given (some a) = true

-- `reason` of a list that cannot be decided
pub data Reason : Type 0 where
  own_address_unknown except_clause entries_not_decidable : Reason

-- The verdict on a list, with the entries that cannot be decided and why.
pub data Verdict : Type 0 where
  covered excluded : Verdict
  undecidable : Reason → List Text → Verdict

pub record HostsVerdict : Type 0 where
  pub entries : List Text
  pub verdict : Verdict

pub texts_of : List HostEntry → List Text
texts_of entries = map (λ (e : HostEntry). e.text) entries

unfoldable pub is_except : HostEntry → Bool
is_except e = elim e.kind [
  | all_hosts ↦ false
  | local ↦ false
  | except_ ↦ true
  | netgroup ↦ false
  | prefix ↦ false
  | address ↦ false
  | network ↦ false
  | name ↦ false
  | unparsable ↦ false
]

-- The verdict at the end of the loop, where no entry covers the address.
unfoldable pub verdict_without_cover : List Text → Verdict
verdict_without_cover [] = excluded
verdict_without_cover (e ∷ entries) = undecidable entries_not_decidable (e ∷ entries)

-- One turn of the loop, before the rest of it.
unfoldable pub judge_entry : Text → Option Bool → Option (List Text) → Option (List Text)
judge_entry text (some true) rest = none
judge_entry text (some false) rest = rest
judge_entry text none none = none
judge_entry text none (some rest) = some (text ∷ rest)

unfoldable pub verdict_of : Option (List Text) → Verdict
unfolding verdict_without_cover
verdict_of none = covered
verdict_of (some unknown) = verdict_without_cover unknown

module _ {A N : Type 0} (ip : IpLibrary A N) where
  unfoldable pub kind_of : Text → HostKind
  unfolding is_given
  kind_of item =
      if eq_text (upper item) (codes "ALL")
      then all_hosts
      else if eq_text (upper item) (codes "LOCAL")
      then local
      else if eq_text (upper item) (codes "EXCEPT")
      then except_
      else if starts_with (codes "@") item
      then netgroup
      else if is_address_prefix item
      then prefix
      else if is_given (ip.ip_address item)
      then address
      else if is_given (ip.ip_network item)
      then network
      else if is_host_name item
      then name
      else unparsable

  unfoldable pub parse_host_entry : Text → HostEntry
  unfolding kind_of
  parse_host_entry text = let item = strip text in record { text = item; kind = kind_of item }

  -- `ip_address(entry.text) == target` and `target in ip_network(entry.text)`
  unfoldable pub is_target : Option A → A → Option Bool
  is_target none target = none
  is_target (some a) target = some (ip.equals a target)

  pub is_in_network : Option N → A → Option Bool
  is_in_network none target = none
  is_in_network (some n) target = some (ip.contains target n)

  -- The kinds that need the address as one.
  unfoldable pub covers_target : HostEntry → Text → Option A → Option Bool
  unfolding is_target is_in_network
  covers_target entry address_text none = none
  covers_target entry address_text (some target) = elim entry.kind [
    | all_hosts ↦ none
    | local ↦ none
    | except_ ↦ none
    | netgroup ↦ none
    | prefix ↦ some (starts_with entry.text address_text)
    | address ↦ is_target (ip.ip_address entry.text) target
    | network ↦ is_in_network (ip.ip_network entry.text) target
    | name ↦ none
    | unparsable ↦ none
  ]

  unfoldable pub covers : HostEntry → Text → Option Bool
  unfolding covers_target
  covers entry address_text = elim entry.kind [
    | all_hosts ↦ some true
    | local ↦ none
    | except_ ↦ none
    | netgroup ↦ none
    | prefix ↦ covers_target entry address_text (ip.ip_address address_text)
    | address ↦ covers_target entry address_text (ip.ip_address address_text)
    | network ↦ covers_target entry address_text (ip.ip_address address_text)
    | name ↦ none
    | unparsable ↦ none
  ]

  -- The texts of the entries that cannot be decided, unless one covers the address.
  unfoldable pub judge : List HostEntry → Text → Option (List Text)
  unfolding judge_entry covers
  judge [] address_text = some []
  judge (e ∷ entries) address_text =
      judge_entry e.text (covers e address_text) (judge entries address_text)

  unfoldable pub verdict_on : List HostEntry → Option Text → Verdict
  unfolding judge verdict_of texts_of is_except
  verdict_on [] address_text = covered
  verdict_on (e ∷ entries) none = undecidable own_address_unknown (texts_of (e ∷ entries))
  verdict_on (e ∷ entries) (some address_text) =
      if any is_except (e ∷ entries)
      then undecidable except_clause (texts_of (e ∷ entries))
      else verdict_of (judge (e ∷ entries) address_text)

  unfoldable pub host_entries : Text → List HostEntry
  unfolding parse_host_entry is_separator
  host_entries value = map parse_host_entry (words is_separator (strip value))

  unfoldable pub hosts_verdict : Text → Option Text → HostsVerdict
  unfolding verdict_on host_entries texts_of
  hosts_verdict value address_text =
      let entries = host_entries value in
      record { entries = texts_of entries; verdict = verdict_on entries address_text }
