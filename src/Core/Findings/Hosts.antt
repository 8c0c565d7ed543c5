-- ===== src/Core/Findings/Hosts.antt =====
-- `_unrecognised_hosts` and `_host_entry` of backend/samfscon/core/findings.py. Python's module
-- `ipaddress` is a parameter: whether `ip_address(text)` and `ip_network(text, strict=False)` return.
use samfscon.Prelude.{
  ℕ, Bool, true, none, some, List, [], ◌∷◌, leb, ◌==◌, if◌then◌else◌, length, keep, any, not, ◌||◌,
}
use samfscon.Prelude.Text.{Text, codes, eq_text, strip, upper, starts_with, is_space}
use samfscon.Prelude.Words.{words}
use samfscon.Prelude.HostName.{is_host_name, is_address_prefix}
use samfscon.Prelude.Dict
use samfscon.Prelude.Dict.{Dict}

pub record IpAddress : Type 0 where
  pub is_address : Text → Bool
  pub is_network : Text → Bool

abbrev pub host_keywords : List Text
host_keywords = codes "ALL" ∷ codes "LOCAL" ∷ codes "EXCEPT" ∷ codes "NONE" ∷ []

pub is_one_of : List Text → Text → Bool
is_one_of options text = any (λ o. eq_text o text) options

-- The forms after the keywords and the netgroups.
pub is_address_form : IpAddress → Text → Bool
is_address_form ip item =
    is_address_prefix item || ip.is_address item || ip.is_network item || is_host_name item

-- `_host_entry`
pub is_host_entry : IpAddress → Text → Bool
unfolding is_one_of is_address_form
is_host_entry ip item =
    if is_one_of host_keywords (upper item)
    then true
    else if starts_with (codes "@") item
    then leb 2 (length item)
    else is_address_form ip item

is_separator : ℕ → Bool
is_separator c = c == b',' || is_space c

pub bad_items : IpAddress → Text → List Text
unfolding is_separator is_host_entry
bad_items ip raw = keep (λ item. not (is_host_entry ip item)) (words is_separator (strip raw))

note_bad : Text → List Text → Dict (List Text) → Dict (List Text)
note_bad option [] rest = rest
note_bad option (b ∷ bad) rest = (option, b ∷ bad) ∷ rest

unrecognised_in : IpAddress → Dict Text → List Text → Dict (List Text)
unfolding note_bad bad_items
unrecognised_in ip stored [] = []
unrecognised_in ip stored (option ∷ options) =
    let rest = unrecognised_in ip stored options in
    elim (Dict.get stored option) [
      | none ↦ rest
      | some raw ↦ note_bad option (bad_items ip raw) rest
    ]

abbrev pub host_options : List Text
host_options = codes "hosts allow" ∷ codes "hosts deny" ∷ []

pub unrecognised_hosts : IpAddress → Dict Text → Dict (List Text)
unfolding unrecognised_in
unrecognised_hosts ip stored = unrecognised_in ip stored host_options
