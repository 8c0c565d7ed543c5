-- ===== src/Core/Findings/Evaluate/Tests.antt =====
-- The rules at work on a small server.
use samfscon.Prelude.{true, false, none, some, [], ◌∷◌, ◌≡◌, ◌↔◌, refl, any}
use samfscon.Prelude.Text.{codes, eq_text, starts_with, rstrip_if, is_empty}
use mathlib.Core.List.{Memᴰ}
use samfscon.Core.Findings.Types.{Share, Registry, Capabilities, Finding, high, shares}
use samfscon.Core.Findings.Stored.{is_false}
use samfscon.Core.Findings.Hosts.{IpAddress}
use samfscon.Core.Findings.Management.{management_findings}
use samfscon.Core.Findings.Paths.{normal_path, is_slash, is_nested}
use samfscon.Core.Findings.Paths.Nesting.{is_nested-normal_path}
use samfscon.Core.Findings.Evaluate.{Inputs, evaluate, has_id}
use samfscon.Core.Findings.Evaluate.Ordering.{IsOrdered, evaluate-IsOrdered}
use samfscon.Core.Findings.Evaluate.Sources.{IsFound}
use samfscon.Core.Findings.Evaluate.Silence.{without_unread_shares, evaluate-without_unread}
use samfscon.Core.Findings.Ids.{AllIds}
use samfscon.Core.Findings.Evaluate.Declared.{IsDeclared, evaluate-IsDeclared}
use samfscon.Core.Findings.Evaluate.Suppressed.{IsOther, evaluate-IsOther}

-- A library that reads no address.
abbrev no_addresses : IpAddress
no_addresses = record { is_address = λ s. false; is_network = λ s. false }

abbrev projects : Share
projects = record {
  name = some (codes "projects");
  type = some (codes "disk");
  path = some (codes "/srv/projects/");
  config_readable = true;
  options = some ((codes "guest ok", codes "yes") ∷ (codes "read only", codes "no") ∷ []);
  config_unreadable_reason = none;
}

abbrev archive : Share
archive = record {
  name = some (codes "archive");
  type = some (codes "disk");
  path = some (codes "/srv/projects/archive");
  config_readable = false;
  options = some ((codes "guest ok", codes "yes") ∷ []);
  config_unreadable_reason = none;
}

abbrev registry : Registry
registry = record {
  served = some false;
  share_section_count = 1;
  live_matches = 0;
  share_sections = codes "old" ∷ [];
  sections = (codes "old", (codes "available", codes "no") ∷ []) ∷ [];
}

abbrev capabilities : Capabilities
capabilities = record {
  notes = [];
  registry_config = some true;
  has_disk_operator = some true;
  disk_operator_sids = [];
  disk_operators = [];
}

abbrev inputs : Inputs
inputs = record {
  capabilities = some capabilities;
  registry = some registry;
  server = none;
  transport = none;
  shares = some (projects ∷ archive ∷ []);
  sessions = none;
  roots = none;
}

-- A finding to look for.
abbrev writable : Finding
writable = record {
  id = codes "share_guest_writable";
  severity = high;
  area = shares;
  subject = codes "projects";
  evidence = [];
}

evaluate-IsOrdered_example :
    IsOrdered (evaluate no_addresses inputs)
    × (Memᴰ writable (evaluate no_addresses inputs) ↔ IsFound no_addresses inputs writable)
evaluate-IsOrdered_example = evaluate-IsOrdered no_addresses inputs writable

evaluate-without_unread_example :
    evaluate no_addresses (record inputs { shares = without_unread_shares inputs.shares })
    ≡ evaluate no_addresses inputs
evaluate-without_unread_example = evaluate-without_unread no_addresses inputs

evaluate-IsDeclared_example : AllIds IsDeclared (evaluate no_addresses inputs)
evaluate-IsDeclared_example = evaluate-IsDeclared no_addresses inputs

reported :
    any
      (has_id (codes "registry_shares_not_served"))
      (management_findings inputs.capabilities inputs.registry)
    ≡ true
unfolding management_findings has_id eq_text is_false
reported = refl

evaluate-IsOther_example : AllIds IsOther (evaluate no_addresses inputs)
evaluate-IsOther_example = evaluate-IsOther no_addresses inputs reported

archive_nested : is_nested (normal_path archive.path) (normal_path projects.path) ≡ true
unfolding is_nested normal_path rstrip_if starts_with eq_text is_empty is_slash
archive_nested = refl

is_nested-normal_path_example :
    is_nested (normal_path projects.path) (normal_path archive.path) ≡ false
is_nested-normal_path_example = is_nested-normal_path archive.path projects.path archive_nested
