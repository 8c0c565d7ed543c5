-- ===== src/Core/Findings/Evaluate.antt =====
-- `_shares` and `evaluate` of backend/samfscon/core/findings.py.
pub mod Sources
pub mod Ordering
pub mod Silence
pub mod Ids
pub mod Declared
pub mod Suppressed
mod Tests
use samfscon.Prelude.{
  ℕ, Bool, true, false, Option, none, some, List, [], ◌∷◌, ◌++◌, ltb, ◌==◌, if◌then◌else◌, ◌&&◌,
  ◌||◌, not, any,
}
use samfscon.Prelude.Text.{Text, codes, eq_text, lower}
use samfscon.Prelude.Dict.{Dict}
use samfscon.Prelude.Sort.{sort, text_le}
use samfscon.Core.Findings.Types.{
  Finding, Severity, high, medium, low, info, Capabilities, Registry, Server, Transport, Share,
  SessionEntry,
}
use samfscon.Core.Findings.Stored.{stored_of, text_or_empty}
use samfscon.Core.Findings.Hosts.{IpAddress}
use samfscon.Core.Findings.Management.{management_findings}
use samfscon.Core.Findings.Connection.{transport_findings, root_findings, session_findings}
use samfscon.Core.Findings.Options.{option_findings}
use samfscon.Core.Findings.Paths.{path_findings, live_names, not_served_findings}

-- The arguments of `evaluate`, each of which may be absent.
pub record Inputs : Type 0 where
  pub capabilities : Option Capabilities
  pub registry : Option Registry
  pub server : Option Server
  pub transport : Option Transport
  pub shares : Option (List Share)
  pub sessions : Option (List SessionEntry)
  pub roots : Option (Dict (Option Bool))

-- The findings on one share before those on the others; a share that was not read has none.
pub findings_before : IpAddress → Text → Option (Dict Text) → List Finding → List Finding
findings_before ip name none rest = rest
findings_before ip name (some stored) rest = option_findings ip name stored ++ rest

pub option_findings_of : IpAddress → List Share → List Finding
unfolding findings_before
option_findings_of ip [] = []
option_findings_of ip (entry ∷ entries) =
    findings_before ip (text_or_empty entry.name) (stored_of entry) (option_findings_of ip entries)

-- `_shares`
pub share_findings : IpAddress → List Share → Option Registry → Bool → List Finding
unfolding option_findings_of
share_findings ip entries registry suppress_not_served =
    option_findings_of ip entries
    ++ (path_findings entries
        ++ (if suppress_not_served then [] else not_served_findings (live_names entries) registry))

pub has_id : Text → Finding → Bool
has_id id f = eq_text f.id id

pub transport_part : Option Transport → Option Server → List Finding
transport_part none server = []
transport_part (some t) server = transport_findings t server

pub shares_part : IpAddress → Option (List Share) → Option Registry → Bool → List Finding
unfolding share_findings
shares_part ip none registry suppress = []
shares_part ip (some entries) registry suppress = share_findings ip entries registry suppress

pub sessions_part : Option (List SessionEntry) → List Finding
sessions_part none = []
sessions_part (some entries) = session_findings entries

pub roots_part : Option (Dict (Option Bool)) → List Finding
roots_part none = []
roots_part (some roots) = root_findings roots

-- The findings before they are sorted.
pub gather : IpAddress → Inputs → List Finding
unfolding transport_part shares_part sessions_part roots_part has_id
gather ip i =
    let management = management_findings i.capabilities i.registry in
    let suppressed = any (has_id (codes "registry_shares_not_served")) management in
    management
    ++ (transport_part i.transport i.server
        ++ (shares_part ip i.shares i.registry suppressed
            ++ (sessions_part i.sessions ++ roots_part i.roots)))

pub rank : Severity → ℕ
rank high = 0
rank medium = 1
rank low = 2
rank info = 3

-- The comparison of the keys: the severity, the subject in small letters, the id.
pub finding_le : Finding → Finding → Bool
unfolding rank
finding_le a b =
    let s = lower a.subject in
    let t = lower b.subject in
    ltb (rank a.severity) (rank b.severity)
    || (rank a.severity == rank b.severity
        && (not (text_le t s) || (text_le s t && text_le a.id b.id)))

pub evaluate : IpAddress → Inputs → List Finding
unfolding gather finding_le
evaluate ip i = sort finding_le (gather ip i)
