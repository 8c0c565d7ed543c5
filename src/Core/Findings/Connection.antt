-- ===== src/Core/Findings/Connection.antt =====
-- `_transport`, `_roots` and `_sessions` of backend/samfscon/core/findings.py.
use samfscon.Prelude.{Bool, true, false, Option, none, some, List, [], ◌∷◌, ◌++◌, if◌then◌else◌}
use samfscon.Prelude.Text.{Text, codes, is_empty}
use samfscon.Prelude.Dict.{Dict}
use samfscon.Prelude.Sort.{sort, text_le}
use samfscon.Core.Findings.Types.{
  Finding, medium, low, info, transport, shares, sessions, flag, word, word_or_null, flag_or_null,
  count_or_null, Transport, Server, SessionEntry,
}
use samfscon.Core.Findings.Stored.{is_true, is_false, text_or_empty}

mode_of : Option Server → Option Text
mode_of none = none
mode_of (some server) = server.mode

unfoldable pub peer_unverified : Transport → Option Server → List Finding
unfolding mode_of
peer_unverified t server =
    if is_false t.identity_verified
    then record {
      id = codes "transport_peer_unverified";
      severity = low;
      area = transport;
      subject = [];
      evidence =
          (codes "auth", word_or_null t.auth)
          ∷ (codes "identity_verified", flag false)
          ∷ (codes "signed", flag_or_null t.signed)
          ∷ (codes "encrypted", flag_or_null t.encrypted)
          ∷ (codes "server_name", word_or_null t.server_name)
          ∷ (codes "mode", word_or_null (mode_of server))
          ∷ [];
    }
      ∷ []
    else []

unfoldable pub this_session : Transport → Finding
this_session t = record {
  id = codes "transport_this_session";
  severity = info;
  area = transport;
  subject = [];
  evidence =
      (codes "scope", word (codes "this_connection"))
      ∷ (codes "auth", word_or_null t.auth)
      ∷ (codes "signed", flag_or_null t.signed)
      ∷ (codes "encrypted", flag_or_null t.encrypted)
      ∷ (codes "identity_verified", flag_or_null t.identity_verified)
      ∷ (codes "server_name", word_or_null t.server_name)
      ∷ [];
}

unfoldable pub transport_findings : Transport → Option Server → List Finding
unfolding peer_unverified this_session
transport_findings t server = peer_unverified t server ++ this_session t ∷ []

unfoldable pub root_finding : Text → Finding
root_finding name = record {
  id = codes "share_root_not_writable";
  severity = medium;
  area = shares;
  subject = name;
  evidence =
      (codes "asked", word (codes "create a file or folder in the share root"))
      ∷ (codes "answer", word (codes "refused"))
      ∷ (codes "asked_of", word (codes "the server, by opening a handle"))
      ∷ (codes "account_groups_included", flag true)
      ∷ [];
}

unfoldable pub root_findings_from : Dict (Option Bool) → List Finding
unfolding root_finding
root_findings_from [] = []
root_findings_from ((name, answer) ∷ roots) =
    let rest = root_findings_from roots in
    if is_false answer then root_finding name ∷ rest else rest

pub name_le : Text × Option Bool → Text × Option Bool → Bool
name_le a b = text_le a.0 b.0

unfoldable pub root_findings : Dict (Option Bool) → List Finding
unfolding root_findings_from name_le
root_findings roots = root_findings_from (sort name_le roots)

-- `a or b or ""`
first_of : Text → Text → Text
first_of a b = if is_empty a then b else a

unfoldable pub guest_finding : SessionEntry → Finding
unfolding first_of
guest_finding entry = record {
  id = codes "guest_session_present";
  severity = medium;
  area = sessions;
  subject = first_of (text_or_empty entry.client) (text_or_empty entry.user);
  evidence =
      (codes "client", word_or_null entry.client)
      ∷ (codes "user", word_or_null entry.user)
      ∷ (codes "open_files", count_or_null entry.open_files)
      ∷ (codes "connected_seconds", count_or_null entry.connected_seconds)
      ∷ [];
}

unfoldable pub session_findings : List SessionEntry → List Finding
unfolding guest_finding
session_findings [] = []
session_findings (entry ∷ entries) =
    let rest = session_findings entries in
    if is_true entry.guest then guest_finding entry ∷ rest else rest
