-- ===== src/Core/Errors/Tables/Kerberos.antt =====
-- Entries of the tables of backend/samfscon/core/errors.py.
use samfscon.Prelude.{none, some, List, [], ◌∷◌}
use samfscon.Prelude.Text.{codes}
use samfscon.Core.Errors.Types.{Entry, authentication_error, session_expired, upstream_unavailable}

-- `_KRB_PATTERNS`, each with the name of its pattern
abbrev pub kerberos : List Entry
kerberos =
    (record {
      symbol = codes "clock_skew";
      class = authentication_error;
      code = codes "clock_skew";
      message = "The clocks of SAMFSCON and the domain controller differ too much.";
      hint =
          some "Kerberos tolerates about five minutes — synchronise the container's clock via NTP.";
    })
    ∷ (record {
      symbol = codes "preauthentication";
      class = authentication_error;
      code = codes "invalid_credentials";
      message = "Wrong user name or password.";
      hint = none;
    })
    ∷ (record {
      symbol = codes "kdc";
      class = upstream_unavailable;
      code = codes "kdc_unreachable";
      message = "No key distribution centre could be reached.";
      hint = some "Check SAMFSCON_KDC_HOSTS, DNS SRV records and that port 88 is open.";
    })
    ∷ (record {
      symbol = codes "client";
      class = authentication_error;
      code = codes "kerberos_principal_unknown";
      message = "No such account in this realm.";
      hint = some "Sign in as user@REALM and check the realm spelling.";
    })
    ∷ (record {
      symbol = codes "service";
      class = upstream_unavailable;
      code = codes "spn_not_found";
      message = "The file server has no service principal in this realm.";
      hint =
          some
            "Kerberos issues tickets for cifs/<hostname>. Use the server's own name rather than an address, and check that it is still joined.";
    })
    ∷ (record {
      symbol = codes "expired";
      class = session_expired;
      code = codes "session_expired";
      message = "The Kerberos ticket has expired.";
      hint = some "Sign in again.";
    })
    ∷ []
