-- ===== src/Auth/Krb5/Tests.antt =====
-- Two domain controllers of one realm, named one after the other.
use samfscon.Prelude.{true, false, none, some, [], ◌∷◌, ◌≡◌, refl}
use samfscon.Prelude.Text.{codes, eq_text, strip, upper, is_space}
use samfscon.Prelude.Dict
use samfscon.Auth.Krb5.{World, kdcs_of, kdcs_in, is_among, ensure_realm}
use samfscon.Auth.Krb5.Known.{knows, ensure_realm-knows, ensure_realm-keeps}

abbrev start : World
start = record {
  configuration = record {
    ticket_lifetime = codes "10h";
    renew_lifetime = codes "7d";
    default_ccache_dir = none;
    realms = (codes "HQ.LAN", codes "dc1" ∷ []) ∷ [];
    default_realm = some (codes "HQ.LAN");
  };
  file = none;
  is_applied = false;
}

ensure_realm-knows_example :
    knows
      (ensure_realm true start (codes " hq.lan") (codes "dc2" ∷ []))
      (codes "HQ.LAN")
      (codes "dc2")
    ≡ true
unfolding upper strip is_space is_among eq_text
ensure_realm-knows_example =
    ensure_realm-knows true start (codes " hq.lan") (codes "dc2" ∷ []) b'H' (codes "Q.LAN") b'd'
      (codes "c2") refl refl

known_at_start : knows start (codes "HQ.LAN") (codes "dc1") ≡ true
unfolding knows kdcs_of kdcs_in is_among eq_text Dict.get
known_at_start = refl

ensure_realm-keeps_example :
    knows
      (ensure_realm false start (codes "hq.lan") (codes "dc2" ∷ []))
      (codes "HQ.LAN")
      (codes "dc1")
    ≡ true
ensure_realm-keeps_example =
    ensure_realm-keeps false start (codes "hq.lan") (codes "dc2" ∷ []) (codes "HQ.LAN")
      (codes "dc1") known_at_start
