-- ===== src/Auth/Store/Tests.antt =====
-- Examples of `SessionStore`.
use samfscon.Prelude.{
  ◌+◌, ◌<◌, false, none, some, [], ◌∷◌, ◌++◌, ◌≡◌, refl, leb, min, if◌then◌else◌,
}
use samfscon.Prelude.Text.{Text, codes, eq_text, is_empty, texts_differ}
use samfscon.Prelude.Dict
use samfscon.Prelude.Dict.{accepted}
use samfscon.Auth.Store.{
  Session, World, ok, err, session_expired, expires_at, is_expired, touch, get, SignIn, create,
  get_known, drop, reveal,
}
use samfscon.Auth.Store.Opening.{get-create}
use samfscon.Auth.Store.Expiry.{get_live}
use samfscon.Auth.Store.Ending.{
  ticket_events, worker_events, secret_events, IsCleared, drop_ends, drop_of_others,
}

abbrev s1 : Text
s1 = codes "s1"

abbrev s2 : Text
s2 = codes "s2"

abbrev first : Session
first = record {
  id = s1;
  principal = codes "administrator@EXAMPLE";
  target = codes "fs1";
  csrf_token = codes "token";
  created_at = 0;
  client_ip = none;
  user_agent = none;
  expires_hard_at = 1000;
  idle_timeout = 100;
  last_seen = 50;
  ccache = some (codes "/run/krb5_1");
  secret = some (codes "buffer 1");
}

abbrev second : Session
second = record {
  id = s2;
  principal = codes "administrator@EXAMPLE";
  target = codes "fs1";
  csrf_token = codes "token";
  created_at = 0;
  client_ip = none;
  user_agent = none;
  expires_hard_at = 1000;
  idle_timeout = 100;
  last_seen = 500;
  ccache = none;
  secret = some (codes "buffer 2");
}

abbrev world : World
world = record {
  idle_timeout = 100;
  sessions = (s1, first) ∷ (s2, second) ∷ [];
  registry = record {
    max_sessions = 4;
    workers = (s1, record { session_id = s1; handles = []; closed = false }) ∷ [];
  };
  secrets = (codes "buffer 1", codes "secret") ∷ (codes "buffer 2", codes "hidden") ∷ [];
  events = [];
}

get_live_example :
    (key : Text) × (old : Session) × (some s1 ≡ some key)
    × (Dict.get world.sessions key ≡ some old)
    × (60 < old.expires_hard_at)
    × (60 < old.last_seen + old.idle_timeout)
    × ((touch first 61).expires_hard_at ≡ old.expires_hard_at)
    × ((touch first 61).last_seen ≡ 61)
    × (Dict.get (get world (some s1) 60 61).1.sessions key ≡ some (touch first 61))
unfolding get get_known is_expired expires_at Dict.get eq_text
get_live_example =
    get_live world (some s1) 60 61 (touch first 61) (get world (some s1) 60 61).1 refl

drop_ends_example :
    (Dict.get (drop world s1).sessions s1 ≡ none)
    × (Dict.get (drop world s1).registry.workers s1 ≡ none)
    × IsCleared (drop world s1) first.secret
    × ((drop world s1).events
        ≡ world.events
          ++ (worker_events world s1
              ++ (ticket_events first.ccache ++ secret_events world first.secret)))
unfolding Dict.get eq_text
drop_ends_example = drop_ends world s1 first refl

drop_of_others_example :
    (Dict.get (drop world s1).sessions s2 ≡ Dict.get world.sessions s2)
    × (Dict.get (drop world s1).registry.workers s2 ≡ Dict.get world.registry.workers s2)
    × (reveal (drop world s1) (codes "buffer 2") ≡ reveal world (codes "buffer 2"))
unfolding Dict.get eq_text
drop_of_others_example =
    drop_of_others world s1 s2 first (codes "buffer 2") (texts_differ s1 s2 refl) refl
      (λ e. texts_differ (codes "buffer 1") (codes "buffer 2") refl (cc e))

abbrev sign_in : SignIn
sign_in = record {
  session_id = codes "s3";
  principal = codes "operator@EXAMPLE";
  target = codes "fs1";
  expires_hard_at = 900;
  ccache = none;
  secret = none;
  client_ip = none;
  user_agent = none;
  csrf_token = codes "token";
}

get-create_example : (get (create world sign_in 600 601).1 (some (codes "s3")) 650 651).0 ≡ (
    if leb (min 900 (601 + world.idle_timeout)) 650
    then err session_expired
    else ok (touch (create world sign_in 600 601).0 651))
unfolding is_empty
get-create_example = get-create world sign_in 600 601 650 651 refl
