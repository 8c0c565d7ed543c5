-- ===== src/Auth/Store.antt =====
-- `SessionSecret`, `Session` and `SessionStore` of backend/samfscon/auth/session.py.
-- The objects that methods change in place are in one record: the sessions, the workers, and the
-- buffers of the secrets by their address, which is shared by whoever holds the session. What a
-- method does outside the process, and the clearing of a buffer, are listed as events, in order.
-- Each method is one step; `_now()` is an argument at each call of it, in microseconds.
pub mod Opening
pub mod Expiry
pub mod Ending
pub mod Sweep
mod Tests
use samfscon.Prelude.{
  ℕ, ◌+◌, Bool, true, false, Option, none, some, List, [], ◌∷◌, ◌++◌, leb, length, if◌then◌else◌,
  map, min, keep,
}
use samfscon.Prelude.Text.{Text}
use samfscon.Prelude.Dict
use samfscon.Prelude.Dict.{Dict}
use samfscon.Core.Executor
use samfscon.Core.Executor.{ExecutorRegistry, ids}

-- Who is signed in, to which server, is a text here.
pub record Session : Type 0 where
  pub id : Text
  pub principal : Text
  pub target : Text
  pub csrf_token : Text
  pub expires_hard_at : ℕ
  pub idle_timeout : ℕ
  pub ccache : Option Text
  -- The address of the secret's buffer.
  pub secret : Option Text
  pub created_at : ℕ
  pub last_seen : ℕ
  pub client_ip : Option Text
  pub user_agent : Option Text

pub data Event : Type 0 where
  worker_closed : Text → Event
  ticket_destroyed : Text → Event
  secret_overwritten : Text → Event

pub record World : Type 0 where
  pub idle_timeout : ℕ
  pub sessions : Dict Session
  pub registry : ExecutorRegistry
  -- The password of each `SessionSecret`; an address without one has been cleared.
  pub secrets : Dict Text
  pub events : List Event

-- The two errors of `SessionExpired` that have its own code are told apart by their messages.
pub data Error : Type 0 where
  not_authenticated session_unknown session_expired secret_cleared : Error

pub data Result {ℓ} (A : Type ℓ) : Type ℓ where
  ok : A → Result A
  err : Error → Result A

pub expires_at : Session → ℕ
expires_at s = min s.expires_hard_at (s.last_seen + s.idle_timeout)

pub is_expired : Session → ℕ → Bool
is_expired s now = leb (expires_at s) now

pub reveal : World → Text → Result Text
reveal w address = elim (Dict.get w.secrets address) [ none ↦ err secret_cleared | some p ↦ ok p ]

-- `SessionSecret.clear`
pub clear : World → Text → World
clear w address = elim (Dict.get w.secrets address) [
  | none ↦ w
  | some password ↦ record w {
    secrets = Dict.remove w.secrets address;
    events = w.events ++ secret_overwritten address ∷ [];
  }
]

-- What the caller of `create` hands over, and the token that is drawn for the session.
pub record SignIn : Type 0 where
  pub session_id : Text
  pub principal : Text
  pub target : Text
  pub expires_hard_at : ℕ
  pub ccache : Option Text
  pub secret : Option Text
  pub client_ip : Option Text
  pub user_agent : Option Text
  pub csrf_token : Text

-- The clock is read for `created_at` and once more for `last_seen`.
pub create : World → SignIn → ℕ → ℕ → Session × World
create w given now later =
    let session : Session = record {
      id = given.session_id;
      principal = given.principal;
      target = given.target;
      csrf_token = given.csrf_token;
      expires_hard_at = given.expires_hard_at;
      idle_timeout = w.idle_timeout;
      ccache = given.ccache;
      secret = given.secret;
      created_at = now;
      last_seen = later;
      client_ip = given.client_ip;
      user_agent = given.user_agent;
    } in
    (session, record w { sessions = Dict.put w.sessions given.session_id session })

-- `get_registry().drop(session_id)`
pub drop_worker : World → Text → World
drop_worker w session_id =
    let (dropped, registry) = Executor.drop w.registry session_id in
    elim dropped [
      | none ↦ record w { registry = registry }
      | some worker ↦ record w {
        registry = registry;
        events = w.events ++ worker_closed session_id ∷ [];
      }
    ]

pub drop_ticket : World → Option Text → World
drop_ticket w none = w
drop_ticket w (some ccache) = record w { events = w.events ++ ticket_destroyed ccache ∷ [] }

pub drop_secret : World → Option Text → World
unfolding clear
drop_secret w none = w
drop_secret w (some address) = clear w address

pub drop : World → Text → World
drop w session_id = elim (Dict.get w.sessions session_id) [
  | none ↦ w
  | some s ↦
      let popped = record w { sessions = Dict.remove w.sessions session_id } in
      drop_secret (drop_ticket (drop_worker popped session_id) s.ccache) s.secret
]

pub touch : Session → ℕ → Session
touch s now = record s { last_seen = now }

-- The clock is read once by `is_expired` and once more by `touch`.
get_known : World → Text → ℕ → ℕ → Result Session × World
get_known w session_id now later = elim (Dict.get w.sessions session_id) [
  | none ↦ (err session_unknown, w)
  | some s ↦ if is_expired s now then (err session_expired, drop w session_id) else (
    ok (touch s later),
    record w { sessions = Dict.put w.sessions session_id (touch s later) },
  )
]

pub get : World → Option Text → ℕ → ℕ → Result Session × World
unfolding get_known
get w none now later = (err not_authenticated, w)
get w (some []) now later = (err not_authenticated, w)
get w (some (c ∷ session_id)) now later = get_known w (c ∷ session_id) now later

pub drop_each : World → List Text → World
drop_each w [] = w
drop_each w (session_id ∷ rest) = drop_each (drop w session_id) rest

pub stale : World → ℕ → List Text
stale w now = ids (keep (λ e. is_expired e.1 now) w.sessions)

pub sweep : World → ℕ → ℕ × World
sweep w now = (length (stale w now), drop_each w (stale w now))

pub close_all : World → World
close_all w = drop_each w (ids w.sessions)

pub count : World → ℕ
count w = length w.sessions
