-- ===== src/Auth/Store/Ending.antt =====
-- What the end of a session takes away, in what order, and what it leaves alone.
use samfscon.Prelude.{
  ◌≡◌, ◌≢◌, refl, Option, none, some, List, [], ◌∷◌, ◌++◌, arith, if◌then◌else◌, inl, inr,
  Option-cases, ◌∙◌, ap, append-nil, append_assoc, sym,
}
use samfscon.Prelude.Text.{Text, eq_text, eq_text_iff, eq_text_ne, eq_text_refl}
use samfscon.Prelude.Dict
use samfscon.Prelude.Dict.{Dict}
use samfscon.Core.Executor
use samfscon.Core.Executor.Bound.{get-drop}
use samfscon.Auth.Store.{
  Session, Event, worker_closed, ticket_destroyed, secret_overwritten, World, secret_cleared, err,
  reveal, drop_worker, drop_ticket, drop_secret, drop,
}

-- The event of a credential cache that is removed.
abbrev pub ticket_events : Option Text → List Event
ticket_events none = []
ticket_events (some ccache) = ticket_destroyed ccache ∷ []

module _ (w : World) (id : Text) where
  sessions-drop_worker : (drop_worker w id).sessions ≡ w.sessions
  unfolding drop_worker
  sessions-drop_worker = ground arith

  secrets-drop_worker : (drop_worker w id).secrets ≡ w.secrets
  unfolding drop_worker
  secrets-drop_worker = ground arith

  registry-drop_worker : (drop_worker w id).registry ≡ (Executor.drop w.registry id).1
  unfolding drop_worker
  registry-drop_worker = ground arith

  -- The event of a worker that is closed, if the session has one.
  abbrev pub worker_events : List Event
  worker_events = elim (Dict.get w.registry.workers id) [
    | none ↦ []
    | some u ↦ worker_closed id ∷ []
  ]

  events-drop_worker : (drop_worker w id).events ≡ w.events ++ worker_events
  unfolding drop_worker Executor.drop
  events-drop_worker = elim (Option-cases (Dict.get w.registry.workers id)) [
    | inl missing ↦ ground (arith, append-nil w.events)
    | inr (u, found) ↦ ground arith
  ]

module _ (w : World) where
  sessions-drop_secret : (a : Option Text) → (drop_secret w a).sessions ≡ w.sessions
  unfolding drop_secret
  sessions-drop_secret none = refl
  sessions-drop_secret (some a) = ground arith

  registry-drop_secret : (a : Option Text) → (drop_secret w a).registry ≡ w.registry
  unfolding drop_secret
  registry-drop_secret none = refl
  registry-drop_secret (some a) = ground arith

  drop_ticket_lem :
      (c : Option Text)
      → ((drop_ticket w c).sessions ≡ w.sessions)
        × ((drop_ticket w c).registry ≡ w.registry)
        × ((drop_ticket w c).secrets ≡ w.secrets)
  unfolding drop_ticket
  drop_ticket_lem none = (refl, refl, refl)
  drop_ticket_lem (some c) = (refl, refl, refl)

  events-drop_ticket : (c : Option Text) → (drop_ticket w c).events ≡ w.events ++ ticket_events c
  unfolding drop_ticket
  events-drop_ticket none = sym (append-nil w.events)
  events-drop_ticket (some c) = refl

  -- The event of a buffer that is overwritten, unless it was cleared before.
  abbrev pub secret_events : Option Text → List Event
  secret_events none = []
  secret_events (some a) = elim (Dict.get w.secrets a) [
    | none ↦ []
    | some p ↦ secret_overwritten a ∷ []
  ]

  events-drop_secret : (a : Option Text) → (drop_secret w a).events ≡ w.events ++ secret_events a
  unfolding drop_secret
  events-drop_secret none = sym (append-nil w.events)
  events-drop_secret (some a) = ground (arith, append-nil w.events)

  secret_events_lem :
      (v : World) (a : Option Text)
      → v.secrets ≡ w.secrets
      → (elim a [
        | none ↦ []
        | some x ↦ elim (Dict.get v.secrets x) [ none ↦ [] | some p ↦ secret_overwritten x ∷ [] ]
      ])
        ≡ secret_events a
  secret_events_lem v none e = refl
  secret_events_lem v (some x) e = rw e

  -- The text behind an address after the clearing of a secret.
  get-drop_secret :
      (a : Option Text) (b : Text)
      → Dict.get (drop_secret w a).secrets b ≡ (elim a [
        | none ↦ Dict.get w.secrets b
        | some x ↦ if eq_text x b then none else Dict.get w.secrets b
      ])
  unfolding drop_secret
  get-drop_secret none b = refl
  get-drop_secret (some x) b = ground (arith, Dict.get-remove w.secrets x b, eq_text_iff x b)

get-drop_secret_other :
    (w : World) (a : Option Text) (b : Text)
    → a ≢ some b
    → Dict.get (drop_secret w a).secrets b ≡ Dict.get w.secrets b
get-drop_secret_other w none b h = get-drop_secret w none b
get-drop_secret_other w (some x) b h =
    get-drop_secret w (some x) b ∙ rw (eq_text_ne x b (λ e. h (ap some e)))

-- The end of a session that the store holds, written by its parts.
torn_down : World → Text → Session → World
torn_down w id s =
    let popped = record w { sessions = Dict.remove w.sessions id } in
    drop_secret (drop_ticket (drop_worker popped id) s.ccache) s.secret

drop_known :
    (w : World) (id : Text) (s : Session)
    → Dict.get w.sessions id ≡ some s
    → drop w id ≡ torn_down w id s
unfolding drop torn_down
drop_known w id s e = rw (e, drop)

pub drop_unknown : (w : World) (id : Text) → Dict.get w.sessions id ≡ none → drop w id ≡ w
unfolding drop
drop_unknown w id e = rw (e, drop)

module _ (w : World) (id : Text) (s : Session) where
  abbrev popped : World
  popped = record w { sessions = Dict.remove w.sessions id }

  sessions-torn_down : (torn_down w id s).sessions ≡ Dict.remove w.sessions id
  unfolding torn_down
  sessions-torn_down =
      sessions-drop_secret _ s.secret
      ∙ (drop_ticket_lem (drop_worker popped id) s.ccache).0
      ∙ sessions-drop_worker popped id

  registry-torn_down : (torn_down w id s).registry ≡ (Executor.drop w.registry id).1
  unfolding torn_down
  registry-torn_down =
      registry-drop_secret _ s.secret
      ∙ (drop_ticket_lem (drop_worker popped id) s.ccache).1
      ∙ registry-drop_worker popped id

  secrets_before : (drop_ticket (drop_worker popped id) s.ccache).secrets ≡ w.secrets
  secrets_before =
      (drop_ticket_lem (drop_worker popped id) s.ccache).2 ∙ secrets-drop_worker popped id

  events-torn_down :
      (torn_down w id s).events
      ≡ w.events ++ (worker_events w id ++ (ticket_events s.ccache ++ secret_events w s.secret))
  unfolding torn_down
  events-torn_down =
      let u = drop_worker popped id in
      let v = drop_ticket u s.ccache in
      let a = events-drop_worker popped id in
      let b = events-drop_ticket u s.ccache in
      events-drop_secret v s.secret
      ∙ ap (λ l. l ++ secret_events v s.secret) b
      ∙ ap (λ l. (u.events ++ ticket_events s.ccache) ++ l)
          (secret_events_lem w v s.secret secrets_before)
      ∙ ap (λ l. (l ++ ticket_events s.ccache) ++ secret_events w s.secret) a
      ∙ append_assoc (w.events ++ worker_events w id) (ticket_events s.ccache)
          (secret_events w s.secret)
      ∙ append_assoc w.events (worker_events w id)
          (ticket_events s.ccache ++ secret_events w s.secret)

-- After `drop` the store has every session but the one that ended.
pub get-drop_session :
    (w : World) (id j : Text)
    → Dict.get (drop w id).sessions j ≡ (if eq_text id j then none else Dict.get w.sessions j)
get-drop_session w id j = elim (Option-cases (Dict.get w.sessions id)) [
  | inl missing ↦ rw (drop_unknown w id missing) (ground (arith, eq_text_iff id j))
  | inr (s, found) ↦
      rw (drop_known w id s found)
        (rw (sessions-torn_down w id s) (Dict.get-remove w.sessions id j))
]

-- The secret of a session, where it has one, can no longer be revealed.
abbrev pub IsCleared : World → Option Text → Type 0
IsCleared w none = Unit
IsCleared w (some a) = reveal w a ≡ err secret_cleared

each-IsCleared :
    (w : World) (secret : Option Text)
    → ((a : Text) → secret ≡ some a → reveal w a ≡ err secret_cleared)
    → IsCleared w secret
each-IsCleared w none h = tt
each-IsCleared w (some a) h = h a refl

-- When a session of the store ends: it is gone from the store, it has no worker, its secret can no
-- longer be revealed by anyone who holds the session, and the events are, in this order, the close
-- of its worker, the removal of its ticket and the overwriting of its password, each where there is
-- one, after all earlier events.
pub drop_ends :
    (w : World) (id : Text) (s : Session)
    → Dict.get w.sessions id ≡ some s
    → (Dict.get (drop w id).sessions id ≡ none)
      × (Dict.get (drop w id).registry.workers id ≡ none)
      × IsCleared (drop w id) s.secret
      × ((drop w id).events
          ≡ w.events
            ++ (worker_events w id ++ (ticket_events s.ccache ++ secret_events w s.secret)))
drop_ends w id s found = (
  get-drop_session w id id ∙ rw (eq_text_refl id),
  rw (drop_known w id s found)
      (rw (registry-torn_down w id s) (rw get-drop (rw (eq_text_refl id)))),
  each-IsCleared (drop w id) s.secret (λ a held. rw (drop_known w id s found) (
      unfold torn_down reveal in
      rw
        (get-drop_secret (drop_ticket (drop_worker (popped w id s) id) s.ccache) s.secret a, reveal)
        (rw held (rw (eq_text_refl a))))),
  rw (drop_known w id s found) (events-torn_down w id s),
)

-- The end of a session leaves every other session, the worker of every other session, and every
-- secret but its own as they were.
pub drop_of_others :
    (w : World) (id other : Text) (s : Session) (a : Text)
    → id ≢ other
    → Dict.get w.sessions id ≡ some s
    → s.secret ≢ some a
    → (Dict.get (drop w id).sessions other ≡ Dict.get w.sessions other)
      × (Dict.get (drop w id).registry.workers other ≡ Dict.get w.registry.workers other)
      × (reveal (drop w id) a ≡ reveal w a)
drop_of_others w id other s a ne found held = (
  get-drop_session w id other ∙ rw (eq_text_ne id other ne),
  rw (drop_known w id s found)
      (rw (registry-torn_down w id s) (rw get-drop (rw (eq_text_ne id other ne)))),
  rw (drop_known w id s found) (
      unfold torn_down reveal in
      rw
        (
          get-drop_secret_other (drop_ticket (drop_worker (popped w id s) id) s.ccache) s.secret a
              held,
          reveal,
        )
        (rw (secrets_before w id s))),
)
