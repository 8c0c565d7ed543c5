-- ===== src/Auth/Store/Expiry.antt =====
-- What `get` answers, and that no session outlives its limits.
use samfscon.Prelude.{
  ℕ, ◌+◌, ◌≤◌, ◌<◌, ◌≡◌, refl, Option, none, some, [], ◌∷◌, arith, leb, Bool-cases, inl, inr,
  Option-cases, ◌⊎◌,
}
use samfscon.Prelude.Text.{Text, eq_text_refl}
use samfscon.Prelude.Dict
use samfscon.Prelude.Dict.{Dict}
use samfscon.Auth.Store.{
  Session, World, session_unknown, session_expired, ok, err, expires_at, is_expired, drop, touch,
  get_known, get,
}

-- The answer of `get` for an id that is not empty, in full: the id is unknown and nothing changes;
-- or the session has expired and is dropped; or it is returned with the time of the visit, which is
-- stored, and nothing else of the store changes.
pub get_lem :
    (w : World) (c now later : ℕ) (rest : Text)
    → let id : Text = c ∷ rest in
      ((Dict.get w.sessions id ≡ none) × (get w (some id) now later ≡ (err session_unknown, w)))
      ⊎ ((s : Session) × (Dict.get w.sessions id ≡ some s)
          × (((expires_at s ≤ now) × (get w (some id) now later ≡ (err session_expired, drop w id)))
              ⊎ ((now < expires_at s)
                  × (get w (some id) now later ≡ (
                    ok (touch s later),
                    record w { sessions = Dict.put w.sessions id (touch s later) },
                  )))))
unfolding get is_expired
get_lem w c now later rest = elim (Option-cases (Dict.get w.sessions (c ∷ rest))) [
  | inl missing ↦ inl (missing, rw (missing, get_known))
  | inr (s, found) ↦ inr (
    s,
    found,
    elim (Bool-cases (leb (expires_at s) now)) [
      | inl over ↦ inl (ground arith, rw (found, get_known) (rw over))
      | inr live ↦ inr (ground arith, rw (found, get_known) (rw live))
    ],
  )
]

-- A session that `get` returns was live: the call came before its hard limit and within the idle
-- timeout of its last visit. The hard limit of the session that is returned and stored is the old
-- one, however often it is visited, and the idle timeout counts from this visit.
pub get_live :
    (w : World) (id : Option Text) (now later : ℕ) (s : Session) (w' : World)
    → get w id now later ≡ (ok s, w')
    → (key : Text) × (old : Session) × (id ≡ some key)
      × (Dict.get w.sessions key ≡ some old)
      × (now < old.expires_hard_at)
      × (now < old.last_seen + old.idle_timeout)
      × (s.expires_hard_at ≡ old.expires_hard_at)
      × (s.last_seen ≡ later)
      × (Dict.get w'.sessions key ≡ some s)
get_live w none now later s w' e = unfold get in cc e
get_live w (some []) now later s w' e = unfold get in cc e
get_live w (some (c ∷ rest)) now later s w' e = elim (get_lem w c now later rest) [
  | inl (missing, r) ↦ cc (e, r)
  | inr (old, found, inl (over, r)) ↦ cc (e, r)
  | inr (old, found, inr (live, r)) ↦ (
    c ∷ rest,
    old,
    refl,
    found,
    unfold expires_at in omega (arith, live),
    unfold expires_at in omega (arith, live),
    unfold touch in ground (arith, r),
    unfold touch in ground (arith, r),
    ground (
      arith,
      r,
      Dict.get-put w.sessions (c ∷ rest) (c ∷ rest) (touch old later),
      eq_text_refl (c ∷ rest),
    ),
  )
]
