-- ===== src/Auth/Store/Opening.antt =====
-- A session that was just opened.
use samfscon.Prelude.{
  ℕ, ◌+◌, ◌≡◌, refl, false, some, [], ◌∷◌, leb, if◌then◌else◌, min, Bool-cases, inl, inr, ◌∙◌,
}
use samfscon.Prelude.Text.{Text, is_empty, eq_text_refl}
use samfscon.Prelude.Dict
use samfscon.Auth.Store.{
  Session, World, SignIn, ok, err, session_expired, expires_at, is_expired, touch, create, get,
  get_known,
}

get-known :
    (w : World) (id : Text) (s : Session) (now later : ℕ)
    → is_empty id ≡ false
    → Dict.get w.sessions id ≡ some s
    → (get w (some id) now later).0
      ≡ (if is_expired s now then err session_expired else ok (touch s later))
unfolding get get_known is_empty
get-known w [] s now later h e = absurd (cc h)
get-known w (c ∷ id) s now later h e = elim (Bool-cases (is_expired s now)) [
  | inl over ↦ rw (e, get_known, over) refl
  | inr live ↦ rw (e, get_known, live) refl
]

-- Where its id is not empty, the session that `create` returns is the one that `get` answers for its id until its hard limit or
-- the idle timeout after its creation, whichever comes first, and `session_expired` from then on.
pub get-create :
    (w : World) (given : SignIn) (made seen now later : ℕ)
    → is_empty given.session_id ≡ false
    → (get (create w given made seen).1 (some given.session_id) now later).0 ≡ (
        if leb (min given.expires_hard_at (seen + w.idle_timeout)) now
        then err session_expired
        else ok (touch (create w given made seen).0 later))
unfolding create is_expired expires_at
get-create w given made seen now later h =
    get-known (create w given made seen).1 given.session_id (create w given made seen).0 now later h
      (Dict.get-put w.sessions given.session_id given.session_id (create w given made seen).0
        ∙ rw (eq_text_refl given.session_id) refl)
