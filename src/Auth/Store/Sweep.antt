-- ===== src/Auth/Store/Sweep.antt =====
-- What `sweep` and `close_all` leave in the store.
use samfscon.Prelude.{
  ℕ, ◌≡◌, refl, true, false, not, none, some, List, [], ◌∷◌, arith, if◌then◌else◌, ◌∙◌, any, keep,
}
use samfscon.Prelude.Text.{Text, eq_text}
use samfscon.Prelude.Dict
use samfscon.Prelude.Dict.{Dict, IsDict, accepted}
use samfscon.Core.Executor.{ids}
use samfscon.Auth.Store.{World, is_expired, drop, drop_each, stale, sweep, close_all}
use samfscon.Auth.Store.Ending.{get-drop_session}

get-drop_each :
    (ks : List Text) (w : World) (j : Text)
    → Dict.get (drop_each w ks).sessions j
      ≡ (if any (λ k. eq_text k j) ks then none else Dict.get w.sessions j)
unfolding drop_each
get-drop_each [] w j = refl
get-drop_each (k ∷ ks) w j = ground (arith, get-drop_each ks (drop w k) j, get-drop_session w k j)

-- A key is among the ids of a table exactly when the table has an entry for it.
any-ids {ℓ} :
    {V : Type ℓ} (m : Dict V) (j : Text)
    → any (λ k. eq_text k j) (ids m) ≡ (elim (Dict.get m j) [ none ↦ false | some v ↦ true ])
unfolding ids Dict.get
any-ids [] j = refl
any-ids ((k, v) ∷ m) j = ground (arith, any-ids m j)

-- After `sweep` a store with no id twice holds exactly the sessions that had not expired, unchanged.
pub get-sweep :
    (w : World) (now : ℕ) (j : Text)
    → IsDict w.sessions
    → Dict.get (sweep w now).1.sessions j
      ≡ accepted (λ e. not (is_expired e.1 now)) j (Dict.get w.sessions j)
unfolding sweep stale
get-sweep w now j d =
    get-drop_each (stale w now) w j
    ∙ rw (any-ids (keep (λ e. is_expired e.1 now) w.sessions) j)
        (rw (Dict.get-keep (λ e. is_expired e.1 now) w.sessions j d) (ground arith))

-- After `close_all` the store is empty.
pub get-close_all : (w : World) (j : Text) → Dict.get (close_all w).sessions j ≡ none
unfolding close_all
get-close_all w j = get-drop_each (ids w.sessions) w j ∙ rw (any-ids w.sessions j) (ground arith)
