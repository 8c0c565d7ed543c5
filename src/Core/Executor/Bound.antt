-- ===== src/Core/Executor/Bound.antt =====
-- The number of workers, and which workers the registry hands out.
use samfscon.Prelude.{
  ◌≤◌, ◌≡◌, refl, false, none, some, List, [], ◌∷◌, arith, leb, length, if◌then◌else◌, Bool-cases,
  inl, inr, Option-cases, ◌∙◌, ◌⊎◌, any,
}
use samfscon.Prelude.Text.{Text, eq_text, eq_text_iff}
use samfscon.Prelude.Dict
use samfscon.Prelude.Dict.{Dict}
use samfscon.Core.Executor.{
  SessionWorker, ExecutorRegistry, new_worker, get, drop, active_sessions, drop_each, ids, shutdown,
}

-- Within the bound, and every worker in the table is open and stands under its own session.
pub record IsValid (r : ExecutorRegistry) : Type 0 where
  pub within : active_sessions r ≤ r.max_sessions
  pub open_workers :
      (id : Text) (w : SessionWorker)
      → Dict.get r.workers id ≡ some w
      → (w.closed ≡ false) × (w.session_id ≡ id)

put-IsValid :
    (r : ExecutorRegistry) (id : Text)
    → IsValid r
    → leb r.max_sessions (length r.workers) ≡ false
    → IsValid (record r { workers = Dict.put r.workers id (new_worker id) })
unfolding active_sessions new_worker
put-IsValid r id v room = record {
  within = (let l = Dict.length-put r.workers id (new_worker id) in ground arith);
  open_workers = λ j w found.
      ground
        (arith, Dict.get-put r.workers id j (new_worker id), v.open_workers j w, eq_text_iff id j);
}

-- In a valid registry (within its bound, each worker open and under its own session), `get` hands
-- out an open worker of the session that was asked for, and keeps the registry within
-- its bound; it refuses only for a session without a worker, when the bound is reached.
pub get-IsValid :
    (r : ExecutorRegistry) (id : Text)
    → IsValid r
    → ((get r id ≡ none) × (Dict.get r.workers id ≡ none) × (r.max_sessions ≤ active_sessions r))
      ⊎ ((w : SessionWorker) × (r' : ExecutorRegistry) × (get r id ≡ some (w, r'))
          × IsValid r'
          × (w.closed ≡ false)
          × (w.session_id ≡ id)
          × (Dict.get r'.workers id ≡ some w))
unfolding get active_sessions
get-IsValid r id v = elim (Option-cases (Dict.get r.workers id)) [
  | inr (w, found) ↦
      let (is_open, own) = v.open_workers id w found in
      inr (w, r, rw (found, get), v, is_open, own, found)
  | inl missing ↦ elim (Bool-cases (leb r.max_sessions (length r.workers))) [
    | inl full ↦ inl (rw (missing, get) (rw full), missing, ground arith)
    | inr room ↦ inr (
      new_worker id,
      record r { workers = Dict.put r.workers id (new_worker id) },
      rw (missing, get) (rw room),
      put-IsValid r id v room,
      unfold new_worker in refl,
      unfold new_worker in refl,
      rw Dict.get-put (ground (arith, eq_text_iff id id)),
    )
  ]
]

pub drop-IsValid : (r : ExecutorRegistry) (id : Text) → IsValid r → IsValid (drop r id).1
unfolding drop active_sessions
drop-IsValid r id v = elim (Option-cases (Dict.get r.workers id)) [
  | inl missing ↦ rw (missing, drop) v
  | inr (w, found) ↦
      rw (found, drop)
        (record {
          within = (let l = Dict.length-remove r.workers id in let b = v.within in omega arith);
          open_workers =
              λ j u e. v.open_workers j u (ground (arith, Dict.get-remove r.workers id j));
        })
]

pub get-drop :
    (r : ExecutorRegistry) (k j : Text)
    → Dict.get (drop r k).1.workers j ≡ (if eq_text k j then none else Dict.get r.workers j)
unfolding drop
get-drop r k j = ground (arith, Dict.get-remove r.workers k j, eq_text_iff k j)

get-drop_each :
    (ks : List Text) (r : ExecutorRegistry) (j : Text)
    → Dict.get (drop_each r ks).workers j
      ≡ (if any (λ k. eq_text k j) ks then none else Dict.get r.workers j)
unfolding drop_each
get-drop_each [] r j = refl
get-drop_each (k ∷ ks) r j = ground (arith, get-drop_each ks (drop r k).1 j, get-drop r k j)

get-ids :
    (m : Dict SessionWorker) (j : Text)
    → any (λ k. eq_text k j) (ids m) ≡ false
    → Dict.get m j ≡ none
unfolding ids Dict.get
get-ids [] j h = refl
get-ids ((k, w) ∷ m) j h = ground (arith, get-ids m j)

-- After `shutdown` no session has a worker.
pub get-shutdown : (r : ExecutorRegistry) (j : Text) → Dict.get (shutdown r).workers j ≡ none
unfolding shutdown
get-shutdown r j = get-drop_each (ids r.workers) r j ∙ ground (arith, get-ids r.workers j)
