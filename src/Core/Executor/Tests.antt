-- ===== src/Core/Executor/Tests.antt =====
-- Examples of backend/samfscon/core/executor.py.
use samfscon.Prelude.{◌≤◌, false, none, some, [], ◌∷◌, ◌≡◌, ◌⊎◌, arith}
use samfscon.Prelude.Text.{codes}
use samfscon.Prelude.Dict
use samfscon.Core.Executor.{SessionWorker, ExecutorRegistry, get, active_sessions}
use samfscon.Core.Executor.Bound.{IsValid, get-IsValid}

abbrev registry : ExecutorRegistry
registry = record {
  max_sessions = 1;
  workers =
      (
        codes "s1",
        record { session_id = codes "s1"; handles = codes "server" ∷ []; closed = false },
      )
      ∷ [];
}

abbrev none_yet : ExecutorRegistry
none_yet = record { max_sessions = 1; workers = [] }

none_yet-IsValid : IsValid none_yet
unfolding active_sessions Dict.get
none_yet-IsValid = record { within = omega arith; open_workers = λ id w e. absurd (cc e) }

get-IsValid_example :
    ((get none_yet (codes "s1") ≡ none)
      × (Dict.get none_yet.workers (codes "s1") ≡ none)
      × (none_yet.max_sessions ≤ active_sessions none_yet))
    ⊎ ((w : SessionWorker) × (r' : ExecutorRegistry) × (get none_yet (codes "s1") ≡ some (w, r'))
        × IsValid r'
        × (w.closed ≡ false)
        × (w.session_id ≡ codes "s1")
        × (Dict.get r'.workers (codes "s1") ≡ some w))
get-IsValid_example = get-IsValid none_yet (codes "s1") none_yet-IsValid
