-- ===== src/Core/Executor.antt =====
-- `ExecutorRegistry` of backend/samfscon/core/executor.py: one worker for each active session.
-- A worker is seen by its `_closed` flag and the names of the handles in its `state`; the thread
-- pool and the logging are outside the model.
pub mod Bound
mod Tests
use samfscon.Prelude.{
  ℕ, Bool, true, false, Option, none, some, List, [], ◌∷◌, leb, length, if◌then◌else◌, map,
}
use samfscon.Prelude.Text.{Text}
use samfscon.Prelude.Dict
use samfscon.Prelude.Dict.{Dict}

pub record SessionWorker : Type 0 where
  pub session_id : Text
  pub handles : List Text
  pub closed : Bool

pub record ExecutorRegistry : Type 0 where
  pub max_sessions : ℕ
  pub workers : Dict SessionWorker

pub new_worker : Text → SessionWorker
new_worker session_id = record { session_id = session_id; handles = []; closed = false }

-- The cleanup that `close` submits clears the state; a second `close` does nothing.
pub close : SessionWorker → SessionWorker
close w = if w.closed then w else record w { closed = true; handles = [] }

-- `none` is the refusal `too_many_sessions`.
unfoldable pub get : ExecutorRegistry → Text → Option (SessionWorker × ExecutorRegistry)
get r session_id = elim (Dict.get r.workers session_id) [
  | some w ↦ some (w, r)
  | none ↦
      if leb r.max_sessions (length r.workers)
      then none
      else some (
        new_worker session_id,
        record r { workers = Dict.put r.workers session_id (new_worker session_id) },
      )
]

-- The worker that was dropped, closed, if there was one.
unfoldable pub drop : ExecutorRegistry → Text → Option SessionWorker × ExecutorRegistry
drop r session_id = elim (Dict.get r.workers session_id) [
  | none ↦ (none, r)
  | some w ↦ (some (close w), record r { workers = Dict.remove r.workers session_id })
]

pub active_sessions : ExecutorRegistry → ℕ
active_sessions r = length r.workers

pub drop_each : ExecutorRegistry → List Text → ExecutorRegistry
drop_each r [] = r
drop_each r (session_id ∷ rest) = drop_each (drop r session_id).1 rest

unfoldable pub ids {ℓ} : {V : Type ℓ} → Dict V → List Text
ids m = map (λ e. e.0) m

pub shutdown : ExecutorRegistry → ExecutorRegistry
shutdown r = drop_each r (ids r.workers)
