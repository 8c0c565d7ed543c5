-- ===== src/Srv/Access/Tests.antt =====
-- Examples of backend/samfscon/srv/access.py: an outside that counts the connections, of which the
-- first is lost.
use samfscon.Prelude.{ℕ, suc, ◌≤◌, none, List, [], ◌∷◌, ◌++◌, ◌≡◌, ◌⊎◌, ◌==◌, if◌then◌else◌, length}
use samfscon.Srv.Access.{
  Failure, upstream_unavailable, Reply, returned, raised, Worker, srv_read, srv_write,
}
use samfscon.Srv.Access.Calls.{srv_write_once, srv_read_twice}

abbrev connect : ℕ → Reply ℕ × ℕ
connect opened = (returned opened, suc opened)

abbrev hang_up : ℕ → ℕ → ℕ
hang_up c opened = opened

abbrev list_shares : ℕ → ℕ → Reply ℕ × ℕ
list_shares c opened = (if c == 0 then raised upstream_unavailable else returned 7, opened)

abbrev worker : Worker ℕ ℕ
worker = record { server = none; outside = 0; calls = [] }

srv_write_once_example :
    (((srv_write connect hang_up list_shares worker).1.calls ≡ worker.calls)
      × (e : Failure) × ((srv_write connect hang_up list_shares worker).0 ≡ raised e))
    ⊎ ((c : ℕ) × (outside : ℕ) × ((srv_write connect hang_up list_shares worker).1.calls
          ≡ worker.calls ++ c ∷ [])
        × ((srv_write connect hang_up list_shares worker).0 ≡ (list_shares c outside).0))
srv_write_once_example = srv_write_once connect hang_up list_shares worker

srv_read_twice_example :
    (cs : List ℕ) × ((srv_read connect hang_up list_shares worker).1.calls ≡ worker.calls ++ cs)
    × (length cs ≤ 2)
srv_read_twice_example = srv_read_twice connect hang_up list_shares worker
