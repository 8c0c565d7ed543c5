-- ===== src/Srv/Access.antt =====
-- backend/samfscon/srv/access.py: `srv_read` and `srv_write`, as they run on the worker's thread.
-- The connection to the server is outside: opening one, closing one and the function that is run are
-- parameters, on a state of their own. A call of the function is noted with its connection.
pub mod Calls
mod Tests
use samfscon.Prelude.{Option, none, some, List, [], ◌∷◌, ◌++◌}
use samfscon.Prelude.Text.{Text}

-- `UpstreamUnavailable`, `OperationTimeout`, and every other exception by its code.
pub data Failure : Type 0 where
  upstream_unavailable operation_timeout : Failure
  other : Text → Failure

pub data Reply (A : Type 0) : Type 0 where
  returned : A → Reply A
  raised : Failure → Reply A

-- The state of the worker under the key `server`, the outside, and the calls of the function so far.
pub record Worker (Conn Outside : Type 0) : Type 0 where
  pub server : Option Conn
  pub outside : Outside
  pub calls : List Conn

module _ {Conn Outside A : Type 0} (connect : Outside → Reply Conn × Outside)
    (hang_up : Conn → Outside → Outside) (func : Conn → Outside → Reply A × Outside) where
  -- A connection that was opened is kept.
  pub keep_opened : Worker Conn Outside → Reply Conn × Outside → Reply Conn × Worker Conn Outside
  keep_opened w (raised e, outside) = (raised e, record w { outside = outside })
  keep_opened w (returned c, outside) =
      (returned c, record w { server = some c; outside = outside })

  -- `_connection`
  pub connection : Worker Conn Outside → Reply Conn × Worker Conn Outside
  unfolding keep_opened
  connection w = elim w.server [
    | some c ↦ (returned c, w)
    | none ↦ keep_opened w (connect w.outside)
  ]

  -- `_reconnect`: an exception of the closing is dropped.
  pub reconnect : Worker Conn Outside → Reply Conn × Worker Conn Outside
  unfolding keep_opened
  reconnect w = elim w.server [
    | none ↦ keep_opened w (connect w.outside)
    | some stale ↦
        let popped : Worker Conn Outside = record w {
          server = none;
          outside = hang_up stale w.outside;
        } in
        keep_opened popped (connect popped.outside)
  ]

  pub call : Conn → Worker Conn Outside → Reply A × Worker Conn Outside
  call c w =
      let (reply, outside) = func c w.outside in
      (reply, record w { outside = outside; calls = w.calls ++ c ∷ [] })

  -- The function, if there is a connection.
  pub call_on : Reply Conn × Worker Conn Outside → Reply A × Worker Conn Outside
  unfolding call
  call_on (raised e, w) = (raised e, w)
  call_on (returned c, w) = call c w

  -- The `except` of `srv_read`
  pub retry : Reply A × Worker Conn Outside → Reply A × Worker Conn Outside
  unfolding call_on reconnect
  retry (returned a, w) = (returned a, w)
  retry (raised upstream_unavailable, w) = call_on (reconnect w)
  retry (raised operation_timeout, w) = call_on (reconnect w)
  retry (raised (other code), w) = (raised (other code), w)

  -- What a connection or its failure leads to in `srv_read`: the opening is outside the `try`.
  pub read_on : Reply Conn × Worker Conn Outside → Reply A × Worker Conn Outside
  unfolding retry
  read_on (raised e, w) = (raised e, w)
  read_on (returned c, w) = retry (call c w)

  pub srv_read : Worker Conn Outside → Reply A × Worker Conn Outside
  unfolding read_on connection
  srv_read w = read_on (connection w)

  pub srv_write : Worker Conn Outside → Reply A × Worker Conn Outside
  unfolding call_on connection
  srv_write w = call_on (connection w)
