-- ===== src/Srv/Access/Calls.antt =====
-- How often `srv_read` and `srv_write` call the function.
use samfscon.Prelude.{
  Option-cases, none, List, [], ◌∷◌, ◌++◌, ◌≡◌, ◌⊎◌, inl, inr, refl, sym, ◌∙◌, subst, length, arith,
  ◌≤◌, append_assoc, append-nil,
}
use samfscon.Srv.Access.{
  Failure, upstream_unavailable, operation_timeout, other, Reply, returned, raised, Worker,
  keep_opened, connection, reconnect, call, call_on, retry, read_on, srv_read, srv_write,
}

module _ {Conn Outside A : Type 0} (connect : Outside → Reply Conn × Outside)
    (hang_up : Conn → Outside → Outside) (func : Conn → Outside → Reply A × Outside) where
  keep_opened-calls :
      (w : Worker Conn Outside) (r : Reply Conn × Outside)
      → (keep_opened connect hang_up func w r).1.calls ≡ w.calls
  unfolding keep_opened
  keep_opened-calls w (raised e, outside) = refl
  keep_opened-calls w (returned c, outside) = refl

  connection-calls :
      (w : Worker Conn Outside) → (connection connect hang_up func w).1.calls ≡ w.calls
  unfolding connection
  connection-calls w = elim (Option-cases w.server) [
    | inl absent ↦ rw absent (keep_opened-calls (record w { server = none }) (connect w.outside))
    | inr (c, there) ↦ rw there refl
  ]

  reconnect-calls : (w : Worker Conn Outside) → (reconnect connect hang_up func w).1.calls ≡ w.calls
  unfolding reconnect
  reconnect-calls w = elim (Option-cases w.server) [
    | inl absent ↦ rw absent (keep_opened-calls (record w { server = none }) (connect w.outside))
    | inr (c, there) ↦ rw there (
        keep_opened-calls (record w { server = none; outside = hang_up c w.outside })
          (connect (hang_up c w.outside)))
  ]

  -- What a call of the function, or the lack of a connection, leads to.
  abbrev CalledOnce : List Conn → Reply A × Worker Conn Outside → Type 0
  CalledOnce before r =
      ((r.1.calls ≡ before) × (e : Failure) × (r.0 ≡ raised e))
      ⊎ ((c : Conn) × (outside : Outside) × (r.1.calls ≡ before ++ c ∷ [])
          × (r.0 ≡ (func c outside).0))

  call_on-CalledOnce :
      (r : Reply Conn × Worker Conn Outside) → CalledOnce r.1.calls (call_on connect hang_up func r)
  unfolding call_on call
  call_on-CalledOnce (raised e, w) = inl (refl, e, refl)
  call_on-CalledOnce (returned c, w) = inr (c, w.outside, refl, refl)

  -- `srv_write` calls its function at most once, whatever happens: without a connection it raises
  -- and does not call it; with one, the result is that of the one call, unchanged.
  pub srv_write_once :
      (w : Worker Conn Outside)
      → let r = srv_write connect hang_up func w in
        ((r.1.calls ≡ w.calls) × (e : Failure) × (r.0 ≡ raised e))
        ⊎ ((c : Conn) × (outside : Outside) × (r.1.calls ≡ w.calls ++ c ∷ [])
            × (r.0 ≡ (func c outside).0))
  unfolding srv_write
  srv_write_once w =
      subst
        (λ before.
          CalledOnce before (call_on connect hang_up func (connection connect hang_up func w)))
        (connection-calls w) (call_on-CalledOnce (connection connect hang_up func w))

  -- A result of `srv_read`, with the calls that led to it.
  abbrev CalledTwice : List Conn → Reply A × Worker Conn Outside → Type 0
  CalledTwice before r = (cs : List Conn) × (r.1.calls ≡ before ++ cs) × (length cs ≤ 2)

  again :
      (before : List Conn) (c : Conn) (r : Reply A × Worker Conn Outside)
      → CalledOnce (before ++ c ∷ []) r
      → CalledTwice before r
  again before c r (inl (none_more, e, q)) = (c ∷ [], none_more, omega arith)
  again before c r (inr (d, outside, more, q)) =
      (c ∷ (d ∷ []), more ∙ append_assoc before (c ∷ []) (d ∷ []), omega arith)

  lost-CalledTwice :
      (before : List Conn) (c : Conn) (w : Worker Conn Outside)
      → w.calls ≡ before ++ c ∷ []
      → CalledTwice before (call_on connect hang_up func (reconnect connect hang_up func w))
  lost-CalledTwice before c w e =
      again before c (call_on connect hang_up func (reconnect connect hang_up func w)) (
        subst (λ l. CalledOnce l (call_on connect hang_up func (reconnect connect hang_up func w)))
          (reconnect-calls w ∙ e) (call_on-CalledOnce (reconnect connect hang_up func w)))

  retry-CalledTwice :
      (before : List Conn) (c : Conn) (r : Reply A × Worker Conn Outside)
      → r.1.calls ≡ before ++ c ∷ []
      → CalledTwice before (retry connect hang_up func r)
  unfolding retry
  retry-CalledTwice before c (returned a, w) e = (c ∷ [], e, omega arith)
  retry-CalledTwice before c (raised upstream_unavailable, w) e = lost-CalledTwice before c w e
  retry-CalledTwice before c (raised operation_timeout, w) e = lost-CalledTwice before c w e
  retry-CalledTwice before c (raised (other code), w) e = (c ∷ [], e, omega arith)

  read_on-CalledTwice :
      (r : Reply Conn × Worker Conn Outside)
      → CalledTwice r.1.calls (read_on connect hang_up func r)
  unfolding read_on call
  read_on-CalledTwice (raised e, w) = ([], sym (append-nil w.calls), omega arith)
  read_on-CalledTwice (returned c, w) =
      retry-CalledTwice w.calls c (call connect hang_up func c w) refl

  -- `srv_read` calls its function twice at most, whatever happens.
  pub srv_read_twice :
      (w : Worker Conn Outside)
      → (cs : List Conn) × ((srv_read connect hang_up func w).1.calls ≡ w.calls ++ cs)
        × (length cs ≤ 2)
  unfolding srv_read
  srv_read_twice w =
      subst
        (λ before.
          CalledTwice before (read_on connect hang_up func (connection connect hang_up func w)))
        (connection-calls w) (read_on-CalledTwice (connection connect hang_up func w))
