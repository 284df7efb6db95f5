-- ===== src/Storage/Progress.antt =====
-- The consumer gets to every operation that was let in.
use conda_presto.Prelude.{ℕ, zero, suc, ◌≡◌, refl, Bool, List, [], ◌∷◌, ◌++◌, length}
use mathlib.Core.List.{append_assoc, append-nil}
use conda_presto.Storage.Operation.{Store, Completion}
use conda_presto.Storage.Coordinator.{
  Ticket, Coordinator, Event, receive, complete, refill, take, finish, receive_next, step, steps,
}
use conda_presto.Storage.Increasing.{tickets, tickets-append}
use conda_presto.Storage.Order.{pending, coordinator}

-- The consumer receives and completes, `n` times.
abbrev pub rounds : ℕ → List Event
rounds zero = []
rounds (suc n) = receive ∷ complete ∷ rounds n

module _ {S : Type 0} (store : Store S) where
  abbrev Takes : Ticket → List Ticket → List (Ticket × Completion) → Coordinator S → Type 0
  Takes t ts d c =
      (rest : List Ticket) × (c.current ≡ t ∷ rest)
      × (rest ++ (c.buffer ++ c.waiting) ≡ ts)
      × (c.completed ≡ d)

  receive_next-Takes :
      (r cl : Bool) (n : ℕ) (ws bs cs : List Ticket) (d : List (Ticket × Completion)) (s : S)
      (t : Ticket) (ts : List Ticket)
      → let c = coordinator r cl n ws bs cs d s in
        pending c ≡ t ∷ ts → Takes t ts d (receive_next cs c)
  unfolding receive_next refill take
  receive_next-Takes r cl n ws bs (x ∷ cs) d s t ts e = (cs, cc e, cc e, refl)
  receive_next-Takes r cl n [] [] [] d s t ts e = cc e
  receive_next-Takes r cl n (w ∷ ws) [] [] d s t ts e = ([], cc e, cc e, refl)
  receive_next-Takes r cl n [] (b ∷ bs) [] d s t ts e = ([], cc e, cc e, refl)
  receive_next-Takes r cl n (w ∷ ws) (b ∷ bs) [] d s t ts e =
      ([], cc e, rw (append_assoc bs (w ∷ []) ws) (cc e), refl)

  finish-Takes :
      (t : Ticket) (ts : List Ticket) (d : List (Ticket × Completion)) (c : Coordinator S)
      → Takes t ts d c
      → let c' = finish store c.current c in
        (pending c' ≡ ts) × (tickets c'.completed ≡ tickets d ++ (t ∷ []))
  unfolding finish
  finish-Takes t ts d c (rest, e, f, g) = rw (e, g) (f, tickets-append d t _)

  -- As many rounds as there are operations in the queue complete all of them, in their order.
  pub steps-rounds :
      (ts : List Ticket) (c : Coordinator S)
      → pending c ≡ ts
      → let c' = steps store (rounds (length ts)) c in
        (pending c' ≡ []) × (tickets c'.completed ≡ tickets c.completed ++ ts)
  unfolding steps step
  steps-rounds [] c e = (e, rw (append-nil (tickets c.completed)) refl)
  steps-rounds (t ∷ ts) c e =
      let taken =
        receive_next-Takes c.is_running c.closed c.next c.waiting c.buffer c.current c.completed
          c.stored t ts e in
      let done = finish-Takes t ts c.completed (receive_next c.current c) taken in
      let rest =
        steps-rounds ts (finish store (receive_next c.current c).current (receive_next c.current c))
          done.0 in
      (rest.0, rw (rest.1, done.1) (simp append_assoc))
