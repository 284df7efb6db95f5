-- ===== src/Storage/Served.antt =====
-- What the operations of a lifespan come to, and that the consumer gets to all of them.
use conda_presto.Prelude.{
  ℕ, suc, ◌≡◌, refl, sym, ◌∙◌, inl, inr, Bool, true, false, not, ◌&&◌, Bool-cases, List, [], ◌∷◌,
  ◌++◌, length, if◌then◌else◌, ltb,
}
use mathlib.Core.List.{append_assoc, append-nil}
use conda_presto.Storage.Operation.{Store, StoreOperation, Completion, perform}
use conda_presto.Storage.Coordinator.{
  Ticket, Coordinator, Event, Reply, proceeds, runtime_error, closed_resource, is_idle, submit,
  expire, receive, complete, begin, close, stop, send, refill, take, finish, receive_next, step,
  steps,
}
use conda_presto.Storage.Order.{coordinator}

module _ {S : Type 0} (store : Store S) where
  -- Each operation has the completion that it comes to on what the one before it left.
  abbrev pub Served : S → List (Ticket × Completion) → S → Type 0
  Served s [] s' = s ≡ s'
  Served s (x ∷ xs) s' = ((perform store x.0.1 s).0 ≡ x.1) × Served (perform store x.0.1 s).1 xs s'

  Served-append :
      (s : S) (xs ys : List (Ticket × Completion)) (s' s'' : S)
      → Served s xs s'
      → Served s' ys s''
      → Served s (xs ++ ys) s''
  Served-append s [] ys s' s'' h k = rw h k
  Served-append s (x ∷ xs) ys s' s'' h k =
      (h.0, Served-append (perform store x.0.1 s).1 xs ys s' s'' h.1 k)

  abbrev pub Continues : Coordinator S → Coordinator S → Type 0
  Continues c c' =
      (new : List (Ticket × Completion)) × (c'.completed ≡ c.completed ++ new)
      × Served c.stored new c'.stored

  same-Continues :
      (c c' : Coordinator S) → c'.completed ≡ c.completed → c.stored ≡ c'.stored → Continues c c'
  same-Continues c c' e f = ([], e ∙ sym (append-nil c.completed), f)

  trans-Continues : (c c' c'' : Coordinator S) → Continues c c' → Continues c' c'' → Continues c c''
  trans-Continues c c' c'' (xs, e, f) (ys, g, h) = (
    xs ++ ys,
    rw (g, e) (simp append_assoc),
    Served-append c.stored xs ys c'.stored c''.stored f h,
  )

  finish-Continues : (cs : List Ticket) (c : Coordinator S) → Continues c (finish store cs c)
  unfolding finish
  finish-Continues [] c = same-Continues c c refl refl
  finish-Continues (t ∷ ts) c = ((t, (perform store t.1 c.stored).0) ∷ [], refl, (refl, refl))

  send-Continues :
      (b : Bool) (t : Ticket) (c : Coordinator S)
      → ltb (length c.buffer) 1 ≡ b
      → Continues c (send t c)
  unfolding send
  send-Continues true t c l = rw l (([], sym (append-nil c.completed), refl))
  send-Continues false t c l = rw l (([], sym (append-nil c.completed), refl))

  receive_next-Continues :
      (r cl : Bool) (n : ℕ) (ws bs cs : List Ticket) (d : List (Ticket × Completion)) (s : S)
      → let c = coordinator r cl n ws bs cs d s in Continues c (receive_next cs c)
  unfolding receive_next refill take
  receive_next-Continues r cl n ws bs (x ∷ cs) d s = ([], sym (append-nil d), refl)
  receive_next-Continues r cl n [] [] [] d s = ([], sym (append-nil d), refl)
  receive_next-Continues r cl n (w ∷ ws) [] [] d s = ([], sym (append-nil d), refl)
  receive_next-Continues r cl n [] (b ∷ bs) [] d s = ([], sym (append-nil d), refl)
  receive_next-Continues r cl n (w ∷ ws) (b ∷ bs) [] d s = ([], sym (append-nil d), refl)

  -- No lifespan begins.
  abbrev pub NoBegin : List Event → Type 0
  NoBegin [] = Unit
  NoBegin (begin made ∷ es) = ⊥
  NoBegin (submit late operation ∷ es) = NoBegin es
  NoBegin (expire n ∷ es) = NoBegin es
  NoBegin (receive ∷ es) = NoBegin es
  NoBegin (complete ∷ es) = NoBegin es
  NoBegin (close ∷ es) = NoBegin es
  NoBegin (stop ∷ es) = NoBegin es

  abbrev Leaves : Coordinator S → Reply × Coordinator S → Type 0
  Leaves c x = Continues c x.1

  submit-Continues :
      (operation : StoreOperation) (c : Coordinator S) (running late closed : Bool)
      → Leaves c (
          if not running
          then (runtime_error, c)
          else if late
          then (proceeds, c)
          else if closed
          then (closed_resource, c)
          else (proceeds, send (c.next, operation) (record c { next = suc c.next })))
  submit-Continues operation c false late closed = ([], sym (append-nil c.completed), refl)
  submit-Continues operation c true true closed = ([], sym (append-nil c.completed), refl)
  submit-Continues operation c true false true = ([], sym (append-nil c.completed), refl)
  submit-Continues operation c true false false =
      trans-Continues c (record c { next = suc c.next })
        (send (c.next, operation) (record c { next = suc c.next }))
        ([], sym (append-nil c.completed), refl)
        (send-Continues (ltb (length c.buffer) 1) (c.next, operation)
          (record c { next = suc c.next }) refl)

  stop-Continues : (c : Coordinator S) → Continues c (step store stop c).1
  unfolding step
  stop-Continues c = elim (Bool-cases (c.closed && is_idle c)) [
    | inl e ↦ rw e (([], sym (append-nil c.completed), refl))
    | inr e ↦ rw e (([], sym (append-nil c.completed), refl))
  ]

  -- In a lifespan, whatever is submitted and withdrawn: what is done since is done in order, each
  -- operation with the result or error of the store as the one before it left it, and the store is
  -- as the last one left it: no other access comes between.
  pub steps-Continues :
      (es : List Event) (c : Coordinator S) → NoBegin es → Continues c (steps store es c)
  unfolding steps step
  steps-Continues [] c h = same-Continues c c refl refl
  steps-Continues (submit late operation ∷ es) c h =
      trans-Continues c (step store (submit late operation) c).1
        (steps store es (step store (submit late operation) c).1)
        (submit-Continues operation c c.is_running late c.closed)
        (steps-Continues es (step store (submit late operation) c).1 h)
  steps-Continues (expire n ∷ es) c h =
      trans-Continues c (step store (expire n) c).1 (steps store es (step store (expire n) c).1)
        (([], sym (append-nil c.completed), refl))
        (steps-Continues es (step store (expire n) c).1 h)
  steps-Continues (receive ∷ es) c h =
      trans-Continues c (step store receive c).1 (steps store es (step store receive c).1)
        (receive_next-Continues c.is_running c.closed c.next c.waiting c.buffer c.current
          c.completed c.stored)
        (steps-Continues es (step store receive c).1 h)
  steps-Continues (complete ∷ es) c h =
      trans-Continues c (step store complete c).1 (steps store es (step store complete c).1)
        (finish-Continues c.current c) (steps-Continues es (step store complete c).1 h)
  steps-Continues (close ∷ es) c h =
      trans-Continues c (step store close c).1 (steps store es (step store close c).1)
        (([], sym (append-nil c.completed), refl)) (steps-Continues es (step store close c).1 h)
  steps-Continues (stop ∷ es) c h =
      trans-Continues c (step store stop c).1 (steps store es (step store stop c).1)
        (stop-Continues c) (steps-Continues es (step store stop c).1 h)
  steps-Continues (begin made ∷ es) c h = elim h [ ]
