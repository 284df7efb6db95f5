-- ===== src/Storage/Order.antt =====
-- Operations are applied in the order in which they were submitted.
use conda_presto.Prelude.{
  ℕ, suc, ◌≡◌, refl, sym, ◌∙◌, Bool, true, false, not, ◌&&◌, ltb, Bool-cases, inl, inr, List, [],
  ◌∷◌, ◌++◌, length, arith, nat_eq, if◌then◌else◌,
}
use mathlib.Core.List.{append_assoc}
use conda_presto.Storage.Operation.{Store, StoreOperation, Completion}
use conda_presto.Storage.Coordinator.{
  Ticket, Coordinator, Event, remove, is_idle, Reply, proceeds, runtime_error, closed_resource,
  submit, expire, receive, complete, begin, close, stop, send, refill, take, finish, receive_next,
  lifespan, step, steps, new_coordinator,
}
use conda_presto.Storage.Increasing.{
  Increasing, tickets, Increasing-append, Increasing-append-remove, tickets-append,
}

length_zero : (ts : List Ticket) → ltb (length ts) 1 ≡ true → ts ≡ []
length_zero ts l = ground arith

none_waits : (ts : List Ticket) (t : Ticket) (ws : List Ticket) → ts ++ (t ∷ []) ≡ [] → ws ≡ []
none_waits [] t ws e = cc e
none_waits (x ∷ ts) t ws e = cc e

no_room : (ts ws : List Ticket) → ltb (length ts) 1 ≡ false → ts ≡ [] → ws ≡ []
no_room [] ws l e = cc l
no_room (t ∷ ts) ws l e = cc e

flat : (ts cs bs ws : List Ticket) → ts ++ (cs ++ (bs ++ ws)) ≡ (ts ++ (cs ++ bs)) ++ ws
flat ts cs bs ws = simp append_assoc

withdrawn :
    (n : ℕ) (ts cs bs ws : List Ticket) (hi : ℕ)
    → Increasing 0 (ts ++ (cs ++ (bs ++ ws))) hi
    → Increasing 0 (ts ++ (cs ++ (bs ++ remove n ws))) hi
withdrawn n ts cs bs ws hi h =
    rw (flat ts cs bs (remove n ws))
      (Increasing-append-remove n 0 (ts ++ (cs ++ bs)) ws hi (rw⁻¹ (flat ts cs bs ws) h))

module _ {S : Type 0} where
  abbrev pub pending : Coordinator S → List Ticket
  pending c = c.current ++ (c.buffer ++ c.waiting)

  abbrev pub coordinator :
      Bool
      → Bool
      → ℕ
      → List Ticket
      → List Ticket
      → List Ticket
      → List (Ticket × Completion)
      → S
      → Coordinator S
  coordinator r cl n ws bs cs d s = record {
    is_running = r;
    closed = cl;
    next = n;
    waiting = ws;
    buffer = bs;
    current = cs;
    completed = d;
    stored = s;
  }

  -- All operations that were let in and not withdrawn, those done first.
  abbrev pub pipeline : Coordinator S → List Ticket
  pipeline c = tickets c.completed ++ pending c

  pub record IsOrdered (c : Coordinator S) : Type 0 where
    pub increasing : Increasing 0 (pipeline c) c.next
    pub fair : c.buffer ≡ [] → c.waiting ≡ []

  send-pipeline :
      (b : Bool) (t : Ticket) (c : Coordinator S)
      → ltb (length c.buffer) 1 ≡ b
      → (c.buffer ≡ [] → c.waiting ≡ [])
      → (pipeline (send t c) ≡ pipeline c ++ (t ∷ []))
        × ((send t c).buffer ≡ [] → (send t c).waiting ≡ [])
        × ((send t c).next ≡ c.next)
  unfolding send
  send-pipeline true t c l fair =
      let e = length_zero c.buffer l in rw (l, e, fair e) (simp append_assoc, (λ n. cc), refl)
  send-pipeline false t c l fair = rw l (simp append_assoc, (λ n. no_room c.buffer _ l n), refl)

  receive_next-pipeline :
      (r cl : Bool) (n : ℕ) (ws bs cs : List Ticket) (d : List (Ticket × Completion)) (s : S)
      → let c = coordinator r cl n ws bs cs d s in
        (bs ≡ [] → ws ≡ [])
        → (pipeline (receive_next cs c) ≡ pipeline c)
          × ((receive_next cs c).buffer ≡ [] → (receive_next cs c).waiting ≡ [])
          × ((receive_next cs c).next ≡ n)
  unfolding receive_next refill take
  receive_next-pipeline r cl n ws bs (x ∷ cs) d s fair = (refl, fair, refl)
  receive_next-pipeline r cl n [] [] [] d s fair = (refl, fair, refl)
  receive_next-pipeline r cl n (w ∷ ws) [] [] d s fair = (refl, (λ e. cc (fair refl)), refl)
  receive_next-pipeline r cl n [] (b ∷ bs) [] d s fair = (refl, (λ e. refl), refl)
  receive_next-pipeline r cl n (w ∷ ws) (b ∷ bs) [] d s fair =
      (simp append_assoc, (λ e. none_waits bs w ws e), refl)

  finish-pipeline :
      (store : Store S) (cs : List Ticket) (c : Coordinator S)
      → c.current ≡ cs
      → (pipeline (finish store cs c) ≡ pipeline c)
        × ((finish store cs c).buffer ≡ c.buffer)
        × ((finish store cs c).waiting ≡ c.waiting)
        × ((finish store cs c).next ≡ c.next)
  unfolding finish
  finish-pipeline store [] c e = (refl, refl, refl, refl)
  finish-pipeline store (t ∷ ts) c e =
      (rw (e, tickets-append c.completed t _) (simp append_assoc), refl, refl, refl)

module _ {S : Type 0} (store : Store S) where
  same-IsOrdered :
      (c c' : Coordinator S)
      → pipeline c' ≡ pipeline c
      → c'.next ≡ c.next
      → (c'.buffer ≡ [] → c'.waiting ≡ [])
      → IsOrdered c
      → IsOrdered c'
  same-IsOrdered c c' p n fair o = record { increasing = rw (p, n) o.increasing; fair = fair }

  admit-IsOrdered :
      (c : Coordinator S) (operation : StoreOperation)
      → IsOrdered c
      → IsOrdered (send (c.next, operation) (record c { next = suc c.next }))
  admit-IsOrdered c operation o =
      let sent = send-pipeline _ (c.next, operation) (record c { next = suc c.next }) refl o.fair in
      record {
        increasing =
            rw (sent.0, sent.2) (Increasing-append 0 (pipeline c) c.next operation o.increasing);
        fair = sent.1;
      }

  expire-IsOrdered :
      (n : ℕ) (c : Coordinator S)
      → IsOrdered c
      → IsOrdered (record c { waiting = remove n c.waiting })
  expire-IsOrdered n c o = record {
    increasing = withdrawn n (tickets c.completed) c.current c.buffer c.waiting c.next o.increasing;
    fair = λ e. rw (o.fair e) refl;
  }

  lifespan-IsOrdered :
      (made : Bool) (c : Coordinator S) → IsOrdered c → IsOrdered (lifespan store made c).1
  unfolding lifespan
  lifespan-IsOrdered made c o = elim (Bool-cases c.is_running) [
    | inl r ↦ simp r o
    | inr r ↦ elim (Bool-cases (store.is_file && not made)) [
      | inl l ↦ simp (r, l) o
      | inr l ↦ simp (r, l) (same-IsOrdered c _ refl refl o.fair o)
    ]
  ]

  abbrev Leaves : Reply × Coordinator S → Type 0
  Leaves x = IsOrdered x.1

  submit-IsOrdered :
      (operation : StoreOperation) (c : Coordinator S) (running late closed : Bool)
      → IsOrdered c
      → Leaves (
          if not running
          then (runtime_error, c)
          else if late
          then (proceeds, c)
          else if closed
          then (closed_resource, c)
          else (proceeds, send (c.next, operation) (record c { next = suc c.next })))
  submit-IsOrdered operation c false late closed o = o
  submit-IsOrdered operation c true true closed o = o
  submit-IsOrdered operation c true false true o = o
  submit-IsOrdered operation c true false false o = admit-IsOrdered c operation o

  step-IsOrdered : (e : Event) (c : Coordinator S) → IsOrdered c → IsOrdered (step store e c).1
  unfolding step lifespan
  step-IsOrdered (submit late operation) c o =
      submit-IsOrdered operation c c.is_running late c.closed o
  step-IsOrdered (expire n) c o = expire-IsOrdered n c o
  step-IsOrdered receive c o =
      let p =
        receive_next-pipeline c.is_running c.closed c.next c.waiting c.buffer c.current c.completed
          c.stored o.fair in
      same-IsOrdered c _ p.0 p.2 p.1 o
  step-IsOrdered complete c o =
      let p = finish-pipeline store c.current c refl in
      same-IsOrdered c _ p.0 p.3 (λ n. p.2 ∙ o.fair (sym p.1 ∙ n)) o
  step-IsOrdered (begin made) c o = lifespan-IsOrdered made c o
  step-IsOrdered close c o = same-IsOrdered c _ refl refl o.fair o
  step-IsOrdered stop c o = elim (Bool-cases (c.closed && is_idle c)) [
    | inl e ↦ rw e (same-IsOrdered c _ refl refl o.fair o)
    | inr e ↦ rw e o
  ]

  pub steps-IsOrdered :
      (es : List Event) (c : Coordinator S) → IsOrdered c → IsOrdered (steps store es c)
  unfolding steps
  steps-IsOrdered [] c o = o
  steps-IsOrdered (e ∷ es) c o = steps-IsOrdered es (step store e c).1 (step-IsOrdered e c o)

  -- After any events, from a coordinator without operations: the operations that are done, the one
  -- that the consumer has, those in the stream and those that wait to be let in stand in the order
  -- in which they were submitted, none of them twice, and none waits while there is room.
  pub steps-new_coordinator :
      (es : List Event) (s : S) → IsOrdered (steps store es (new_coordinator s))
  steps-new_coordinator es s =
      steps-IsOrdered es (new_coordinator s) (record { increasing = omega arith; fair = λ e. refl })
