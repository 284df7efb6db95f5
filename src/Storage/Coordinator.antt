-- ===== src/Storage/Coordinator.antt =====
-- `StoreOperationCoordinator` as a state machine: `submit`, the consumer and `lifespan`.
use conda_presto.Prelude.{
  ℕ, suc, ◌+◌, ◌&&◌, String, Bool, true, false, not, ltb, none, some, List, [], ◌∷◌, ◌++◌, length,
  ◌==◌, nat_eq, if◌then◌else◌,
}
use conda_presto.Storage.Operation.{Store, StoreOperation, Completion, perform, expire_file_entries}

-- A submitted operation, with the number that tells its record from others.
abbrev pub Ticket : Type 0
Ticket = ℕ × StoreOperation

-- `send_stream` is set while the consumer runs. The stream has room for one operation; further
-- senders wait, and the library lets them in in their order.
pub record Coordinator (S : Type 0) : Type 0 where
  pub is_running : Bool
  pub closed : Bool
  pub next : ℕ
  pub waiting : List Ticket
  pub buffer : List Ticket
  pub current : List Ticket
  pub completed : List (Ticket × Completion)
  pub stored : S

-- What happens next: a task submits (perhaps past its deadline already, and then sends nothing), a caller's deadline passes, the consumer receives an
-- operation or completes the one it has, or the lifespan begins (with the outcome of `mkdir`) or
-- ends.
pub data Event : Type 0 where
  submit : (late : Bool) → StoreOperation → Event
  expire : ℕ → Event
  receive complete : Event
  begin : (made : Bool) → Event
  close stop : Event

-- What `submit` and `lifespan` say to their caller at an event.
pub data Reply : Type 0 where
  proceeds : Reply
  runtime_error closed_resource os_error : Reply

-- How `submit` ends: at the deadline, or when the operation's `completed` is set.
pub data Submitted : Type 0 where
  returns : Bool → Submitted
  raises : String → Submitted

unfoldable pub submitted : (cancel_called : Bool) → Completion → Submitted
submitted true completion = returns false
submitted false completion = elim completion.error [
  | none ↦ returns true
  | some message ↦ raises message
]

abbrev pub remove : ℕ → List Ticket → List Ticket
remove n [] = []
remove n (t ∷ ts) = let rest = remove n ts in if t.0 == n then rest else t ∷ rest

module _ {S : Type 0} where
  -- `send`: into the stream if there is room, or else to the end of those who wait.
  unfoldable pub send : Ticket → Coordinator S → Coordinator S
  send t c =
      if ltb (length c.buffer) 1
      then record c { buffer = c.buffer ++ (t ∷ []) }
      else record c { waiting = c.waiting ++ (t ∷ []) }

  unfoldable pub refill : List Ticket → Coordinator S → Coordinator S
  refill [] c = c
  refill (t ∷ ts) c = record c { waiting = ts; buffer = c.buffer ++ (t ∷ []) }

  unfoldable pub take : List Ticket → Coordinator S → Coordinator S
  take [] c = c
  take (t ∷ ts) c = record c { buffer = ts; current = t ∷ [] }

  -- The task group of the lifespan ends when the consumer has found the stream closed and empty.
  abbrev pub is_idle : Coordinator S → Bool
  is_idle c = ltb (length c.waiting + (length c.buffer + length c.current)) 1

  -- One operation at a time: the consumer receives the next when it has completed the last.
  unfoldable pub receive_next : List Ticket → Coordinator S → Coordinator S
  unfolding refill take
  receive_next [] c = let c' = refill c.waiting c in take c'.buffer c'
  receive_next (t ∷ ts) c = c

module _ {S : Type 0} (store : Store S) where
  unfoldable pub finish : List Ticket → Coordinator S → Coordinator S
  unfolding perform
  finish [] c = c
  finish (t ∷ ts) c =
      let (completion, s) = perform store t.1 c.stored in
      record c { current = ts; completed = c.completed ++ ((t, completion) ∷ []); stored = s }

  unfoldable pub lifespan : Bool → Coordinator S → Reply × Coordinator S
  unfolding expire_file_entries
  lifespan made c =
      if c.is_running
      then (runtime_error, c)
      else if store.is_file && not made
      then (os_error, c)
      else (
        proceeds,
        record c {
          is_running = true;
          closed = false;
          stored = (expire_file_entries store c.stored).1;
        },
      )

  unfoldable pub step : Event → Coordinator S → Reply × Coordinator S
  unfolding send receive_next finish lifespan
  step (submit late operation) c =
      if not c.is_running
      then (runtime_error, c)
      else if late
      then (proceeds, c)
      else if c.closed
      then (closed_resource, c)
      else (proceeds, send (c.next, operation) (record c { next = suc c.next }))
  step (expire n) c = (proceeds, record c { waiting = remove n c.waiting })
  step receive c = (proceeds, receive_next c.current c)
  step complete c = (proceeds, finish c.current c)
  step (begin made) c = lifespan made c
  step close c = (proceeds, record c { closed = c.is_running })
  step stop c =
      if c.closed && is_idle c
      then (proceeds, record c { is_running = false; closed = false })
      else (proceeds, c)

  unfoldable pub steps : List Event → Coordinator S → Coordinator S
  unfolding step
  steps [] c = c
  steps (e ∷ es) c = steps es (step e c).1

-- A coordinator over what is stored.
abbrev pub new_coordinator : {S : Type 0} → S → Coordinator S
new_coordinator s = record {
  is_running = false;
  closed = false;
  next = 0;
  waiting = [];
  buffer = [];
  current = [];
  completed = [];
  stored = s;
}
