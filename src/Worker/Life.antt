-- ===== src/Worker/Life.antt =====
-- The life of a worker: any sequence of calls, and what holds throughout.
use conda_presto.Prelude.{
  ◌≡◌, refl, ◌⊎◌, inl, inr, Bool-cases, Bool, true, false, not, ◌&&◌, ◌||◌, Option, none, some,
  List, [], ◌∷◌, ◌++◌, if◌then◌else◌,
}
use mathlib.Core.Path.{subst}
use conda_presto.Worker.Child.{
  Outcome, Answer, raises, WorkerError, IsFault, unavailable, exited, refused, timeout,
}
use conda_presto.Worker.Stop.{Worker, Stopping, running, ready, stop, recover_if_stopped, shutdown}
use conda_presto.Worker.Start.{
  raised, Starting, Launch, Poll, start, restart, abandon, wait, launch_with, nothing,
  shutdown_seen, deadline_passed, ready_message, other_message, end_of_pipe, raises_unstarted,
  raises_started, close_raises, launched,
}
use conda_presto.Worker.Execute.{with_request, Exchange, execute, exchange, give_up, receive, lose}

-- The calls on a worker. `restart_thread` is what the background thread does.
pub data Call (R : Type 0) : Type 0 where
  do_start : Starting → Call R
  do_execute : Exchange → R → Call R
  do_recover : Bool → Stopping → Call R
  restart_thread : Starting → Call R
  do_shutdown : Stopping → Bool → Call R

abbrev pub new_worker : {R : Type 0} → Worker R
new_worker = record {
  connection = none;
  process = false;
  is_ready = false;
  restarting = false;
  shutdown_requested = false;
}

abbrev pub NoneOutstanding : {R : Type 0} → Option (List R) → Type 0
NoneOutstanding none = Unit
NoneOutstanding (some q) = q ≡ []

-- No request waits for its reply between calls, and a ready worker has a pipe and a process.
pub record IsValid {R : Type 0} (w : Worker R) : Type 0 where
  pub idle : NoneOutstanding w.connection
  pub connected : w.is_ready ≡ true → (w.connection ≡ some []) × (w.process ≡ true)

module _ {R : Type 0} where
  stop-IsValid : (b : Bool) (e : Stopping) (w : Worker R) → IsValid (stop b e w).1
  unfolding stop
  stop-IsValid b e w = record { idle = tt; connected = λ h. cc }

  wait-IsValid :
      (e : Stopping) (polls : List Poll) (w : Worker R)
      → w.connection ≡ some []
      → w.process ≡ true
      → IsValid (wait e polls w).1
  unfolding wait abandon
  wait-IsValid e [] w c p = stop-IsValid false e w
  wait-IsValid e (nothing ∷ polls) w c p = wait-IsValid e polls w c p
  wait-IsValid e (shutdown_seen ∷ polls) w c p =
      stop-IsValid false e (record w { shutdown_requested = true })
  wait-IsValid e (deadline_passed ∷ polls) w c p = stop-IsValid false e w
  wait-IsValid e (ready_message ∷ polls) w c p = record {
    idle = rw c refl;
    connected = λ h. (c, p);
  }
  wait-IsValid e (other_message ∷ polls) w c p = stop-IsValid false e w
  wait-IsValid e (end_of_pipe ∷ polls) w c p = stop-IsValid false e w

  launch_with-IsValid :
      (e : Starting) (l : Launch) (w : Worker R) → IsValid w → IsValid (launch_with e l w).1
  unfolding launch_with abandon
  launch_with-IsValid e raises_unstarted w v = v
  launch_with-IsValid e raises_started w v =
      stop-IsValid false e.after (record w { process = true })
  launch_with-IsValid e close_raises w v = stop-IsValid false e.after (record w { process = true })
  launch_with-IsValid e launched w v = wait-IsValid e.after e.polls _ refl refl

  after_stop-IsValid :
      (e : Starting) (stopped : Bool) (w : Worker R)
      → IsValid w
      → IsValid (if stopped then launch_with e e.launch w else (raised, w)).1
  after_stop-IsValid e true w v = launch_with-IsValid e e.launch w v
  after_stop-IsValid e false w v = v

  start-IsValid : (e : Starting) (w : Worker R) → IsValid w → IsValid (start e w).1
  unfolding start
  start-IsValid e w v = elim (Bool-cases (ready w e.alive || w.shutdown_requested)) [
    | inl c ↦ rw c v
    | inr c ↦
        rw c (after_stop-IsValid e (stop false e.before w).0 _ (stop-IsValid false e.before w))
  ]

  restart-IsValid : (e : Starting) (w : Worker R) → IsValid w → IsValid (restart e w)
  unfolding restart
  restart-IsValid e w v =
      let v' = start-IsValid e w v in record { idle = v'.idle; connected = v'.connected }

  recover-IsValid :
      (b : Bool) (e : Stopping) (w : Worker R) → IsValid w → IsValid (recover_if_stopped b e w)
  unfolding recover_if_stopped
  recover-IsValid b e w v = elim (Bool-cases (running w b)) [
    | inl c ↦ rw c v
    | inr c ↦ rw c (stop-IsValid true e w)
  ]

  shutdown-IsValid : (e : Stopping) (b : Bool) (w : Worker R) → IsValid (shutdown e b w).1
  unfolding shutdown
  shutdown-IsValid e b w =
      elim (Bool-cases
        ((stop false e (record w { shutdown_requested = true })).1.restarting && not b)) [
          | inl c ↦ rw c (record { idle = tt; connected = λ h. cc })
          | inr c ↦ rw c (record { idle = tt; connected = λ h. cc })
        ]

  pub nothing_waits : {o : Option (List R)} {q : List R} → o ≡ some q → NoneOutstanding o → q ≡ []
  nothing_waits c idle = subst NoneOutstanding c idle

module _ {P R : Type 0} (solve : R → Outcome P) where
  -- An exchange ends in one of five ways: the worker was not ready, and is replaced if it is not
  -- running; it is stopped with the pipe; the request was not sent; the oldest reply is read and
  -- lost; or the reply is that to the oldest request on the pipe.
  abbrev Ends : Exchange → R → List R → Worker R → Answer P × Worker R → Type 0
  Ends e r outstanding w x =
      (x ≡ (raises unavailable, recover_if_stopped e.still_alive e.stopping w))
      ⊎ ((error : WorkerError) × IsFault error × (x ≡ (raises error, (stop true e.stopping w).1)))
      ⊎ (x ≡ (raises refused, w))
      ⊎ (x ≡ lose solve (outstanding ++ (r ∷ [])) (with_request outstanding r w))
      ⊎ (x ≡ receive solve (outstanding ++ (r ∷ [])) (with_request outstanding r w))

  pub exchange-Ends :
      (e : Exchange) (r : R) (outstanding : List R) (w : Worker R)
      → Ends e r outstanding w (exchange solve e r (some outstanding) w)
  unfolding exchange give_up stop
  exchange-Ends e r outstanding w = elim (Bool-cases (not (ready w e.alive))) [
    | inl c ↦ rw c (inl refl)
    | inr c ↦ rw c (sent e.send_refused e.send_raises e.in_time e.ends e.unreadable)
  ]
    where
      sent :
          (send_refused send_raises in_time ends unreadable : Bool)
          → Ends e r outstanding w (
              if send_refused
              then (raises refused, w)
              else if send_raises
              then give_up solve e (raises exited) w
              else if not in_time
              then give_up solve e (raises timeout) (with_request outstanding r w)
              else if ends
              then give_up solve e (raises exited) (with_request outstanding r w)
              else if unreadable
              then lose solve (outstanding ++ (r ∷ [])) (with_request outstanding r w)
              else receive solve (outstanding ++ (r ∷ [])) (with_request outstanding r w))
      sent true broken in_time ends lost = inr (inr (inl refl))
      sent false true in_time ends lost = inr (inl (exited, tt, refl))
      sent false false false ends lost = inr (inl (timeout, tt, refl))
      sent false false true true lost = inr (inl (exited, tt, refl))
      sent false false true false true = inr (inr (inr (inl refl)))
      sent false false true false false = inr (inr (inr (inr refl)))

  receive-IsValid :
      (r : R) (q : List R) (w : Worker R)
      → w.connection ≡ some q
      → q ≡ []
      → IsValid w
      → IsValid (receive solve (q ++ (r ∷ [])) (with_request q r w)).1
  unfolding receive
  receive-IsValid r q w c n v =
      rw n (record { idle = refl; connected = λ h. (refl, (v.connected h).1) })

  lose-IsValid :
      (r : R) (q : List R) (w : Worker R)
      → w.connection ≡ some q
      → q ≡ []
      → IsValid w
      → IsValid (lose solve (q ++ (r ∷ [])) (with_request q r w)).1
  unfolding lose
  lose-IsValid r q w c n v =
      rw n (record { idle = refl; connected = λ h. (refl, (v.connected h).1) })

  exchange-IsValid :
      (e : Exchange) (r : R) (o : Option (List R)) (w : Worker R)
      → w.connection ≡ o
      → IsValid w
      → IsValid (exchange solve e r o w).1
  exchange-IsValid e r none w c v = unfold exchange in recover-IsValid e.still_alive e.stopping w v
  exchange-IsValid e r (some q) w c v = elim (exchange-Ends e r q w) [
    | inl x ↦ rw x (recover-IsValid e.still_alive e.stopping w v)
    | inr (inl (error, fault, x)) ↦ rw x (stop-IsValid true e.stopping w)
    | inr (inr (inl x)) ↦ rw x v
    | inr (inr (inr (inl x))) ↦ rw x (lose-IsValid r q w c (nothing_waits c v.idle) v)
    | inr (inr (inr (inr x))) ↦ rw x (receive-IsValid r q w c (nothing_waits c v.idle) v)
  ]

  pub execute-IsValid :
      (e : Exchange) (r : R) (w : Worker R) → IsValid w → IsValid (execute solve e r w).1
  unfolding execute
  execute-IsValid e r w v = elim (Bool-cases e.late) [
    | inl c ↦ rw c v
    | inr c ↦ simp c (exchange-IsValid e r w.connection w refl v)
  ]

  -- The worker after a call.
  unfoldable pub after : Call R → Worker R → Worker R
  unfolding start restart execute recover_if_stopped shutdown
  after (do_start e) w = (start e w).1
  after (do_execute e r) w = (execute solve e r w).1
  after (do_recover alive e) w = recover_if_stopped alive e w
  after (restart_thread e) w = restart e w
  after (do_shutdown e joined) w = (shutdown e joined w).1

  unfoldable pub after_all : List (Call R) → Worker R → Worker R
  unfolding after
  after_all [] w = w
  after_all (call ∷ calls) w = after_all calls (after call w)

  after-IsValid : (call : Call R) (w : Worker R) → IsValid w → IsValid (after call w)
  unfolding after
  after-IsValid (do_start e) w v = start-IsValid e w v
  after-IsValid (do_execute e r) w v = execute-IsValid e r w v
  after-IsValid (do_recover alive e) w v = recover-IsValid alive e w v
  after-IsValid (restart_thread e) w v = restart-IsValid e w v
  after-IsValid (do_shutdown e joined) w v = shutdown-IsValid e joined w

  pub after_all-IsValid :
      (calls : List (Call R)) (w : Worker R) → IsValid w → IsValid (after_all calls w)
  unfolding after_all
  after_all-IsValid [] w v = v
  after_all-IsValid (call ∷ calls) w v =
      after_all-IsValid calls (after call w) (after-IsValid call w v)
