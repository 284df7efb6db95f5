-- ===== src/Worker/Answers.antt =====
-- What `execute` answers, and that `shutdown` is for good.
use conda_presto.Prelude.{
  ◌≡◌, refl, sym, ap, ◌∙◌, ◌⊎◌, inl, inr, Bool-cases, Bool, true, false, Option, none, some, List,
  [], ◌∷◌, ◌++◌, arith,
}
use conda_presto.Worker.Child.{
  Outcome, Answer, raises, WorkerError, IsFault, unavailable, timeout, refused, surfaced,
  read-reply,
}
use conda_presto.Worker.Stop.{Worker, Stopping, running, stop, recover_if_stopped, shutdown}
use conda_presto.Worker.Start.{start, restart}
use conda_presto.Worker.Execute.{with_request, Exchange, execute, exchange, receive, lose}
use conda_presto.Worker.Life.{
  Call, nothing_waits, do_start, do_execute, do_recover, restart_thread, do_shutdown, IsValid,
  exchange-Ends, after, after_all,
}

-- The answer is that of this request's solve, or the exchange failed with an error: then the worker
-- is as before or its pipe is gone.
abbrev pub Answers : {P R : Type 0} → (R → Outcome P) → R → Worker R → Answer P × Worker R → Type 0
Answers solve r w x =
    (x ≡ (surfaced (solve r), record w { connection = some [] }))
    ⊎ ((error : WorkerError) × IsFault error
        × (x.0 ≡ raises error)
        × ((x.1 ≡ w) ⊎ ((x.1.connection ≡ none) × (x.1.is_ready ≡ false))))

-- A worker that was shut down.
abbrev pub down : {R : Type 0} → Worker R
down = record {
  connection = none;
  process = false;
  is_ready = false;
  restarting = false;
  shutdown_requested = true;
}

module _ {P R : Type 0} (solve : R → Outcome P) where
  recover-Answers :
      (b : Bool) (e : Stopping) (r : R) (w : Worker R)
      → Answers solve r w (raises unavailable, recover_if_stopped b e w)
  unfolding recover_if_stopped stop
  recover-Answers b e r w = elim (Bool-cases (running w b)) [
    | inl c ↦ rw c (inr (unavailable, tt, refl, inl refl))
    | inr c ↦ rw c (inr (unavailable, tt, refl, inr (refl, refl)))
  ]

  receive-Answers :
      (r : R) (q : List R) (w : Worker R)
      → q ≡ []
      → Answers solve r w (receive solve (q ++ (r ∷ [])) (with_request q r w))
  unfolding receive
  receive-Answers r q w n = rw (n, read-reply (solve r)) (inl refl)

  lose-Answers :
      (r : R) (q : List R) (w : Worker R)
      → w.connection ≡ some q
      → q ≡ []
      → Answers solve r w (lose solve (q ++ (r ∷ [])) (with_request q r w))
  unfolding lose
  lose-Answers r q w c n =
      let idle : some [] ≡ w.connection = sym (c ∙ ap some n) in
      rw n (inr (refused, tt, refl, inl (ap (λ o. record w { connection = o }) idle)))

  exchange-Answers :
      (e : Exchange) (r : R) (o : Option (List R)) (w : Worker R)
      → w.connection ≡ o
      → IsValid w
      → Answers solve r w (exchange solve e r o w)
  exchange-Answers e r none w c v = unfold exchange in recover-Answers e.still_alive e.stopping r w
  exchange-Answers e r (some q) w c v = elim (exchange-Ends solve e r q w) [
    | inl x ↦ rw x (recover-Answers e.still_alive e.stopping r w)
    | inr (inl (error, fault, x)) ↦
        rw x (inr (error, fault, refl, inr (unfold stop in (refl, refl))))
    | inr (inr (inl x)) ↦ rw x (inr (refused, tt, refl, inl refl))
    | inr (inr (inr (inl x))) ↦ rw x (lose-Answers r q w c (nothing_waits c v.idle))
    | inr (inr (inr (inr x))) ↦ rw x (receive-Answers r q w (nothing_waits c v.idle))
  ]

  pub execute-Answers :
      (e : Exchange) (r : R) (w : Worker R) → IsValid w → Answers solve r w (execute solve e r w)
  unfolding execute
  execute-Answers e r w v = elim (Bool-cases e.late) [
    | inl c ↦ rw c (inr (timeout, tt, refl, inl refl))
    | inr c ↦ simp c (exchange-Answers e r w.connection w refl v)
  ]

module _ {P R : Type 0} (solve : R → Outcome P) where
  execute-down :
      (late : Bool) (e : Exchange) (r : R) → e.late ≡ late → (execute solve e r down).1 ≡ down
  unfolding execute exchange recover_if_stopped stop
  execute-down true e r l = rw l refl
  execute-down false e r l = rw l refl

  shutdown-down : (e : Stopping) (joined : Bool) → (shutdown e joined (down {R = R})).1 ≡ down
  unfolding shutdown stop
  shutdown-down e joined = refl

  after-down : (call : Call R) → after solve call down ≡ down
  unfolding after start restart recover_if_stopped stop
  after-down (do_start e) = refl
  after-down (do_execute e r) = execute-down e.late e r refl
  after-down (do_recover alive e) = refl
  after-down (restart_thread e) = refl
  after-down (do_shutdown e joined) = shutdown-down e joined

  after_all-down : (calls : List (Call R)) → after_all solve calls down ≡ down
  unfolding after_all
  after_all-down [] = refl
  after_all-down (call ∷ calls) = rw (after-down call) (after_all-down calls)

  down_of-shutdown :
      (e : Stopping) (joined : Bool) (w : Worker R)
      → (shutdown e joined w).0 ≡ true
      → (shutdown e joined w).1 ≡ down
  unfolding shutdown stop
  down_of-shutdown e joined w s = ground arith

  -- Once `shutdown` has returned that it stopped the process, no sequence of calls starts a process
  -- or a restart thread, opens a pipe or makes the worker ready: it stays as it is, which is with
  -- none of these.
  pub after_all-shutdown :
      (e : Stopping) (joined : Bool) (w : Worker R) (calls : List (Call R))
      → (shutdown e joined w).0 ≡ true
      → after_all solve calls (shutdown e joined w).1 ≡ down
  after_all-shutdown e joined w calls s = rw (down_of-shutdown e joined w s) (after_all-down calls)
