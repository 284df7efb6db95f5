-- ===== src/Worker/Stop.antt =====
-- The state of `PersistentSolveWorker`, and `stop`, `recover_if_stopped` and `shutdown`.
use conda_presto.Prelude.{Bool, true, false, not, ◌&&◌, ◌||◌, Option, none, List, if◌then◌else◌}

-- The pipe holds the requests that were sent on it and not answered, the oldest first. The process
-- is a handle that is there or not: whether it is alive is for the operating system to say.
pub record Worker (R : Type 0) : Type 0 where
  pub connection : Option (List R)
  pub process : Bool
  pub is_ready : Bool
  -- whether `restart_thread` is alive
  pub restarting : Bool
  pub shutdown_requested : Bool

-- During a stop: whether the process is alive, and whether it outlives `terminate` and `kill`.
pub record Stopping : Type 0 where
  pub alive : Bool
  pub survives_terminate : Bool
  pub survives_kill : Bool

abbrev pub survives : Stopping → Bool
survives e = e.alive && (e.survives_terminate && e.survives_kill)

module _ {R : Type 0} where
  -- the process is there and alive
  abbrev pub running : Worker R → Bool → Bool
  running w alive = w.process && alive

  abbrev pub ready : Worker R → Bool → Bool
  ready w alive = w.is_ready && running w alive

  -- `stop(restart=...)`; errors of the farewell message are ignored
  unfoldable pub stop : Bool → Stopping → Worker R → Bool × Worker R
  stop restart e w =
      let stopped = not w.process || not (survives e) in
      (
        stopped,
        record w {
          connection = none;
          is_ready = false;
          process = not stopped;
          restarting = w.restarting || (stopped && (restart && not w.shutdown_requested));
        },
      )

  -- `recover_if_stopped`
  unfoldable pub recover_if_stopped : Bool → Stopping → Worker R → Worker R
  unfolding stop
  recover_if_stopped alive e w = if running w alive then w else (stop true e w).1

  -- `shutdown`: `joined` says whether a restart thread has ended within the wait
  unfoldable pub shutdown : Stopping → Bool → Worker R → Bool × Worker R
  unfolding stop
  shutdown e joined w =
      let (stopped, w') = stop false e (record w { shutdown_requested = true }) in
      if w'.restarting && not joined
      then (false, w')
      else (stopped, record w' { restarting = false })
