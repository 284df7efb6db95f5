-- ===== src/Worker/Start.antt =====
-- `start` and `restart`.
use conda_presto.Prelude.{Bool, true, false, ◌||◌, some, List, [], ◌∷◌, if◌then◌else◌}
use conda_presto.Worker.Stop.{Worker, Stopping, ready, stop}

-- How the launch of the process goes: it raises before or after there is a process, closing the
-- child's end of the pipe raises, or it works.
pub data Launch : Type 0 where
  raises_unstarted raises_started close_raises launched : Launch

-- One round of the wait for the first message: nothing yet, a shutdown from another thread, the
-- startup deadline, or a message: ready, another status, or the end of the pipe.
pub data Poll : Type 0 where
  nothing shutdown_seen deadline_passed : Poll
  ready_message other_message end_of_pipe : Poll

pub record Starting : Type 0 where
  pub alive : Bool
  pub before : Stopping
  pub launch : Launch
  pub polls : List Poll
  pub after : Stopping

-- What `start` comes to.
pub data Started : Type 0 where
  returned raised : Started

module _ {R : Type 0} where
  unfoldable pub abandon : Stopping → Worker R → Started × Worker R
  unfolding stop
  abandon e w = (raised, (stop false e w).1)

  -- The wait. After the last round that is given the deadline passes.
  unfoldable pub wait : Stopping → List Poll → Worker R → Started × Worker R
  unfolding abandon
  wait e [] w = abandon e w
  wait e (nothing ∷ polls) w = wait e polls w
  wait e (shutdown_seen ∷ polls) w =
      (returned, (stop false e (record w { shutdown_requested = true })).1)
  wait e (deadline_passed ∷ polls) w = abandon e w
  wait e (ready_message ∷ polls) w = (returned, record w { is_ready = true })
  wait e (other_message ∷ polls) w = abandon e w
  wait e (end_of_pipe ∷ polls) w = abandon e w

  unfoldable pub launch_with : Starting → Launch → Worker R → Started × Worker R
  unfolding wait
  launch_with e raises_unstarted w = (raised, w)
  launch_with e raises_started w = abandon e.after (record w { process = true })
  launch_with e close_raises w = abandon e.after (record w { process = true })
  launch_with e launched w =
      wait e.after e.polls (record w { process = true; connection = some [] })

  unfoldable pub start : Starting → Worker R → Started × Worker R
  unfolding launch_with stop
  start e w =
      if ready w e.alive || w.shutdown_requested
      then (returned, w)
      else (let (stopped, w') = stop false e.before w in
          if stopped then launch_with e e.launch w' else (raised, w'))

  -- `restart`, the body of the thread: errors are logged, and the thread ends.
  unfoldable pub restart : Starting → Worker R → Worker R
  unfolding start
  restart e w = let (_, w') = start e w in record w' { restarting = false }
