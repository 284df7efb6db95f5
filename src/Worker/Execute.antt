-- ===== src/Worker/Execute.antt =====
-- `execute`, which `solve` calls: one request and its reply.
use conda_presto.Prelude.{Bool, true, not, Option, none, some, List, [], ◌∷◌, ◌++◌, if◌then◌else◌}
use conda_presto.Worker.Child.{
  Outcome, reply, read, Answer, raises, timeout, unavailable, exited, refused,
}
use conda_presto.Worker.Stop.{Worker, Stopping, ready, stop, recover_if_stopped}

pub record Exchange : Type 0 where
  -- the deadline has passed already
  pub late : Bool
  -- the process is alive when it is looked at
  pub alive : Bool
  -- and when it is looked at again, to see whether it must be replaced
  pub still_alive : Bool
  -- the request cannot be pickled: nothing is sent, and the exception is not caught
  pub send_refused : Bool
  pub send_raises : Bool
  -- a message comes before the deadline; or the pipe ends, which `recv` raises
  pub in_time : Bool
  pub ends : Bool
  -- the message is read and cannot be unpickled: the exception is not caught
  pub unreadable : Bool
  pub stopping : Stopping

-- the request is on the pipe, behind those that wait for their replies
abbrev pub with_request : {R : Type 0} → List R → R → Worker R → Worker R
with_request outstanding r w = record w { connection = some (outstanding ++ (r ∷ [])) }

module _ {P R : Type 0} (solve : R → Outcome P) where
  unfoldable pub give_up : (e : Exchange) → (reason : Answer P) → Worker R → Answer P × Worker R
  unfolding stop
  give_up e reason w = (reason, (stop true e.stopping w).1)

  -- `recv`: the child answers the requests in the order in which they were sent.
  unfoldable pub receive : List R → Worker R → Answer P × Worker R
  unfolding reply read
  receive [] w = (raises timeout, w)
  receive (r ∷ rest) w = (read (reply (solve r)), record w { connection = some rest })

  -- a message that `recv` reads and cannot decode
  unfoldable pub lose : List R → Worker R → Answer P × Worker R
  lose [] w = (raises refused, w)
  lose (r ∷ rest) w = (raises refused, record w { connection = some rest })

  unfoldable pub exchange : Exchange → R → Option (List R) → Worker R → Answer P × Worker R
  unfolding give_up receive lose recover_if_stopped
  exchange e r none w = (raises unavailable, recover_if_stopped e.still_alive e.stopping w)
  exchange e r (some outstanding) w =
      if not (ready w e.alive)
      then (raises unavailable, recover_if_stopped e.still_alive e.stopping w)
      else if e.send_refused
      then (raises refused, w)
      else if e.send_raises
      then give_up e (raises exited) w
      else if not e.in_time
      then give_up e (raises timeout) (with_request outstanding r w)
      else if e.ends
      then give_up e (raises exited) (with_request outstanding r w)
      else if e.unreadable
      then lose (outstanding ++ (r ∷ [])) (with_request outstanding r w)
      else receive (outstanding ++ (r ∷ [])) (with_request outstanding r w)

  unfoldable pub execute : Exchange → R → Worker R → Answer P × Worker R
  unfolding exchange
  execute e r w = if e.late then (raises timeout, w) else exchange e r w.connection w
