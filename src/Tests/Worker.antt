-- ===== src/Tests/Worker.antt =====
-- Runs of a worker.
use conda_presto.Prelude.{ℕ, zero, suc, ◌≡◌, refl, true, false, some, ◌+◌, List, [], ◌∷◌, map}
use conda_presto.Worker.Child.{
  Outcome, result, exception, Incoming, Message, ready, startup_failed, entrypoint, entrypoint-read,
  read, request, stop, surfaced,
}
use conda_presto.Worker.Stop.{Stopping, Worker}
use conda_presto.Worker.Stop.{stop as stop_worker, shutdown}
use conda_presto.Worker.Start.{Starting, start, launch_with, wait, launched, nothing, ready_message}
use conda_presto.Worker.Execute.{Exchange}
use conda_presto.Worker.Life.{after, do_start, do_execute, new_worker, after_all}
use conda_presto.Worker.Answers.{Answers, down, after_all-shutdown}

abbrev doubled : ℕ → Outcome ℕ
doubled zero = exception
doubled (suc n) = result (suc n + suc n)

abbrev obedient : Stopping
obedient = record { alive = true; survives_terminate = false; survives_kill = false }

abbrev smooth : Starting
smooth = record {
  alive = true;
  before = obedient;
  launch = launched;
  polls = nothing ∷ ready_message ∷ [];
  after = obedient;
}

abbrev prompt : Exchange
prompt = record {
  late = false;
  alive = true;
  still_alive = true;
  send_refused = false;
  send_raises = false;
  in_time = true;
  ends = false;
  unreadable = false;
  stopping = obedient;
}

abbrev serving : Worker ℕ
serving = record {
  connection = some [];
  process = true;
  is_ready = true;
  restarting = false;
  shutdown_requested = false;
}

serving_started : after_all doubled (do_start smooth ∷ []) new_worker ≡ serving
unfolding after_all after start launch_with wait stop_worker
serving_started = refl

abbrev received : List (Incoming ℕ)
received = request 2 true ∷ request 0 true ∷ stop ∷ request 3 true ∷ []

entrypoint-read_example :
    ((messages : List (Message ℕ)) × (entrypoint true true doubled received ≡ ready ∷ messages)
      × (map read messages ≡ map (λ r. surfaced (doubled r)) (2 ∷ 0 ∷ [])))
    × (entrypoint false true doubled received ≡ startup_failed ∷ [])
entrypoint-read_example = entrypoint-read doubled received

after_all-shutdown_example :
    after_all doubled
      (do_start smooth ∷ do_execute prompt 2 ∷ [])
      (shutdown obedient true serving).1
    ≡ down
after_all-shutdown_example =
    after_all-shutdown doubled obedient true serving (do_start smooth ∷ do_execute prompt 2 ∷ [])
      (unfold shutdown in refl)
