-- ===== src/Tests/Storage.antt =====
-- The coordinator over a dictionary of files.
use conda_presto.Prelude.{
  ℕ, ◌≡◌, refl, String, true, false, Option, none, some, List, [], ◌∷◌, string_eq, ◌==◌,
  if◌then◌else◌,
}
use conda_presto.Storage.Operation.{
  set_operation, get_operation, delete_operation, cleanup_operation, delete, cleanup, Store,
  StoreOperation, Value, raw, text, set, get, ok, perform,
}
use conda_presto.Storage.Written.{IsVerified, perform-IsVerified}
use conda_presto.Storage.Coordinator.{
  Event, submit, expire, receive, complete, begin, Coordinator, new_coordinator, steps,
}
use conda_presto.Storage.Increasing.{tickets}
use conda_presto.Storage.Order.{IsOrdered, pending, steps-new_coordinator}
use conda_presto.Storage.Served.{Continues, steps-Continues}
use conda_presto.Storage.Progress.{rounds, steps-rounds}

abbrev Files : Type 0
Files = List (String × List ℕ)

abbrev find : String → Files → Option (List ℕ)
find key [] = none
find key (f ∷ fs) = let rest = find key fs in if f.0 == key then some f.1 else rest

abbrev bytes_of : Value → List ℕ
bytes_of (text s) = []
bytes_of (raw bytes) = bytes

abbrev directory : Store Files
directory = record {
  is_file = true;
  get = λ key files. (ok (find key files), files);
  set = λ key value expires_in files. (ok tt, (key, bytes_of value) ∷ files);
  delete = λ key files. (ok tt, files);
  delete_expired = λ files. (ok tt, files);
  delete_all = λ files. (ok tt, []);
  encode = λ s. [];
}

abbrev write : StoreOperation
write = record { kind = set; key = "a"; value = some (raw (1 ∷ 2 ∷ [])); expires_in = none }

abbrev look : StoreOperation
look = record { kind = get; key = "a"; value = none; expires_in = none }

abbrev events : List Event
events =
    begin true
    ∷ submit false write
    ∷ submit false look
    ∷ receive
    ∷ submit false look
    ∷ expire 2
    ∷ complete
    ∷ receive
    ∷ complete
    ∷ []

perform-IsVerified_example :
    IsVerified directory "a"
      (1 ∷ 2 ∷ [])
      (directory.get "a" (("a", 1 ∷ 2 ∷ []) ∷ []))
      (perform directory write [])
perform-IsVerified_example =
    perform-IsVerified directory "a" (some (raw (1 ∷ 2 ∷ []))) none [] (("a", 1 ∷ 2 ∷ []) ∷ []) refl
      refl

steps-new_coordinator_example : IsOrdered (steps directory events (new_coordinator []))
steps-new_coordinator_example = steps-new_coordinator directory events []

abbrev two_waiting : Coordinator Files
two_waiting = record {
  is_running = true;
  closed = false;
  next = 3;
  waiting = (2, look) ∷ [];
  buffer = (1, look) ∷ [];
  current = (0, write) ∷ [];
  completed = [];
  stored = [];
}

steps-Continues_example :
    Continues directory two_waiting
      (steps directory (expire 2 ∷ complete ∷ receive ∷ complete ∷ []) two_waiting)
steps-Continues_example =
    steps-Continues directory (expire 2 ∷ complete ∷ receive ∷ complete ∷ []) two_waiting tt

steps-rounds_example :
    (pending (steps directory (rounds 3) two_waiting) ≡ [])
    × (tickets (steps directory (rounds 3) two_waiting).completed
        ≡ (0, write) ∷ (1, look) ∷ (2, look) ∷ [])
steps-rounds_example =
    steps-rounds directory ((0, write) ∷ (1, look) ∷ (2, look) ∷ []) two_waiting refl

write_submitted : set_operation "a" (raw (1 ∷ 2 ∷ [])) none ≡ write
unfolding set_operation
write_submitted = refl

look_submitted : get_operation "a" ≡ look
unfolding get_operation
look_submitted = refl

kinds_submitted : (delete_operation "a").kind ≡ delete
unfolding delete_operation
kinds_submitted = refl

cleanup_submitted : cleanup_operation.kind ≡ cleanup
unfolding cleanup_operation
cleanup_submitted = refl
