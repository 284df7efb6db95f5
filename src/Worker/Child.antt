-- ===== src/Worker/Child.antt =====
-- `persistent_solve_worker_entrypoint`: the loop of the child process, and how `execute` reads the
-- replies.
use conda_presto.Prelude.{String, ◌≡◌, refl, Bool, true, false, List, [], ◌∷◌, map}

-- What a solve in the child comes to.
pub data Outcome (P : Type 0) : Type 0 where
  result : P → Outcome P
  unknown_format : String → List String → Outcome P
  workspace_error : String → String → String → Outcome P
  exception : Outcome P

-- The messages that the child sends, by their status.
pub data Message (P : Type 0) : Type 0 where
  ready startup_failed error : Message P
  ok : P → Message P
  format_unknown : (format_name : String) (available : List String) → Message P
  workspace_failed : (environment platform detail : String) → Message P

-- What the child receives: a request, whose reply may fail to be sent (the pipe is broken, or a value
-- cannot be pickled), `None`, or the end of the pipe.
pub data Incoming (R : Type 0) : Type 0 where
  request : R → (sent : Bool) → Incoming R
  stop eof : Incoming R

-- What `execute` raises; `refused` is an exception of `send` or `recv` that it does not catch.
pub data WorkerError : Type 0 where
  timeout unavailable exited refused failed : WorkerError
  unknown_format_error : String → List String → WorkerError
  workspace_solve_error : String → String → String → WorkerError

-- The errors that are the worker's, and not what a solve comes to.
abbrev pub IsFault : WorkerError → Type 0
IsFault timeout = Unit
IsFault unavailable = Unit
IsFault exited = Unit
IsFault refused = Unit
IsFault failed = ⊥
IsFault (unknown_format_error name available) = ⊥
IsFault (workspace_solve_error environment platform detail) = ⊥

pub data Answer (P : Type 0) : Type 0 where
  payload : P → Answer P
  raises : WorkerError → Answer P

module _ {P : Type 0} where
  unfoldable pub reply : Outcome P → Message P
  reply (result p) = ok p
  reply (unknown_format name available) = format_unknown name available
  reply (workspace_error environment platform detail) = workspace_failed environment platform detail
  reply exception = error

  -- the end of `execute`: the status decides
  unfoldable pub read : Message P → Answer P
  read (ok p) = payload p
  read (format_unknown name available) = raises (unknown_format_error name available)
  read (workspace_failed environment platform detail) =
      raises (workspace_solve_error environment platform detail)
  read ready = raises failed
  read startup_failed = raises failed
  read error = raises failed

  -- What the caller of `execute` is to see of an outcome in the child.
  abbrev pub surfaced : Outcome P → Answer P
  surfaced (result p) = payload p
  surfaced (unknown_format name available) = raises (unknown_format_error name available)
  surfaced (workspace_error environment platform detail) =
      raises (workspace_solve_error environment platform detail)
  surfaced exception = raises failed

  pub read-reply : (o : Outcome P) → read (reply o) ≡ surfaced o
  unfolding read reply
  read-reply (result p) = refl
  read-reply (unknown_format name available) = refl
  read-reply (workspace_error environment platform detail) = refl
  read-reply exception = refl

module _ {R : Type 0} where
  -- The requests before the first `None`, the end of the pipe or a reply that cannot be sent.
  abbrev pub requests : List (Incoming R) → List R
  requests [] = []
  requests (request r true ∷ incoming) = r ∷ requests incoming
  requests (request r false ∷ incoming) = []
  requests (stop ∷ incoming) = []
  requests (eof ∷ incoming) = []

module _ {P R : Type 0} where
  serve : (R → Outcome P) → List (Incoming R) → List (Message P)
  unfolding reply
  serve solve [] = []
  serve solve (request r true ∷ incoming) = reply (solve r) ∷ serve solve incoming
  serve solve (request r false ∷ incoming) = []
  serve solve (stop ∷ incoming) = []
  serve solve (eof ∷ incoming) = []

  -- The messages of the child, in order. `warmed` says whether the warm-up succeeded, `sent` whether
  -- the first message can be sent; an exception of `send` ends the child.
  unfoldable pub entrypoint :
      (warmed sent : Bool) → (R → Outcome P) → List (Incoming R) → List (Message P)
  unfolding serve
  entrypoint warmed false solve incoming = []
  entrypoint false true solve incoming = startup_failed ∷ []
  entrypoint true true solve incoming = ready ∷ serve solve incoming

  serve-read :
      (solve : R → Outcome P) (incoming : List (Incoming R))
      → map read (serve solve incoming) ≡ map (λ r. surfaced (solve r)) (requests incoming)
  unfolding serve
  serve-read solve [] = refl
  serve-read solve (request r false ∷ incoming) = refl
  serve-read solve (request r true ∷ incoming) =
      cc (read-reply (solve r), serve-read solve incoming)
  serve-read solve (stop ∷ incoming) = refl
  serve-read solve (eof ∷ incoming) = refl

  -- A child that warmed up and can send sends `ready` and then one message for each request before
  -- the first `None`, the end or a reply that cannot be sent, in order; read by `execute`, each is
  -- the payload of that request's solve or raises its error, with the names in it. A child whose
  -- warm-up failed sends `startup-failed` and nothing else.
  pub entrypoint-read :
      (solve : R → Outcome P) (incoming : List (Incoming R))
      → ((messages : List (Message P)) × (entrypoint true true solve incoming ≡ ready ∷ messages)
          × (map read messages ≡ map (λ r. surfaced (solve r)) (requests incoming)))
        × (entrypoint false true solve incoming ≡ startup_failed ∷ [])
  unfolding entrypoint
  entrypoint-read solve incoming = ((serve solve incoming, refl, serve-read solve incoming), refl)
