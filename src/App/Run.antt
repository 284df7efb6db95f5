-- ===== src/App/Run.antt =====
-- `run_solve`: one solve, and the response to each way in which it can fail.
use conda_presto.Prelude.{ℕ, String, ◌≡◌, refl, ap, ◌⊎◌, inl, inr, List, ◌∙◌, Option, none, some}
use conda_presto.Worker.Child.{
  Outcome, result, unknown_format, workspace_error, exception, Answer, raises, WorkerError, timeout,
  unavailable, exited, refused, failed, unknown_format_error, workspace_solve_error, surfaced,
  IsFault,
}
use conda_presto.Worker.Child as Child
use conda_presto.Worker.Stop.{Worker}
use conda_presto.Worker.Execute.{Exchange, execute}
use conda_presto.Worker.Life.{IsValid}
use conda_presto.Worker.Answers.{execute-Answers}
use conda_presto.App.Response.{Response, solve_timeout, workspace_failed, internal_solver_error}
use conda_presto.App.Solve.{Payload, payload, error_response}

-- What a solve gives: results without a format, or an exporter's text or bytes with a media type.
pub data Solved (Result : Type 0) : Type 0 where
  results : Result → Solved Result
  rendered_text : (body media_type : String) → Solved Result
  rendered_bytes : (body : List ℕ) (media_type : String) → Solved Result

-- How the call in a thread ends, be it of the worker, of the solver or of the process pool.
pub data Attempt (A : Type 0) : Type 0 where
  finished : A → Attempt A
  timed_out : Attempt A
  raises_unknown_format : (name : String) (available : List String) → Attempt A
  raises_workspace_error : (environment platform error : String) → Attempt A
  raises_other : Attempt A

module _ {A : Type 0} where
  -- what the worker's `execute` returns or raises
  unfoldable pub of_answer : Answer A → Attempt A
  of_answer (Child.payload a) = finished a
  of_answer (raises timeout) = timed_out
  of_answer (raises unavailable) = raises_other
  of_answer (raises exited) = raises_other
  of_answer (raises refused) = raises_other
  of_answer (raises failed) = raises_other
  of_answer (raises (unknown_format_error name available)) = raises_unknown_format name available
  of_answer (raises (workspace_solve_error environment platform error)) =
      raises_workspace_error environment platform error

-- `encode_json` is msgspec's, `encode` is `str.encode`. What has no response is an exception that
-- `run_solve` does not catch: results for a format, which is not what the solve of a format gives,
-- cannot be taken apart into a body and its media type.
module _ {Result : Type 0} (encode_json : Solved Result → List ℕ) (encode : String → List ℕ) where
  unfoldable pub body_of : (format_name : Option String) → Solved Result → Option Payload
  body_of none solved = some (payload (encode_json solved) "application/json")
  body_of (some name) (results r) = none
  body_of (some name) (rendered_text body media_type) = some (payload (encode body) media_type)
  body_of (some name) (rendered_bytes body media_type) = some (payload body media_type)

  -- `run_solve`
  unfoldable pub run_solve :
      (format_name : Option String) → Attempt (Solved Result) → Option Payload
  unfolding body_of
  run_solve format_name (finished solved) = body_of format_name solved
  run_solve format_name timed_out = some (error_response solve_timeout)
  run_solve format_name (raises_unknown_format name available) =
      some (error_response (Response.unknown_format available))
  run_solve format_name (raises_workspace_error environment platform error) =
      some (error_response (workspace_failed environment platform error))
  run_solve format_name raises_other = some (error_response internal_solver_error)

  -- The response to what the solve of a request comes to.
  abbrev pub response_to : (format_name : Option String) → Outcome (Solved Result) → Option Payload
  response_to format_name (result solved) = body_of format_name solved
  response_to format_name (unknown_format name available) =
      some (error_response (Response.unknown_format available))
  response_to format_name (workspace_error environment platform error) =
      some (error_response (workspace_failed environment platform error))
  response_to format_name exception = some (error_response internal_solver_error)

  surfaced-response :
      (format_name : Option String) (o : Outcome (Solved Result))
      → run_solve format_name (of_answer (surfaced o)) ≡ response_to format_name o
  unfolding run_solve of_answer
  surfaced-response format_name (result solved) = refl
  surfaced-response format_name (unknown_format name available) = refl
  surfaced-response format_name (workspace_error environment platform error) = refl
  surfaced-response format_name exception = refl

  -- a fault of the worker ends in 504 or 500
  fault-response :
      (format_name : Option String) (error : WorkerError)
      → IsFault error
      → (run_solve format_name (of_answer (raises error)) ≡ some (error_response solve_timeout))
        ⊎ (run_solve format_name (of_answer (raises error))
            ≡ some (error_response internal_solver_error))
  unfolding run_solve of_answer
  fault-response format_name timeout f = inl refl
  fault-response format_name unavailable f = inr refl
  fault-response format_name exited f = inr refl
  fault-response format_name refused f = inr refl
  fault-response format_name failed f = elim f [ ]
  fault-response format_name (unknown_format_error name available) f = elim f [ ]
  fault-response format_name (workspace_solve_error environment platform error) f = elim f [ ]

  -- Through a worker that is valid, `run_solve` gives what this request's own solve comes to (its
  -- body, or the error response that names the unknown format or the failed workspace target), or
  -- the response for a timeout or an internal error.
  pub run_solve-execute :
      {R : Type 0} (format_name : Option String) (solve : R → Outcome (Solved Result))
      (e : Exchange) (r : R) (w : Worker R)
      → IsValid w
      → let response = run_solve format_name (of_answer (execute solve e r w).0) in
        (response ≡ response_to format_name (solve r))
        ⊎ (response ≡ some (error_response solve_timeout))
        ⊎ (response ≡ some (error_response internal_solver_error))
  run_solve-execute format_name solve e r w v = elim (execute-Answers solve e r w v) [
    | inl x ↦ inl (
        ap (λ a. run_solve format_name (of_answer a.0)) x ∙ surfaced-response format_name (solve r))
    | inr (error, fault, x, left) ↦ inr (rw x (fault-response format_name error fault))
  ]
