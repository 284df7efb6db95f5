-- ===== src/Workspace/Solve/Delivered.antt =====
-- A solve with an output format: one document of all targets, or none.
use conda_presto.Prelude.{◌≡◌, refl, ap, Bool, false, Option, some, List, [], ◌∷◌, ◌++◌}
use conda_presto.Exceptions.Redact.Urls.{has_url}
use conda_presto.Exceptions.Redact.Urls.Absent.{has_url-safe_error_message}
use conda_presto.Resolve.Dispatch.{Outcome, returned, raised}
use conda_presto.Exporter.{Exporter, render}
use conda_presto.Workspace.Error.{Error}
use conda_presto.Workspace.Config.{WorkspaceTarget, WorkspaceInput}
use conda_presto.Workspace.Output.{combined, validate_output}
use conda_presto.Workspace.Output.Representable.{IsRepresentable, validate_output-IsRepresentable}
use conda_presto.Workspace.Solve.{
  Raised, cause_or, message_of, WorkspaceSolveResult, Loop, finished, solve_error, Solved, document,
  workspace_solve_error, value_error, with_environment, succeeded, add_first, attempt, conclude,
  solve_targets, deliver, checked, solve_selected,
}

module _ {Record Package Env : Type 0} (E : Type 0)
    (solve_for_platform : WorkspaceTarget → Outcome Raised (List Record))
    (environment : (combined : Bool) → WorkspaceTarget → List Record → Outcome Raised Env)
    (from_record : Record → Package) where
  -- The environments of solved targets, in their order.
  pub data Made (output : Exporter Env E) : List WorkspaceTarget → List Env → Type 0 where
    none_made : Made output [] []
    made :
        (t : WorkspaceTarget) (records : List Record) (env : Env) (ts : List WorkspaceTarget)
        (envs : List Env)
        → solve_for_platform t ≡ returned records
        → environment (combined output) t records ≡ returned env
        → Made output ts envs
        → Made output (t ∷ ts) (env ∷ envs)

  -- A target was not solved: its solve or the making of its environment raised `r`.
  pub data Unsolved (output : Exporter Env E) (t : WorkspaceTarget) (r : Raised) : Type 0 where
    no_solution : solve_for_platform t ≡ raised r → Unsolved output t r
    no_environment :
        (records : List Record)
        → solve_for_platform t ≡ returned records
        → environment (combined output) t records ≡ raised r
        → Unsolved output t r

  -- How the loop ends when there is an output format.
  data Ended (output : Exporter Env E) (targets : List WorkspaceTarget)
      : Loop Package Env → Type 0 where
    complete :
        (rs : List (WorkspaceSolveResult Package)) (envs : List Env)
        → Made output targets envs
        → Ended output targets (finished rs envs)
    stopped :
        (before : List WorkspaceTarget) (t : WorkspaceTarget) (after : List WorkspaceTarget)
        (envs : List Env) (r : Raised)
        → targets ≡ before ++ (t ∷ after)
        → Made output before envs
        → Unsolved output t r
        → Ended output targets (solve_error t.environment t.platform (message_of r))

  abbrev loop : Option (Exporter Env E) → List WorkspaceTarget → Loop Package Env
  loop output ts = solve_targets solve_for_platform environment from_record output ts

  abbrev round :
      Option (Exporter Env E)
      → WorkspaceTarget
      → Outcome Raised (List Record)
      → Loop Package Env
      → Loop Package Env
  round output t o rest =
      conclude solve_for_platform environment from_record output t
        (attempt solve_for_platform environment from_record output t o) rest

  add_first-Ended :
      (output : Exporter Env E) (t : WorkspaceTarget) (ts : List WorkspaceTarget)
      (records : List Record) (env : Env) (result : WorkspaceSolveResult Package)
      (rest : Loop Package Env)
      → solve_for_platform t ≡ returned records
      → environment (combined output) t records ≡ returned env
      → Ended output ts rest
      → Ended output (t ∷ ts) (add_first result (env ∷ []) rest)
  add_first-Ended output t ts records env result _ s e (complete rs envs m) =
      complete (result ∷ rs) (env ∷ envs) (made t records env ts envs s e m)
  add_first-Ended output t ts records env result _ s e (stopped before u after envs r p m failed) =
      stopped (t ∷ before) u after (env ∷ envs) r (ap (λ us. t ∷ us) p)
        (made t records env before envs s e m) failed

  stopped_first :
      (output : Exporter Env E) (t : WorkspaceTarget) (ts : List WorkspaceTarget) (r : Raised)
      → Unsolved output t r
      → Ended output (t ∷ ts) (solve_error t.environment t.platform (message_of r))
  stopped_first output t ts r unsolved = stopped [] t ts [] r refl none_made unsolved

  with_environment-Ended :
      (output : Exporter Env E) (t : WorkspaceTarget) (ts : List WorkspaceTarget)
      (records : List Record) (o : Outcome Raised Env) (rest : Loop Package Env)
      → solve_for_platform t ≡ returned records
      → environment (combined output) t records ≡ o
      → Ended output ts rest
      → Ended output (t ∷ ts) (
          conclude solve_for_platform environment from_record
            (some output)
            t
            (with_environment records o)
            rest)
  unfolding conclude
  with_environment-Ended output t ts records (raised r) rest s e h =
      stopped_first output t ts r (no_environment records s e)
  with_environment-Ended output t ts records (returned env) rest s e h =
      add_first-Ended output t ts records env (succeeded from_record t records) rest s e h

  round-Ended :
      (output : Exporter Env E) (t : WorkspaceTarget) (ts : List WorkspaceTarget)
      (o : Outcome Raised (List Record)) (rest : Loop Package Env)
      → solve_for_platform t ≡ o
      → Ended output ts rest
      → Ended output (t ∷ ts) (round (some output) t o rest)
  unfolding attempt
  round-Ended output t ts (raised r) rest s h =
      unfold conclude in stopped_first output t ts r (no_solution s)
  round-Ended output t ts (returned records) rest s h =
      with_environment-Ended output t ts records (environment (combined output) t records) rest s
        refl h

  solve_targets-Ended :
      (output : Exporter Env E) (ts : List WorkspaceTarget)
      → Ended output ts (loop (some output) ts)
  unfolding solve_targets
  solve_targets-Ended output [] = complete [] [] none_made
  solve_targets-Ended output (t ∷ ts) =
      round-Ended output t ts (solve_for_platform t) (loop (some output) ts) refl
        (solve_targets-Ended output ts)

  -- What a solve with an output format may end in.
  pub data Delivered (output : Exporter Env E) (targets : List WorkspaceTarget)
      : Solved Package Env E → Type 0 where
    refuses :
        (error : Error)
        → validate_output (some output) targets ≡ raised error
        → Delivered output targets (value_error error)
    delivers :
        (envs : List Env)
        → IsRepresentable output targets
        → Made output targets envs
        → Delivered output targets (document (render output envs))
    fails :
        (before : List WorkspaceTarget) (t : WorkspaceTarget) (after : List WorkspaceTarget)
        (envs : List Env) (r : Raised)
        → targets ≡ before ++ (t ∷ after)
        → Made output before envs
        → Unsolved output t r
        → has_url false (message_of r) ≡ false
        → Delivered output targets (workspace_solve_error t.environment t.platform (message_of r))

  deliver-Delivered :
      (output : Exporter Env E) (targets : List WorkspaceTarget) (l : Loop Package Env)
      → IsRepresentable output targets
      → Ended output targets l
      → Delivered output targets
          (deliver solve_for_platform environment from_record (some output) l)
  unfolding deliver
  deliver-Delivered output targets _ fit (complete rs envs m) = delivers envs fit m
  deliver-Delivered output targets _ fit (stopped before t after envs r p m unsolved) =
      fails before t after envs r p m unsolved (has_url-safe_error_message (cause_or r.cause r.exc))

  checked-Delivered :
      (output : Exporter Env E) (targets : List WorkspaceTarget) (o : Outcome Error (Unit {0}))
      → validate_output (some output) targets ≡ o
      → Delivered output targets
          (checked solve_for_platform environment from_record (some output) targets o)
  checked-Delivered output targets (raised error) e = refuses error e
  checked-Delivered output targets (returned u) e =
      deliver-Delivered output targets (loop (some output) targets)
        (validate_output-IsRepresentable output targets u e) (solve_targets-Ended output targets)

  -- With an output format, a solve gives one document of the environments of all selected targets, in
  -- their order, which the exporter can represent; or no document at all: the selection is refused,
  -- or the error names the first target that was not solved (all before it were), with the safe message
  -- of what its own solve or the making of its environment raised, without a URL.
  pub solve_selected-Delivered :
      (output : Exporter Env E) (w : WorkspaceInput)
      → Delivered output w.result.selected
          (solve_selected solve_for_platform environment from_record (some output) (returned w))
  unfolding solve_selected
  solve_selected-Delivered output w =
      checked-Delivered output w.result.selected (validate_output (some output) w.result.selected)
        refl
