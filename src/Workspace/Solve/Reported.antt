-- ===== src/Workspace/Solve/Reported.antt =====
-- A solve without an output format: a result for each target.
use conda_presto.Prelude.{◌≡◌, refl, ap, Bool, false, Option, none, List, [], ◌∷◌}
use conda_presto.Exceptions.Text.{Text}
use conda_presto.Exceptions.Redact.Urls.{has_url}
use conda_presto.Exceptions.Redact.Urls.Absent.{has_url-safe_error_message}
use conda_presto.Resolve.Dispatch.{Outcome, returned, raised}
use conda_presto.Exporter.{Exporter}
use conda_presto.Workspace.Config.{WorkspaceTarget, WorkspaceInput}
use conda_presto.Workspace.Output.{validate_output}
use conda_presto.Workspace.Solve.{
  Raised, cause_or, message_of, WorkspaceSolveResult, Loop, finished, results, failed, succeeded,
  add_first, attempt, conclude, solve_targets, deliver, solve_selected,
}

module _ {Record Package : Type 0}
    (solve_for_platform : WorkspaceTarget → Outcome Raised (List Record))
    (from_record : Record → Package) where
  -- One result for each target, in their order: its packages, or its error without a URL.
  pub data Reported : List WorkspaceTarget → List (WorkspaceSolveResult Package) → Type 0 where
    no_targets : Reported [] []
    solved :
        (t : WorkspaceTarget) (records : List Record) (ts : List WorkspaceTarget)
        (rs : List (WorkspaceSolveResult Package))
        → solve_for_platform t ≡ returned records
        → Reported ts rs
        → Reported (t ∷ ts) (succeeded from_record t records ∷ rs)
    unsolved :
        (t : WorkspaceTarget) (r : Raised) (message : Text) (ts : List WorkspaceTarget)
        (rs : List (WorkspaceSolveResult Package))
        → solve_for_platform t ≡ raised r
        → has_url false message ≡ false
        → Reported ts rs
        → Reported (t ∷ ts) (failed t message ∷ rs)

module _ {Record Package Env : Type 0} (E : Type 0)
    (solve_for_platform : WorkspaceTarget → Outcome Raised (List Record))
    (environment : (combined : Bool) → WorkspaceTarget → List Record → Outcome Raised Env)
    (from_record : Record → Package) where
  abbrev loop : Option (Exporter Env E) → List WorkspaceTarget → Loop Package Env
  loop output ts = solve_targets solve_for_platform environment from_record output ts

  abbrev round :
      Option (Exporter Env E)
      → WorkspaceTarget
      → Outcome Raised (List Record)
      → Loop Package Env
      → Loop Package Env
  round output t o rest =
      conclude solve_for_platform environment from_record output t
        (attempt solve_for_platform environment from_record output t o) rest

  round-Reported :
      (t : WorkspaceTarget) (ts : List WorkspaceTarget) (o : Outcome Raised (List Record))
      (rest : Loop Package Env) (rs : List (WorkspaceSolveResult Package))
      → solve_for_platform t ≡ o
      → rest ≡ finished rs []
      → Reported solve_for_platform from_record ts rs
      → (all : List (WorkspaceSolveResult Package)) × (round none t o rest ≡ finished all [])
        × Reported solve_for_platform from_record (t ∷ ts) all
  unfolding conclude attempt
  round-Reported t ts (returned records) rest rs solves e h = (
    succeeded from_record t records ∷ rs,
    ap (add_first (succeeded from_record t records) []) e,
    solved t records ts rs solves h,
  )
  round-Reported t ts (raised r) rest rs fails e h = (
    failed t (message_of r) ∷ rs,
    ap (add_first (failed t (message_of r)) []) e,
    unsolved t r (message_of r) ts rs fails (has_url-safe_error_message (cause_or r.cause r.exc)) h,
  )

  solve_targets-Reported :
      (ts : List WorkspaceTarget)
      → (rs : List (WorkspaceSolveResult Package)) × (loop none ts ≡ finished rs [])
        × Reported solve_for_platform from_record ts rs
  unfolding solve_targets
  solve_targets-Reported [] = ([], refl, no_targets)
  solve_targets-Reported (t ∷ ts) =
      let (rs, e, reported) = solve_targets-Reported ts in
      round-Reported t ts (solve_for_platform t) (loop none ts) rs refl e reported

  -- Without an output format, a solve gives one result for each selected target, in their order: the
  -- packages of the target's own solve, or no package and a message without a URL.
  pub solve_selected-Reported :
      (w : WorkspaceInput)
      → (rs : List (WorkspaceSolveResult Package)) × (solve_selected {E = E} solve_for_platform
            environment from_record none
            (returned w)
          ≡ results rs)
        × Reported solve_for_platform from_record w.result.selected rs
  unfolding solve_selected
  solve_selected-Reported w =
      let (rs, e, reported) = solve_targets-Reported w.result.selected in
      (
        rs,
        unfold deliver validate_output in
            ap (deliver {E = E} solve_for_platform environment from_record none) e,
        reported,
      )
