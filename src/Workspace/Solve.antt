-- ===== src/Workspace/Solve.antt =====
-- `WorkspaceInput.solve` and `export`: all selected targets, with or without an output format.
pub mod Reported
pub mod Delivered
use conda_presto.Prelude.{
  String, Bool, true, false, Option, none, some, List, [], ◌∷◌, ◌++◌, map, if◌then◌else◌, string_eq,
  ◌==◌, length,
}
use conda_presto.Exceptions.Text.{Text}
use conda_presto.Exceptions.Redact.{Exception, safe_error_message}
use conda_presto.Resolve.Dispatch.{Outcome, returned, raised}
use conda_presto.Exporter.{
  Exporter, Rendered, rendered, unknown_format, fails, Validated, accepted, needs_solved_records,
  render, validate_declared_input,
}
use conda_presto.Workspace.Error.{Error}
use conda_presto.Workspace.Config.{WorkspaceTarget, WorkspaceInput, WorkspaceParseResult, Limits}
use conda_presto.Workspace.Select.{is_empty}
use conda_presto.Workspace.Input.{Libraries, select}
use conda_presto.Workspace.Output.{combined, validate_output}

-- `exc`, with `exc.__cause__`
pub record Raised : Type 0 where
  pub exc : Exception
  pub cause : Option Exception

abbrev pub cause_or : Option Exception → Exception → Exception
cause_or none exc = exc
cause_or (some cause) exc = cause

-- `safe_error_message(exc.__cause__ or exc)`
abbrev pub message_of : Raised → Text
message_of r = safe_error_message (cause_or r.cause r.exc)

pub record WorkspaceSolveResult (Package : Type 0) : Type 0 where
  pub environment : String
  pub platform : String
  pub subdir : String
  pub packages : List Package
  pub error : Option Text

-- How the loop over the targets ends: at its end, or with `WorkspaceSolveError`.
pub data Loop (Package Env : Type 0) : Type 0 where
  finished : List (WorkspaceSolveResult Package) → List Env → Loop Package Env
  solve_error : (environment platform : String) → Text → Loop Package Env

pub data Solved (Package Env E : Type 0) : Type 0 where
  results : List (WorkspaceSolveResult Package) → Solved Package Env E
  document : Rendered E → Solved Package Env E
  workspace_solve_error : (environment platform : String) → Text → Solved Package Env E
  value_error : Error → Solved Package Env E

abbrev with_environment :
    {Record Env : Type 0}
    → List Record
    → Outcome Raised Env
    → Outcome Raised (List Record × List Env)
with_environment records (raised r) = raised r
with_environment records (returned env) = returned (records, env ∷ [])

abbrev pub failed : {Package : Type 0} → WorkspaceTarget → Text → WorkspaceSolveResult Package
failed target error = record {
  environment = target.environment;
  platform = target.platform;
  subdir = target.subdir;
  packages = [];
  error = some error;
}

abbrev pub succeeded :
    {Record Package : Type 0}
    → (Record → Package)
    → WorkspaceTarget
    → List Record
    → WorkspaceSolveResult Package
succeeded from_record target records = record {
  environment = target.environment;
  platform = target.platform;
  subdir = target.subdir;
  packages = map from_record records;
  error = none;
}

abbrev add_first :
    {Package Env : Type 0}
    → WorkspaceSolveResult Package
    → List Env
    → Loop Package Env
    → Loop Package Env
add_first result envs (finished others more) = finished (result ∷ others) (envs ++ more)
add_first result envs (solve_error name platform error) = solve_error name platform error

-- `self if self.result.selected else self.select()`
abbrev pub selected_or_all : Libraries → Limits → WorkspaceInput → Outcome Error WorkspaceInput
selected_or_all lib limits self =
    if is_empty self.result.selected then select lib limits self none none else returned self

-- `solve_for_platform` solves a target, and `environment` puts its records into an environment: with
-- the channels of its lock, for the exporter that combines environments, or into that of its manifest.
module _ {Record Package Env E : Type 0}
    (solve_for_platform : WorkspaceTarget → Outcome Raised (List Record))
    (environment : (combined : Bool) → WorkspaceTarget → List Record → Outcome Raised Env)
    (from_record : Record → Package) where
  -- the body of the `try`
  unfoldable pub attempt :
      Option (Exporter Env E)
      → WorkspaceTarget
      → Outcome Raised (List Record)
      → Outcome Raised (List Record × List Env)
  attempt output target (raised r) = raised r
  attempt none target (returned records) = returned (records, [])
  attempt (some output) target (returned records) =
      with_environment records (environment (combined output) target records)

  -- the end of one round: the `except` and the `else`
  unfoldable pub conclude :
      Option (Exporter Env E)
      → WorkspaceTarget
      → Outcome Raised (List Record × List Env)
      → Loop Package Env
      → Loop Package Env
  conclude (some output) target (raised r) rest =
      solve_error target.environment target.platform (message_of r)
  conclude none target (raised r) rest = add_first (failed target (message_of r)) [] rest
  conclude output target (returned (records, envs)) rest =
      add_first (succeeded from_record target records) envs rest

  unfoldable pub solve_targets : Option (Exporter Env E) → List WorkspaceTarget → Loop Package Env
  unfolding conclude attempt
  solve_targets output [] = finished [] []
  solve_targets output (target ∷ targets) =
      conclude output target (attempt output target (solve_for_platform target))
        (solve_targets output targets)

  unfoldable pub deliver : Option (Exporter Env E) → Loop Package Env → Solved Package Env E
  deliver output (solve_error name platform error) = workspace_solve_error name platform error
  deliver none (finished all envs) = results all
  deliver (some output) (finished all envs) = document (render output envs)

  abbrev checked :
      Option (Exporter Env E)
      → List WorkspaceTarget
      → Outcome Error (Unit {0})
      → Solved Package Env E
  checked output targets (raised error) = value_error error
  checked output targets (returned u) = deliver output (solve_targets output targets)

  unfoldable pub solve_selected :
      Option (Exporter Env E) → Outcome Error WorkspaceInput → Solved Package Env E
  unfolding deliver solve_targets validate_output
  solve_selected output (raised error) = value_error error
  solve_selected output (returned workspace) =
      checked output workspace.result.selected (validate_output output workspace.result.selected)

  -- `OutputFormat.named`, which `validate_output` calls first, may raise
  abbrev solve_named :
      Option (Outcome Error (Exporter Env E)) → Outcome Error WorkspaceInput → Solved Package Env E
  solve_named none workspace = solve_selected none workspace
  solve_named (some (returned output)) workspace = solve_selected (some output) workspace
  solve_named (some (raised unnamed)) (raised error) = value_error error
  solve_named (some (raised unnamed)) (returned workspace) = value_error unnamed

  -- `solve`, for what `OutputFormat.named` gives for the format, if there is one
  unfoldable pub solve :
      Libraries
      → Limits
      → Option (Outcome Error (Exporter Env E))
      → WorkspaceInput
      → Solved Package Env E
  unfolding solve_selected select
  solve lib limits named self = solve_named named (selected_or_all lib limits self)
