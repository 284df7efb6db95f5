-- ===== src/WorkspaceLock/Update.antt =====
-- `WorkspaceLockUpdate.solve`: an update is solved, read again and checked.
pub mod Updated
use conda_presto.Prelude.{
  String, Bool, true, false, Option, none, some, List, [], ◌∷◌, string_eq, option_eq, ◌==◌,
  if◌then◌else◌,
}
use conda_presto.Exceptions.Text.{Text, codes}
use conda_presto.InputFile.Process.{replace}
use conda_presto.Resolve.Dispatch.{Outcome, returned, raised}
use conda_presto.Workspace.Error.{Error, ◌>>=◌}
use conda_presto.Workspace.Config.{WorkspaceConfig, WorkspaceTarget, Limits}
use conda_presto.Workspace.Output.{workspaces_lock}
use conda_presto.Workspace.Solve.{Raised, message_of}
use conda_presto.WorkspaceLock.Loader.{LockFile, WorkspaceLockInput}
use conda_presto.WorkspaceLock.Select.{from_path}
use conda_presto.WorkspaceLock.Input.{
  Conda, WorkspaceLockTargetCheck, WorkspaceLockCheckResult, WorkspaceLockUpdate, with_manifest,
  check_consistency,
}

-- What `solve` returns or raises. `WorkspaceSolveError` has a safe message, or names the first target
-- that is inconsistent in the updated lock, with the reason.
pub data UpdateResult : Type 0 where
  updated : (content : Text) → UpdateResult
  solve_failed : (environment platform : String) → (message : Text) → UpdateResult
  inconsistent :
      (environment platform : String) → (check : Option WorkspaceLockTargetCheck) → UpdateResult
  format_refused : UpdateResult

-- What the update needs of libraries: the lock's data written and read, the manifest's parser with its
-- content, `render_lockfile` under the settings of the update, the exception of an error,
-- and the temporary folder.
pub record Updating : Type 0 where
  pub conda : Conda
  pub limits : Limits
  pub dump : WorkspaceLockInput → Text
  pub read : Text → Outcome Raised LockFile
  pub parser : Option (Text → Outcome Error (WorkspaceConfig × String))
  pub manifest_content : Text
  pub render_lockfile : WorkspaceLockInput → WorkspaceLockUpdate → Outcome Raised Text
  pub exception : Error → Raised
  pub directory : Text

unfoldable pub first_mismatch : List WorkspaceLockTargetCheck → Option WorkspaceLockTargetCheck
first_mismatch [] = none
first_mismatch (check ∷ checks) =
    let rest = first_mismatch checks in if check.consistent then rest else some check

module _ (env : Updating) where
  abbrev pub lift {ℓ} : {A : Type ℓ} → Outcome Error A → Outcome Raised A
  lift (returned value) = returned value
  lift (raised error) = raised (env.exception error)

  -- `WorkspaceLockInput.from_path(path).with_manifest(...)`
  unfoldable pub reread : Text → Outcome Raised WorkspaceLockInput
  unfolding from_path with_manifest
  reread content = env.read content >>= λ file.
      lift (from_path env.limits file none none false false) >>= λ lock.
      lift (with_manifest env.conda env.limits env.parser lock env.manifest_content)

  -- the body of the `try`, up to the comparison
  unfoldable pub update_lock :
      WorkspaceLockUpdate → Outcome Raised (Text × WorkspaceLockCheckResult)
  unfolding reread check_consistency
  update_lock update = reread (env.dump update.lock) >>= λ lock.
      env.render_lockfile lock update >>= λ content. reread content >>= λ again.
      lift (check_consistency env.conda env.limits again) >>= λ check. returned (content, check)

  unfoldable pub conclude :
      WorkspaceTarget → Outcome Raised (Text × WorkspaceLockCheckResult) → UpdateResult
  unfolding first_mismatch
  conclude target (raised r) =
      solve_failed target.environment target.platform
        (replace env.directory (codes "[temporary-directory]") (message_of r))
  conclude target (returned (content, check)) =
      if check.consistent
      then updated content
      else inconsistent target.environment target.platform (first_mismatch check.targets)

  -- `solve`
  unfoldable pub solve : WorkspaceLockUpdate → Option String → UpdateResult
  unfolding conclude update_lock
  solve update format_name =
      if format_name == some workspaces_lock
      then conclude update.target (update_lock update)
      else format_refused
