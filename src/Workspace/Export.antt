-- ===== src/Workspace/Export.antt =====
-- `WorkspaceInput.export`: the declarations of the selected targets, unsolved.
use conda_presto.Prelude.{some, List, length}
use conda_presto.Resolve.Dispatch.{Outcome, returned, raised}
use conda_presto.Exporter.{
  Exporter, Rendered, Validated, accepted, needs_solved_records, select_one_target, render,
  validate_declared_input,
}
use conda_presto.Workspace.Error.{Error, ◌>>=◌, traverse}
use conda_presto.Workspace.Error as Errors
use conda_presto.Workspace.Config.{WorkspaceTarget, WorkspaceInput, Limits}
use conda_presto.Workspace.Input.{Libraries, Check}
use conda_presto.Workspace.Output.{validate_output}
use conda_presto.Workspace.Solve.{selected_or_all}
use conda_presto.WorkspaceLock.Select.{concat}

abbrev pub raise_invalid : Validated → Check
raise_invalid accepted = returned tt
raise_invalid (needs_solved_records name) = raised Errors.needs_solved_records
raise_invalid select_one_target = raised Errors.select_one_target

-- `envs_from_manifest` reads the environments of a target; a rendered document may raise when it is
-- asked for.
module _ {Env E : Type 0} (lib : Libraries) (limits : Limits)
    (envs_from_manifest : WorkspaceTarget → Outcome Error (List Env)) where
  -- `named` is what `OutputFormat.named` gives for the format.
  unfoldable pub export :
      Outcome Error (Exporter Env E) → WorkspaceInput → Outcome Error (Rendered E)
  unfolding validate_declared_input validate_output traverse concat render
  export named self = selected_or_all lib limits self >>= λ workspace. named >>= λ output.
      raise_invalid (validate_declared_input output (length workspace.result.selected)) >>= λ _.
      validate_output (some output) workspace.result.selected >>= λ _.
      traverse envs_from_manifest workspace.result.selected >>= λ envs.
      returned (render output (concat envs))
