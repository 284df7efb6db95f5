-- ===== src/Workspace/Output.antt =====
-- `WorkspaceInput.validate_output` and `export`: what an exporter can represent.
pub mod Representable
use conda_presto.Prelude.{
  ℕ, String, Bool, true, false, not, ◌&&◌, ◌||◌, Option, none, some, List, [], ◌∷◌, ◌++◌, map,
  length, if◌then◌else◌, string_eq, nat_eq, list_eq, ◌==◌, dedupe,
}
use conda_presto.OrderedDict.{OrderedDict, get, insert}
use conda_presto.Resolve.Dispatch.{Outcome, returned, raised}
use conda_presto.Exporter.{Exporter, Callback}
use conda_presto.Workspace.Error.{
  Error, select_one_environment, shared_subdir, select_one_target, different_channels, ◌>>=◌,
}
use conda_presto.Workspace.Config.{WorkspaceTarget, WorkspaceInput}
use conda_presto.Workspace.Input.{Check, refuse_if}

abbrev pub workspaces_lock : String
workspaces_lock = "conda-workspaces-lock-v1"

abbrev has_callback : {A E : Type 0} → Option (Callback A E) → Bool
has_callback none = false
has_callback (some callback) = true

module _ {Env E : Type 0} (output : Exporter Env E) where
  abbrev pub combined : Bool
  combined = output.name == workspaces_lock

  abbrev pub multiplatform : Bool
  multiplatform = has_callback output.multiplatform_export

  unfoldable pub validate_single : List WorkspaceTarget → Check
  validate_single targets =
      refuse_if (not (length (dedupe (map (λ t. t.environment) targets)) == 1))
        select_one_environment
      >>= (λ _.
          refuse_if (not (length (dedupe (map (λ t. t.subdir) targets)) == length targets))
            shared_subdir)
      >>= λ _. refuse_if (not multiplatform && not (length targets == 1)) select_one_target

-- `channels_by_environment.setdefault(target.environment, target.channels)` and the comparison
unfoldable pub matches_first : Option (List String) → List String → Bool
matches_first none channels = true
matches_first (some first) channels = first == channels

abbrev pub setdefault {ℓ} :
    {V : Type ℓ} → String → V → Option V → OrderedDict String V → OrderedDict String V
setdefault key value none d = insert key value d
setdefault key value (some present) d = d

unfoldable pub check_channels : OrderedDict String (List String) → List WorkspaceTarget → Check
unfolding matches_first get insert
check_channels d [] = returned tt
check_channels d (t ∷ ts) =
    let rest = check_channels (setdefault t.environment t.channels (get t.environment d) d) ts in
    if matches_first (get t.environment d) t.channels then rest else raised different_channels

module _ {Env E : Type 0} where
  -- `validate_output`, for the exporter of the format that is named, if one is; `solve` and `export`
  -- have the case in which `OutputFormat.named` raises
  unfoldable pub validate_output : Option (Exporter Env E) → List WorkspaceTarget → Check
  unfolding validate_single check_channels
  validate_output none targets = returned tt
  validate_output (some output) targets =
      (if combined output then returned tt else validate_single output targets) >>= λ _.
      check_channels [] targets
