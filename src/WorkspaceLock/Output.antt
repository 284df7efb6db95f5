-- ===== src/WorkspaceLock/Output.antt =====
-- `WorkspaceLockInput.render` and `render_each`: saved targets written by an exporter.
pub mod Whole
pub mod Each
use conda_presto.Prelude.{
  ℕ, String, Bool, true, false, not, ◌&&◌, ◌||◌, Option, none, some, List, [], ◌∷◌, ◌++◌, map,
  length, if◌then◌else◌, string_eq, nat_eq, contains, ◌==◌, dedupe,
}
use conda_presto.Exceptions.Text.{Text}
use conda_presto.OrderedDict.{OrderedDict, get, insert}
use conda_presto.Resolve.Dispatch.{Outcome, returned, raised}
use conda_presto.Exporter.{Exporter, Rendered, rendered, unknown_format, fails, render}
use conda_presto.Workspace.Error.{
  Error, library_error, select_lock_targets, manifest_in_extraction, metadata_not_preserved,
  needs_environment_exporter, select_one_environment, shared_subdir, select_one_target, ◌>>=◌,
  traverse,
}
use conda_presto.Workspace.Config.{Limits}
use conda_presto.Workspace.Select.{is_empty}
use conda_presto.Workspace.Input.{Check, refuse_if}
use conda_presto.Workspace.Output.{combined, multiplatform}
use conda_presto.WorkspaceLock.Loader.{
  SavedEnvironment, Loader, WorkspaceLockTarget, WorkspaceLockInput,
}
use conda_presto.WorkspaceLock.Input.{Conda, environment}

pub record WorkspaceLockExport : Type 0 where
  pub environment : String
  pub platform : String
  pub subdir : String
  pub content : Text

abbrev appended : Option (List String) → String → List String
appended none platform = platform ∷ []
appended (some platforms) platform = platforms ++ (platform ∷ [])

-- `selections.setdefault(target.environment, []).append(target.platform)`
unfoldable pub group :
    OrderedDict String (List String) → List WorkspaceLockTarget → OrderedDict String (List String)
unfolding get insert
group d [] = d
group d (t ∷ ts) = group (insert t.environment (appended (get t.environment d) t.platform) d) ts

abbrev pub has_manifest {ℓ} : {A : Type ℓ} → Option A → Bool
has_manifest none = false
has_manifest (some manifest) = true

-- `extract` selects entries of the lock's data and dumps them; `failure` is an exporter's exception.
module _ {E : Type 0} (conda : Conda) (limits : Limits) (output : Exporter SavedEnvironment E)
    (extract : Loader → OrderedDict String (List String) → Outcome Error Text)
    (failure : E → Error) where
  abbrev pub body_of : Rendered E → Outcome Error Text
  body_of (rendered body media_type) = returned body
  body_of (unknown_format name) = raised (library_error name)
  body_of (fails e) = raised (failure e)

  abbrev pub names_requested : Bool
  names_requested = output.name == "cyclonedx-json-v1.7"

  unfoldable pub extraction : WorkspaceLockInput → Outcome Error Text
  unfolding group
  extraction self = refuse_if (has_manifest self.manifest) manifest_in_extraction >>= λ _.
      extract self.loader (group [] self.selected)

  unfoldable pub converted : WorkspaceLockInput → Outcome Error Text
  unfolding traverse environment
  converted self =
      refuse_if (not (length (dedupe (map (λ t. t.environment) self.selected)) == 1))
        select_one_environment
      >>= λ _.
          traverse (λ t. environment conda limits self t names_requested) self.selected >>= λ envs.
          refuse_if (not (length (dedupe (map (λ e. e.platform) envs)) == length self.selected))
            shared_subdir
          >>= λ _.
              refuse_if (not (multiplatform output) && not (length self.selected == 1))
                select_one_target
              >>= λ _. body_of (render output envs)

  -- `render`
  unfoldable pub render_lock : WorkspaceLockInput → Outcome Error Text
  unfolding extraction converted
  render_lock self =
      if is_empty self.selected
      then raised select_lock_targets
      else if combined output
      then extraction self
      else if contains ("conda-lock-v1" ∷ "rattler-lock-v6" ∷ []) output.name
      then raised metadata_not_preserved
      else converted self

  unfoldable pub render_target :
      WorkspaceLockInput → WorkspaceLockTarget → Outcome Error WorkspaceLockExport
  unfolding environment
  render_target self target = environment conda limits self target names_requested >>= λ env.
      body_of (render output (env ∷ [])) >>= λ content. returned (record {
        environment = target.environment;
        platform = target.platform;
        subdir = env.platform;
        content = content;
      })

  unfoldable pub render_each : WorkspaceLockInput → Outcome Error (List WorkspaceLockExport)
  unfolding render_target traverse
  render_each self =
      if output.is_lockfile
      then raised needs_environment_exporter
      else if is_empty self.selected
      then raised select_lock_targets
      else traverse (render_target self) self.selected
