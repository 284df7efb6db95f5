-- ===== src/InputFile/Request.antt =====
-- The arguments of `ParsedInputFile.from_path`, their guards, its results, and what it calls.
use conda_presto.Prelude.{
  String, Bool, true, false, not, ◌&&◌, ◌||◌, Option, none, some, List, [], string_eq, ◌==◌,
}
use conda_presto.Exceptions.Text.{Text}
use conda_presto.OrderedDict.{OrderedDict}
use conda_presto.Resolve.Dispatch.{Outcome, returned}
use conda_presto.Exporter.{Exporter}
use conda_presto.Workspace.Error.{
  Error, needs_companion, checks_complete_only, each_needs_format, requires_conda_lock,
  filename_required, content_required, requires_output_format, ◌>>=◌,
}
use conda_presto.Workspace.Config.{WorkspaceConfig, WorkspaceTarget, WorkspaceInput, Limits}
use conda_presto.Workspace.Input.{Check, refuse_if}
use conda_presto.WorkspaceLock.Loader.{SavedEnvironment, Loader, LockFile, WorkspaceLockInput}
use conda_presto.WorkspaceLock.Input.{Conda, WorkspaceLockCheckResult, WorkspaceLockUpdate}
use conda_presto.WorkspaceLock.Output.{WorkspaceLockExport}

-- The arguments of `from_path`; `name` is the last part of the path.
pub record Request : Type 0 where
  pub name : String
  pub target_platforms : Option (List String)
  pub target_environments : Option (List String)
  pub export_format : Option String
  pub materialize_lockfiles : Bool
  pub lockfile_only : Bool
  pub export_each : Bool
  pub manifest_content : Option Text
  pub manifest_filename : Option String
  pub check_lock : Bool
  pub update : Option (String × String × List String)

-- `ParsedInputFile`
pub record Parsed : Type 0 where
  pub specs : List String
  pub channels : List String
  pub is_lockfile : Bool
  pub source_format : String
  pub available_platforms : List String
  pub environments : List SavedEnvironment
  pub exported_content : Option Text
  pub workspace : Option WorkspaceInput
  pub workspace_lock : Option WorkspaceLockInput
  pub exported_documents : List WorkspaceLockExport
  pub lock_check : Option WorkspaceLockCheckResult
  pub workspace_update : Option WorkspaceLockUpdate

abbrev pub lockfile_name : String
lockfile_name = "conda.lock"

abbrev pub is_given {ℓ} : {A : Type ℓ} → Option A → Bool
is_given none = false
is_given (some value) = true

-- A check of the lock, or an update of it.
abbrev pub checks : Request → Bool
checks r = r.check_lock || is_given r.update

abbrev pub companion : Request → Bool
companion r = is_given r.manifest_content || is_given r.manifest_filename

-- The guards, the first that holds.
unfoldable pub check_request : Request → Check
check_request r =
    refuse_if
      (checks r && (not (is_given r.manifest_content) || not (is_given r.manifest_filename)))
      needs_companion
    >>= λ _.
        refuse_if
          (checks r
            && (is_given r.target_platforms
                || (is_given r.target_environments || (is_given r.export_format || r.export_each))))
          checks_complete_only
        >>= λ _.
            refuse_if (r.export_each && not (is_given r.export_format)) each_needs_format >>= λ _.
            refuse_if ((r.export_each || companion r) && not (r.name == lockfile_name))
              requires_conda_lock
            >>= λ _.
                refuse_if (is_given r.manifest_content && not (is_given r.manifest_filename))
                  filename_required
                >>= λ _.
                    refuse_if (is_given r.manifest_filename && not (is_given r.manifest_content))
                      content_required
                    >>= λ _.
                        refuse_if
                          (is_given r.manifest_content
                            && (not (is_given r.export_format) && not (checks r)))
                          requires_output_format

-- An ordinary environment as a specifier of conda reads it.
pub record Specification : Type 0 where
  pub format_name : String
  pub is_lockfile : Bool
  pub can_handle : Bool
  pub available_platforms : List String
  pub env_for : String → Outcome Error SavedEnvironment
  pub env : Outcome Error SavedEnvironment

-- What `from_path` calls: the plugins of conda and conda_workspaces, `OutputFormat.named`, the file as
-- each of them reads it, the name of the lock format, the native subdir, and the transcoder of
-- lockfiles, which gives nothing for a format that it does not write.
pub record Reading (E : Type 0) : Type 0 where
  pub conda : Conda
  pub limits : Limits
  pub named : String → Outcome Error (Exporter SavedEnvironment E)
  pub failure : E → Error
  pub workspace_filenames : List String
  pub read_manifest : String → Outcome Error (WorkspaceConfig × String)
  pub envs_from_manifest : WorkspaceTarget → Outcome Error (List SavedEnvironment)
  pub lock_format : String
  pub read_lock : Outcome Error LockFile
  pub parser : String → Option (Text → Outcome Error (WorkspaceConfig × String))
  pub extract : Loader → OrderedDict String (List String) → Outcome Error Text
  pub specification : Outcome Error Specification
  pub subdir : String
  pub transcode : List String → String → Outcome Error (Option Text)

-- One thing made if it is asked for.
abbrev pub optionally {ℓ κ} :
    {A : Type ℓ} {B : Type κ} → Option A → (A → Outcome Error B) → Outcome Error (Option B)
optionally none make = returned none
optionally (some a) make = make a >>= λ b. returned (some b)

abbrev pub asked_if {ℓ} : {A : Type ℓ} → Bool → Option A → Option A
asked_if false value = none
asked_if true value = value

abbrev pub or_nothing : Option (List String) → List String
or_nothing none = []
or_nothing (some xs) = xs

abbrev pub or_empty_text : Option String → String
or_empty_text none = ""
or_empty_text (some text) = text

abbrev pub empty_parsed : Parsed
empty_parsed = record {
  specs = [];
  channels = [];
  is_lockfile = false;
  source_format = "";
  available_platforms = [];
  environments = [];
  exported_content = none;
  workspace = none;
  workspace_lock = none;
  exported_documents = [];
  lock_check = none;
  workspace_update = none;
}

abbrev pub or_no_documents : Option (List WorkspaceLockExport) → List WorkspaceLockExport
or_no_documents none = []
or_no_documents (some documents) = documents

-- whether `check_lock` asks for a check
abbrev pub check_asked : Bool → Option (Unit {0})
check_asked true = some tt
check_asked false = none
