-- ===== src/InputFile/Parse.antt =====
-- `ParsedInputFile.from_path`: what a file is read as, and what is made of it.
pub mod Consistent
pub mod Asked
use conda_presto.Prelude.{
  String, Bool, true, false, not, ◌&&◌, ◌||◌, Option, none, some, List, [], ◌∷◌, ◌++◌, map, all,
  if◌then◌else◌, string_eq, contains, ◌==◌, dedupe,
}
use conda_presto.Exceptions.Text.{Text}
use conda_presto.OrderedDict.{OrderedDict, keys}
use conda_presto.Resolve.Dispatch.{Outcome, returned, raised}
use conda_presto.Exporter.{
  Exporter, Rendered, rendered, unknown_format, fails, render, validate_declared_input,
}
use conda_presto.Workspace.Error.{
  Error, library_error, needs_companion, checks_complete_only, each_needs_format,
  requires_conda_lock, filename_required, content_required, requires_output_format,
  environments_need_manifest, platforms_need_manifest, ◌>>=◌, traverse,
}
use conda_presto.Workspace.Config.{WorkspaceConfig, WorkspaceTarget, WorkspaceInput, Limits}
use conda_presto.Workspace.Select.{is_empty, is_absent}
use conda_presto.Workspace.Input.{Check, refuse_if, select, from_config}
use conda_presto.Workspace.Solve.{selected_or_all}
use conda_presto.Workspace.Export.{export, raise_invalid}
use conda_presto.WorkspaceLock.Loader.{
  SavedEnvironment, Loader, LockFile, WorkspaceLockEnvironment, WorkspaceLockInput,
}
use conda_presto.WorkspaceLock.Select as Lock
use conda_presto.WorkspaceLock.Input.{
  Conda, WorkspaceLockCheckResult, WorkspaceLockUpdate, with_manifest, check_consistency,
  prepare_update,
}
use conda_presto.WorkspaceLock.Output.{WorkspaceLockExport, render_lock, render_each}
use conda_presto.InputFile.Request.{
  Request, Parsed, lockfile_name, is_given, checks, companion, check_request, Specification,
  Reading, optionally, asked_if, or_nothing, or_empty_text, empty_parsed, or_no_documents,
  check_asked,
}

module _ {E : Type 0} (from : Reading E) where
  abbrev pub body_of : Rendered E → Outcome Error Text
  body_of (rendered body media_type) = returned body
  body_of (unknown_format name) = raised (library_error name)
  body_of (fails e) = raised (from.failure e)

  -- the workspace that a manifest describes, with all targets selected for a document
  abbrev pub read_workspace : Request → Outcome Error WorkspaceInput
  read_workspace r =
      (from.read_manifest r.name >>= λ read.
      from_config from.conda.libraries from.limits read.0 read.1 r.target_environments
        r.target_platforms)
      >>= λ found.
          if is_given (asked_if (not r.lockfile_only) r.export_format)
          then selected_or_all from.conda.libraries from.limits found
          else returned found

  abbrev pub declared_content : Request → WorkspaceInput → Outcome Error (Option Text)
  declared_content r workspace =
      optionally (asked_if (not r.lockfile_only) r.export_format) (λ format.
        export from.conda.libraries from.limits from.envs_from_manifest (from.named format)
          workspace
        >>= body_of)

  -- a workspace manifest
  unfoldable pub parse_workspace : Request → Outcome Error Parsed
  unfolding from_config export
  parse_workspace r = read_workspace r >>= λ workspace. declared_content r workspace >>= λ content.
      returned (record empty_parsed {
        source_format = workspace.result.format;
        exported_content = content;
        workspace = some workspace;
      })

  abbrev with_companion :
      Option Text → Option String → WorkspaceLockInput → Outcome Error WorkspaceLockInput
  with_companion (some content) (some filename) lock =
      with_manifest from.conda from.limits (from.parser filename) lock content
  with_companion _ _ lock = returned lock

  unfoldable pub all_platforms : List WorkspaceLockEnvironment → List String
  all_platforms environments = Lock.concat (map (λ e. keys e.platforms) environments)

  -- the lock as its file and the companion say, and what is made of it
  abbrev pub read_companion : Request → Outcome Error WorkspaceLockInput
  read_companion r =
      (from.read_lock >>= λ file.
      Lock.from_path from.limits file r.target_environments r.target_platforms
        (is_given r.export_format) (checks r))
      >>= with_companion r.manifest_content r.manifest_filename

  abbrev pub rendered_content : Request → WorkspaceLockInput → Outcome Error (Option Text)
  rendered_content r lock = optionally (asked_if (not r.export_each) r.export_format) (λ format.
      from.named format >>= λ output.
      render_lock from.conda from.limits output from.extract from.failure lock)

  abbrev pub rendered_documents :
      Request → WorkspaceLockInput → Outcome Error (Option (List WorkspaceLockExport))
  rendered_documents r lock = optionally (asked_if r.export_each r.export_format) (λ format.
      from.named format >>= λ output.
      render_each from.conda from.limits output from.extract from.failure lock)

  abbrev pub checked_lock :
      Request → WorkspaceLockInput → Outcome Error (Option WorkspaceLockCheckResult)
  checked_lock r lock =
      optionally (check_asked r.check_lock) (λ _. check_consistency from.conda from.limits lock)

  abbrev pub prepared_update :
      Request → WorkspaceLockInput → Outcome Error (Option WorkspaceLockUpdate)
  prepared_update r lock =
      optionally r.update (λ u. prepare_update from.conda from.limits lock u.0 u.1 u.2)

  -- a conda.lock
  unfoldable pub parse_lock : Request → Outcome Error Parsed
  unfolding with_manifest render_lock render_each check_consistency prepare_update all_platforms
      dedupe
  parse_lock r = read_companion r >>= λ lock. rendered_content r lock >>= λ content.
      rendered_documents r lock >>= λ documents. checked_lock r lock >>= λ check.
      prepared_update r lock >>= λ update. returned (record empty_parsed {
        channels = lock.channels;
        is_lockfile = true;
        source_format = from.lock_format;
        available_platforms = dedupe (all_platforms lock.environments);
        exported_content = content;
        workspace_lock = some lock;
        exported_documents = or_no_documents documents;
        lock_check = check;
        workspace_update = update;
      })

  -- `target_platforms or ...`
  abbrev pub targets_of : Request → List String
  targets_of r =
      let wanted = or_nothing r.target_platforms in
      if not (is_empty wanted)
      then wanted
      else if r.materialize_lockfiles || not (or_empty_text r.export_format == "")
      then from.subdir ∷ []
      else []

  abbrev pub load_records :
      Bool → Specification → List String → Outcome Error (Option Text × List SavedEnvironment)
  load_records false spec targets = returned (none, [])
  load_records true spec targets = traverse spec.env_for targets >>= λ envs. returned (none, envs)

  abbrev pub transcode_or_load :
      Option String
      → Bool
      → Specification
      → List String
      → Outcome Error (Option Text × List SavedEnvironment)
  transcode_or_load (some format) materialize spec targets =
      from.transcode targets format >>= λ content. returned (content, [])
  transcode_or_load none materialize spec targets = load_records materialize spec targets

  -- what is made of an ordinary lockfile: its records, transcoded or loaded
  unfoldable pub read_records :
      Request → Specification → List String → Outcome Error (Option Text × List SavedEnvironment)
  unfolding traverse
  read_records r spec targets =
      if not (is_empty targets)
        && (not (is_empty spec.available_platforms)
            && all (contains spec.available_platforms) targets)
      then transcode_or_load r.export_format r.materialize_lockfiles spec targets
      else returned (none, [])

  unfoldable pub parse_lockfile : Request → Specification → Outcome Error Parsed
  unfolding read_records dedupe
  parse_lockfile r spec = read_records r spec (targets_of r) >>= λ read.
      returned (record empty_parsed {
        specs = Lock.concat (map (λ e. e.requested_packages) read.1);
        channels = dedupe (Lock.concat (map (λ e. e.channels) read.1));
        is_lockfile = true;
        source_format = spec.format_name;
        available_platforms = spec.available_platforms;
        environments = read.1;
        exported_content = read.0;
      })

  abbrev pub environment_content : Request → SavedEnvironment → Outcome Error (Option Text)
  environment_content r env = optionally (asked_if (not r.lockfile_only) r.export_format) (λ format.
      refuse_if (is_given r.target_platforms) platforms_need_manifest >>= λ _.
      from.named format >>= λ output.
      raise_invalid (validate_declared_input output 1) >>= λ _. body_of (render output (env ∷ [])))

  unfoldable pub parse_environment : Request → Specification → Outcome Error Parsed
  unfolding render validate_declared_input
  parse_environment r spec = spec.env >>= λ env. environment_content r env >>= λ content.
      returned (record empty_parsed {
        specs = env.requested_packages;
        channels = env.channels;
        source_format = spec.format_name;
        environments = env ∷ [];
        exported_content = content;
      })

  unfoldable pub parse_ordinary : Request → Outcome Error Parsed
  unfolding parse_lockfile parse_environment
  parse_ordinary r = refuse_if (is_given r.target_environments) environments_need_manifest >>= λ _.
      from.specification >>= λ spec.
      refuse_if (not spec.can_handle) (library_error "No conda environment spec plugin") >>= λ _.
      if spec.is_lockfile then parse_lockfile r spec else parse_environment r spec

  unfoldable pub parse_kind : Request → Outcome Error Parsed
  unfolding parse_workspace parse_lock parse_ordinary
  parse_kind r =
      if contains from.workspace_filenames r.name
      then parse_workspace r
      else if r.name == lockfile_name
      then parse_lock r
      else parse_ordinary r

  -- `from_path`
  unfoldable pub from_path : Request → Outcome Error Parsed
  unfolding check_request parse_kind
  from_path r = check_request r >>= λ _. parse_kind r
