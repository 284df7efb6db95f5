-- ===== src/Tests/WorkspaceLock.antt =====
-- A lock of one environment with its manifest, and the properties of locks at it.
use conda_presto.Prelude.{
  String, ◌≡◌, refl, true, false, ◌⊎◌, none, some, List, [], ◌∷◌, string_eq, nat_eq, list_eq,
  option_eq, ◌==◌, if◌then◌else◌, dedupe, add_all, contains,
}
use conda_presto.Exceptions.Text.{Text, codes}
use conda_presto.OrderedDict.{OrderedDict, get, insert}
use conda_presto.Resolve.Dispatch.{Outcome, returned, raised}
use conda_presto.Exceptions.Redact.{other}
use conda_presto.Exporter.{Exporter, render}
use conda_presto.Workspace.Error.{Error, library_error, traverse}
use conda_presto.Workspace.Config.{Resolved, WorkspaceTarget, WorkspaceInput, Limits}
use conda_presto.Workspace.Select.{is_empty}
use conda_presto.Workspace.Input.{from_config, select, check_each, available}
use conda_presto.Workspace.Output.{combined, workspaces_lock}
use conda_presto.WorkspaceLock.Loader.{
  PackageRecord, SavedEnvironment, Loader, LockFile, WorkspaceLockInput,
}
use conda_presto.WorkspaceLock.Select.{from_path, lock_targets, discover}
use conda_presto.WorkspaceLock.Select.Chosen.{IsSelection, from_path-IsSelection}
use conda_presto.WorkspaceLock.Input.{
  Conda, WorkspaceLockUpdate, check_consistency, prepare_update, environment,
}
use conda_presto.WorkspaceLock.Input.Ready.{IsReady, prepare_update-IsReady}
use conda_presto.WorkspaceLock.Output.{WorkspaceLockExport, render_lock, render_each}
use conda_presto.WorkspaceLock.Output.Each.{Written, render_each-Written}
use conda_presto.WorkspaceLock.Output.Whole.{Exported, render_lock-Exported}
use conda_presto.InputFile.Request.{
  Request, Parsed, Reading, check_request, empty_parsed, lockfile_name,
}
use conda_presto.InputFile.Parse as Parse
use conda_presto.InputFile.Parse.{parse_kind, parse_lock, all_platforms}
use conda_presto.InputFile.Parse.Consistent.{IsAsked}
use conda_presto.InputFile.Parse.Asked.{from_path-IsAsked}
use conda_presto.WorkspaceLock.Update.{Updating, solve}
use conda_presto.WorkspaceLock.Update.Updated.{Ended, solve-Ended}

abbrev limits : Limits
limits = record {
  max_platforms = 2;
  max_specs = 3;
  max_channels = 1;
  known_subdirs = "linux-64" ∷ "osx-arm64" ∷ [];
}

abbrev resolved : Resolved
resolved = record {
  platforms = "gpu" ∷ "osx-arm64" ∷ [];
  platform_subdir = λ platform. if platform == "gpu" then "linux-64" else platform;
  conda_dependencies = record { name = "python"; url = none } ∷ [];
  system_requirement_specs = [];
  pypi_dependencies = [];
  requested_packages = "python" ∷ [];
  channels = "conda-forge" ∷ [];
  channel_priority = none;
  system_requirements = [];
}

abbrev conda : Conda
conda = record {
  libraries = record {
    requirement = λ text. none;
    is_version = λ text. true;
    has_conda_pypi = false;
    redact_channel_name = λ channel. channel;
  };
  canonical_name = λ channel. channel;
  is_match_spec = λ spec. true;
  requested_packages_for_export = λ resolved records. returned resolved.requested_packages;
}

abbrev manifest : WorkspaceInput
manifest = record {
  config = record {
    environments = record { name = "default"; features = []; no_default_feature = false } ∷ [];
    resolve_environment = λ name platform. returned resolved;
  };
  result = record { format = "conda-workspaces"; environments = []; selected = [] };
}

abbrev python : PackageRecord
python = record { name = "python"; depends = "openssl >=3" ∷ []; constrains = [] }

abbrev loader : Loader
loader = record {
  available_environments = "default" ∷ [];
  platforms_for = λ name. returned ("gpu" ∷ "osx-arm64" ∷ []);
  package_platform_for = λ platform name. some (if platform == "gpu" then "linux-64" else platform);
  select = λ selections. returned (("conda-forge" ∷ []) ∷ []);
  channels = ("conda-forge" ∷ []) ∷ [];
  package_records_by_url = returned tt;
  env_for = λ platform name subdir. returned (record {
    platform = subdir;
    channels = "conda-forge" ∷ [];
    explicit_packages = python ∷ [];
    requested_packages = [];
  });
  package_records = λ name platform. returned (python ∷ []);
  check_satisfiability =
      λ config platform name. returned (record { up_to_date = true; reason = none });
}

abbrev file : LockFile
file = record { has_credentials = false; loader = loader }

abbrev lock : WorkspaceLockInput
lock = record {
  loader = loader;
  environments =
      record {
        name = "default";
        platforms = ("gpu", some "linux-64") ∷ ("osx-arm64", some "osx-arm64") ∷ [];
      }
      ∷ [];
  selected = record { environment = "default"; platform = "gpu"; subdir = some "linux-64" } ∷ [];
  channels = "conda-forge" ∷ [];
  manifest = none;
}

abbrev complete_lock : WorkspaceLockInput
complete_lock = record lock { manifest = some manifest }

by_subdir : from_path limits file none (some ("linux-64" ∷ [])) false false ≡ returned lock
unfolding from_path traverse dedupe add_all insert string_eq option_eq lock_targets discover
by_subdir = refl

from_path-IsSelection_example : IsSelection limits file none (some ("linux-64" ∷ [])) false lock
from_path-IsSelection_example =
    from_path-IsSelection limits file none (some ("linux-64" ∷ [])) false false lock by_subdir

abbrev gpu : WorkspaceTarget
gpu = record {
  environment = "default";
  platform = "gpu";
  subdir = "linux-64";
  specs = "python" ∷ [];
  channels = "conda-forge" ∷ [];
  channel_priority = none;
  system_requirements = [];
  pypi_dependencies = [];
}

abbrev update : WorkspaceLockUpdate
update = record { lock = complete_lock; target = gpu; packages = "python" ∷ [] }

update_prepared :
    prepare_update conda limits complete_lock "default" "gpu" ("python" ∷ []) ≡ returned update
unfolding prepare_update check_consistency select from_config available traverse check_each dedupe
    add_all get insert string_eq
update_prepared = refl

prepare_update-IsReady_example :
    IsReady conda limits complete_lock "default" "gpu" ("python" ∷ []) update
prepare_update-IsReady_example =
    prepare_update-IsReady conda limits complete_lock "default" "gpu" ("python" ∷ []) update
      update_prepared

abbrev output : Exporter SavedEnvironment String
output = record {
  format_name = "environment-yaml";
  name = "environment-yaml";
  is_lockfile = false;
  multiplatform_export = none;
  export = some (record {
    call = λ env. returned (codes "dependencies: []");
    module_name = none;
    qualname = none;
  });
  default_filenames = none;
}

abbrev extract : Loader → OrderedDict String (List String) → Outcome Error Text
extract _ _ = returned (codes "version: 1")

abbrev failure : String → Error
failure e = library_error e

lock_rendered :
    render_lock conda limits output extract failure lock ≡ returned (codes "dependencies: []")
unfolding render_lock environment traverse dedupe add_all string_eq nat_eq render
lock_rendered = refl

render_lock-Exported_example :
    (is_empty lock.selected ≡ false)
    × ((combined output ≡ true)
        ⊎ (contains ("conda-lock-v1" ∷ "rattler-lock-v6" ∷ []) output.name ≡ false))
    × Exported conda limits output extract failure lock (codes "dependencies: []")
render_lock-Exported_example =
    render_lock-Exported conda limits output extract failure lock (codes "dependencies: []")
      lock_rendered

abbrev exports : List WorkspaceLockExport
exports =
    record {
      environment = "default";
      platform = "gpu";
      subdir = "linux-64";
      content = codes "dependencies: []";
    }
    ∷ []

each_rendered : render_each conda limits output extract failure complete_lock ≡ returned exports
unfolding render_each environment traverse select from_config available dedupe add_all get insert
    check_each string_eq list_eq render
each_rendered = refl

render_each-Written_example :
    (output.is_lockfile ≡ false)
    × (is_empty complete_lock.selected ≡ false)
    × Written conda limits output extract failure complete_lock complete_lock.selected exports
render_each-Written_example =
    render_each-Written conda limits output extract failure complete_lock exports each_rendered

abbrev updating : Updating
updating = record {
  conda = conda;
  limits = limits;
  dump = λ _. codes "version: 1";
  read = λ content. returned file;
  parser = some (λ content. returned (manifest.config, "conda-workspaces"));
  manifest_content = codes "[workspace]";
  render_lockfile = λ _ _. returned (codes "version: 1");
  exception = λ error. record { exc = other (codes "ValueError"); cause = none };
  directory = codes "/tmp/x";
}

solve-Ended_example : Ended updating update (solve updating update (some workspaces_lock))
solve-Ended_example = solve-Ended updating update

abbrev reading : Reading String
reading = record {
  conda = conda;
  limits = limits;
  named = λ format. returned output;
  failure = failure;
  workspace_filenames = "conda.toml" ∷ "pixi.toml" ∷ [];
  read_manifest = λ name. raised (library_error name);
  envs_from_manifest = λ target. returned [];
  lock_format = "conda-workspaces-lock-v1";
  read_lock = returned file;
  parser = λ filename. none;
  extract = extract;
  specification = raised (library_error "no plugin");
  subdir = "linux-64";
  transcode = λ targets format. raised (library_error format);
}

abbrev lock_request : Request
lock_request = record {
  name = lockfile_name;
  target_platforms = some ("linux-64" ∷ []);
  target_environments = none;
  export_format = some "environment-yaml";
  materialize_lockfiles = false;
  lockfile_only = false;
  export_each = false;
  manifest_content = none;
  manifest_filename = none;
  check_lock = false;
  update = none;
}

abbrev parsed_file : Parsed
parsed_file = record empty_parsed {
  channels = "conda-forge" ∷ [];
  is_lockfile = true;
  source_format = "conda-workspaces-lock-v1";
  available_platforms = "gpu" ∷ "osx-arm64" ∷ [];
  exported_content = some (codes "dependencies: []");
  workspace_lock = some lock;
}

lock_parsed : Parse.from_path reading lock_request ≡ returned parsed_file
unfolding Parse.from_path check_request parse_kind parse_lock all_platforms from_path lock_targets
    discover insert option_eq render_lock environment traverse dedupe add_all string_eq nat_eq
    render
lock_parsed = refl

from_path-IsAsked_example : IsAsked lock_request parsed_file
unfolding string_eq
from_path-IsAsked_example = from_path-IsAsked reading lock_request parsed_file refl lock_parsed
