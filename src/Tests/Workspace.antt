-- ===== src/Tests/Workspace.antt =====
-- A manifest with two environments, and the properties of workspaces at it.
use conda_presto.Prelude.{
  String, ◌≡◌, refl, Bool, true, false, none, some, List, [], ◌∷◌, string_eq, nat_eq, list_eq, ◌==◌,
  if◌then◌else◌, dedupe, add_all,
}
use conda_presto.Exceptions.Text.{codes}
use conda_presto.Exceptions.Redact.{other, packages_not_found}
use conda_presto.OrderedDict.{get, insert}
use conda_presto.Resolve.Dispatch.{Outcome, returned, raised}
use conda_presto.Exporter.{Exporter}
use conda_presto.Workspace.Error.{traverse}
use conda_presto.Workspace.Config.{
  Resolved, WorkspaceConfig, WorkspaceTarget, WorkspaceInput, Limits,
}
use conda_presto.Workspace.Select.{Plan}
use conda_presto.Workspace.Input.{Libraries, available, target, from_config}
use conda_presto.Workspace.Input.Composed.{IsComposed, target-IsComposed}
use conda_presto.Workspace.Input.Selection.{IsSelection, from_config-IsSelection}
use conda_presto.Workspace.Output.{validate_output}
use conda_presto.Workspace.Output.Representable.{IsRepresentable, validate_output-IsRepresentable}
use conda_presto.Workspace.Solve.{Raised, WorkspaceSolveResult, results, solve_selected}
use conda_presto.Workspace.Solve.Reported.{Reported, solve_selected-Reported}
use conda_presto.Workspace.Solve.Delivered.{Delivered, solve_selected-Delivered}

abbrev limits : Limits
limits = record {
  max_platforms = 2;
  max_specs = 3;
  max_channels = 1;
  known_subdirs = "linux-64" ∷ "osx-arm64" ∷ [];
}

abbrev libraries : Libraries
libraries = record {
  requirement = λ text. none;
  is_version = λ text. true;
  has_conda_pypi = false;
  redact_channel_name = λ channel. channel;
}

-- A target `gpu` on linux-64, and one named as its subdir.
abbrev resolved : Resolved
resolved = record {
  platforms = "gpu" ∷ "osx-arm64" ∷ [];
  platform_subdir = λ platform. if platform == "gpu" then "linux-64" else platform;
  conda_dependencies = record { name = "python"; url = none } ∷ [];
  system_requirement_specs = [];
  pypi_dependencies = [];
  requested_packages = "python" ∷ [];
  channels = "conda-forge" ∷ [];
  channel_priority = none;
  system_requirements = [];
}

abbrev config : WorkspaceConfig
config = record {
  environments = record { name = "default"; features = []; no_default_feature = false } ∷ [];
  resolve_environment = λ name platform. returned resolved;
}

abbrev composed : (platform subdir : String) → WorkspaceTarget
composed platform subdir = record {
  environment = "default";
  platform = platform;
  subdir = subdir;
  specs = "python" ∷ [];
  channels = "conda-forge" ∷ [];
  channel_priority = none;
  system_requirements = [];
  pypi_dependencies = [];
}

abbrev selected : WorkspaceInput
selected = record {
  config = config;
  result = record {
    format = "conda-workspaces";
    environments =
        record {
          name = "default";
          features = [];
          no_default_feature = false;
          platforms = ("gpu", "linux-64") ∷ ("osx-arm64", "osx-arm64") ∷ [];
        }
        ∷ [];
    selected = composed "gpu" "linux-64" ∷ composed "osx-arm64" "osx-arm64" ∷ [];
  };
}

-- The subdir selects the declared target, the second request for it nothing.
by_subdir :
    from_config libraries limits config "conda-workspaces" none
      (some ("linux-64" ∷ "osx-arm64" ∷ "gpu" ∷ []))
    ≡ returned selected
unfolding from_config traverse available string_eq insert get dedupe add_all
by_subdir = refl

from_config-IsSelection_example :
    IsSelection libraries limits config none (some ("linux-64" ∷ "osx-arm64" ∷ "gpu" ∷ [])) selected
from_config-IsSelection_example =
    from_config-IsSelection libraries limits config "conda-workspaces" none
      (some ("linux-64" ∷ "osx-arm64" ∷ "gpu" ∷ [])) selected refl by_subdir

abbrev gpu_plan : Plan
gpu_plan = record { environment = "default"; target = "gpu"; subdir = "linux-64" }

gpu_composed : target libraries limits config gpu_plan ≡ returned (composed "gpu" "linux-64")
unfolding target
gpu_composed = refl

target-IsComposed_example : IsComposed libraries limits config gpu_plan (composed "gpu" "linux-64")
target-IsComposed_example =
    target-IsComposed libraries limits config gpu_plan (composed "gpu" "linux-64") gpu_composed

-- An exporter of one file for several platforms.
abbrev output : Exporter String String
output = record {
  format_name = "environment-yaml";
  name = "environment-yaml";
  is_lockfile = false;
  multiplatform_export =
      some (record { call = λ envs. returned (codes "envs"); module_name = none; qualname = none });
  export = none;
  default_filenames = none;
}

two_fit : validate_output (some output) selected.result.selected ≡ returned tt
unfolding validate_output string_eq nat_eq list_eq dedupe add_all get insert
two_fit = refl

validate_output-IsRepresentable_example : IsRepresentable output selected.result.selected
validate_output-IsRepresentable_example =
    validate_output-IsRepresentable output selected.result.selected tt two_fit

abbrev lost : Raised
lost = record {
  exc = other (codes "wrapped");
  cause = some (packages_not_found (codes "no python"));
}

-- The target on linux-64 is solved, the other one is not.
abbrev solve_for_platform : WorkspaceTarget → Outcome Raised (List String)
solve_for_platform t = if t.subdir == "linux-64" then returned ("python-3.13" ∷ []) else raised lost

abbrev environment : Bool → WorkspaceTarget → List String → Outcome Raised String
environment combined t records = returned t.platform

solve_selected-Reported_example :
    (rs : List (WorkspaceSolveResult String)) × (solve_selected {E = String} solve_for_platform
        environment
        (λ r. r)
        none
        (returned selected)
      ≡ results rs)
    × Reported solve_for_platform (λ r. r) selected.result.selected rs
solve_selected-Reported_example =
    solve_selected-Reported String solve_for_platform environment (λ r. r) selected

solve_selected-Delivered_example :
    Delivered String solve_for_platform environment
      (λ r. r)
      output
      selected.result.selected
      (solve_selected solve_for_platform environment (λ r. r) (some output) (returned selected))
solve_selected-Delivered_example =
    solve_selected-Delivered String solve_for_platform environment (λ r. r) output selected
