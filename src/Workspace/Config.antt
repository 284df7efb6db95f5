-- ===== src/Workspace/Config.antt =====
-- The manifest as conda_workspaces parses and resolves it, and the response's structures.
use conda_presto.Prelude.{ℕ, String, Bool, Option, List}
use conda_presto.OrderedDict.{OrderedDict}
use conda_presto.Resolve.Dispatch.{Outcome}
use conda_presto.Workspace.Error.{Error}

-- A dependency on a conda package, with `get_raw_value("url")`.
pub record Dependency : Type 0 where
  pub name : String
  pub url : Option String

pub record PypiDependency : Type 0 where
  pub name : String
  pub path : Option String
  pub git : Option String
  pub url : Option String
  pub extras : List String
  pub spec : Option String
  pub to_toml : String

-- What `resolve_environment` makes of an environment, or of its part for one platform.
pub record Resolved : Type 0 where
  pub platforms : List String
  pub platform_subdir : String → String
  pub conda_dependencies : List Dependency
  pub system_requirement_specs : List Dependency
  pub pypi_dependencies : OrderedDict String PypiDependency
  pub requested_packages : List String
  pub channels : List String
  pub channel_priority : Option String
  pub system_requirements : OrderedDict String String

-- An entry of `config.environments`.
pub record Declared : Type 0 where
  pub name : String
  pub features : List String
  pub no_default_feature : Bool

pub record WorkspaceConfig : Type 0 where
  pub environments : List Declared
  pub resolve_environment : String → Option String → Outcome Error Resolved

pub record WorkspaceEnvironment : Type 0 where
  pub name : String
  pub features : List String
  pub no_default_feature : Bool
  pub platforms : OrderedDict String String

pub record WorkspaceTarget : Type 0 where
  pub environment : String
  pub platform : String
  pub subdir : String
  pub specs : List String
  pub channels : List String
  pub channel_priority : Option String
  pub system_requirements : OrderedDict String String
  pub pypi_dependencies : OrderedDict String String

pub record WorkspaceParseResult : Type 0 where
  pub format : String
  pub environments : List WorkspaceEnvironment
  pub selected : List WorkspaceTarget

-- `WorkspaceInput`
pub record WorkspaceInput : Type 0 where
  pub config : WorkspaceConfig
  pub result : WorkspaceParseResult

-- config.py's limits and conda's `KNOWN_SUBDIRS`.
pub record Limits : Type 0 where
  pub max_platforms : ℕ
  pub max_specs : ℕ
  pub max_channels : ℕ
  pub known_subdirs : List String
