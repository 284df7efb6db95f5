-- ===== src/WorkspaceLock/Loader.antt =====
-- A conda.lock as conda_workspaces reads it, and the structures of the response.
use conda_presto.Prelude.{String, Bool, Option, List}
use conda_presto.Exceptions.Text.{Text}
use conda_presto.OrderedDict.{OrderedDict}
use conda_presto.Resolve.Dispatch.{Outcome}
use conda_presto.Workspace.Error.{Error}
use conda_presto.Workspace.Config.{WorkspaceInput, WorkspaceConfig}

-- The fields of a saved record that are read.
pub record PackageRecord : Type 0 where
  pub name : String
  pub depends : List String
  pub constrains : List String

-- conda's `Environment` of a saved target.
pub record SavedEnvironment : Type 0 where
  pub platform : String
  pub channels : List String
  pub explicit_packages : List PackageRecord
  pub requested_packages : List String

-- What `check_lockfile_satisfiability` says of a target.
pub record Status : Type 0 where
  pub up_to_date : Bool
  pub reason : Option Text

-- `CondaLockLoader` over the redacted data of a file. `select` gives the channels of each selected
-- environment, and `channels` those of all.
pub record Loader : Type 0 where
  pub available_environments : List String
  pub platforms_for : String → Outcome Error (List String)
  pub package_platform_for : (platform name : String) → Option String
  pub select : List (String × List String) → Outcome Error (List (List String))
  pub channels : List (List String)
  pub package_records_by_url : Outcome Error (Unit {0})
  pub env_for : (platform name package_platform : String) → Outcome Error SavedEnvironment
  pub package_records : (name platform : String) → Outcome Error (List PackageRecord)
  pub check_satisfiability : WorkspaceConfig → (platform name : String) → Outcome Error Status

-- The bytes of a file, read: whether `has_url_credentials_in_data`, and the loader.
pub record LockFile : Type 0 where
  pub has_credentials : Bool
  pub loader : Loader

pub record WorkspaceLockEnvironment : Type 0 where
  pub name : String
  pub platforms : OrderedDict String (Option String)

pub record WorkspaceLockTarget : Type 0 where
  pub environment : String
  pub platform : String
  pub subdir : Option String

-- `WorkspaceLockInput`, without the digests of its sources, with the parsed manifest.
pub record WorkspaceLockInput : Type 0 where
  pub loader : Loader
  pub environments : List WorkspaceLockEnvironment
  pub selected : List WorkspaceLockTarget
  pub channels : List String
  pub manifest : Option WorkspaceInput
