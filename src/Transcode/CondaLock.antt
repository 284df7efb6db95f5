-- ===== src/Transcode/CondaLock.antt =====
-- `CondaLockfilesTranscoder.render` on a conda-lock-v1 file, up to the environments that are exported.
pub mod Lossless
use conda_presto.Prelude.{
  String, Bool, true, false, not, ◌&&◌, ◌||◌, Option, none, some, List, [], ◌∷◌, map, if◌then◌else◌,
  string_eq, ◌==◌, contains, dedupe, any, ◌<>◌,
}
use conda_presto.OrderedDict.{OrderedDict, get, insert}
use conda_presto.Resolve.Dispatch.{Outcome, returned, raised}
use conda_presto.Workspace.Error.{
  Error, ◌>>=◌, traverse, no_platform_requested, platforms_not_in_lockfile, packages_would_be_lost,
  duplicate_package, wheel_not_transcoded,
}
use conda_presto.Workspace.Select.{is_empty}
use conda_presto.Workspace.Input.{Check, refuse_if}
use conda_presto.Transcode.Records.{
  Metadata, PackageRecord, Libraries, ends_with, is_whl, records_for_export,
}

-- A package of a conda-lock-v1 file; `hashes` is `hash.model_dump(exclude_none=True)`.
pub record Package : Type 0 where
  pub platform : String
  pub manager : String
  pub category : String
  pub optional : Bool
  pub url : String
  pub name : String
  pub version : String
  pub dependencies : OrderedDict String String
  pub hashes : OrderedDict String String

pub record CondaLockV1 : Type 0 where
  pub platforms : List String
  pub channels : List String
  pub packages : List Package

pub record Environment : Type 0 where
  pub platform : String
  pub channels : List String
  pub explicit_packages : List PackageRecord

-- `f"{name} {version}"`
abbrev pub joined : String × String → String
joined (name, version) = name <> (" " <> version)

abbrev pub is_given {ℓ} : {A : Type ℓ} → Option A → Bool
is_given none = false
is_given (some a) = true

abbrev pub first_with : (String → Bool) → List String → Option String
first_with test [] = none
first_with test (x ∷ xs) = let rest = first_with test xs in if test x then some x else rest

-- What would be lost: packages of pip, optional ones and those of another category.
abbrev pub is_unsupported : List String → Package → Bool
is_unsupported requested p =
    contains requested p.platform
    && (not (p.manager == "conda") || (not (p.category == "main") || p.optional))

abbrev pub metadata_of : Package → Option String → Metadata
metadata_of p channel = record {
  name = some p.name;
  version = some p.version;
  build = none;
  subdir = none;
  channel = channel;
  depends = map joined p.dependencies;
  hashes = p.hashes;
}

module _ (lib : Libraries) (pypi_name rattler : String) where
  -- the URL of the channel of wheels, for a wheel if there is one
  unfoldable pub wheel_channel : Option String → String → Outcome Error (Option String)
  unfolding ends_with
  wheel_channel none url = returned none
  wheel_channel (some channel) url =
      lib.path url >>= λ path. returned (if is_whl path then some channel else none)

  unfoldable pub check_wheel : String → String → Check
  unfolding ends_with
  check_wheel target url =
      if target == rattler
      then (lib.path url >>= λ path. refuse_if (is_whl path) wheel_not_transcoded)
      else returned tt

  -- one package of the loop over a platform's packages
  unfoldable pub add_package :
      (target : String)
      → Option String
      → (platform : String) → OrderedDict String Metadata
      → Package
      → Outcome Error (OrderedDict String Metadata)
  unfolding get insert wheel_channel check_wheel
  add_package target pypi platform found p =
      if not (p.platform == platform)
      then returned found
      else (refuse_if (is_given (get p.url found)) duplicate_package >>= λ _.
          check_wheel target p.url >>= λ _. wheel_channel pypi p.url >>= λ channel.
          returned (insert p.url (metadata_of p channel) found))

  unfoldable pub metadata_by_url :
      (target : String)
      → Option String
      → (platform : String) → OrderedDict String Metadata
      → List Package
      → Outcome Error (OrderedDict String Metadata)
  unfolding add_package
  metadata_by_url target pypi platform found [] = returned found
  metadata_by_url target pypi platform found (p ∷ ps) =
      add_package target pypi platform found p >>= λ more.
      metadata_by_url target pypi platform more ps

  abbrev pub pypi_channel : CondaLockV1 → Option String
  pypi_channel model = first_with (λ url. lib.canonical_name url == pypi_name) model.channels

  unfoldable pub environment_on :
      (target : String) → CondaLockV1 → String → Outcome Error Environment
  unfolding metadata_by_url records_for_export
  environment_on target model platform =
      metadata_by_url target (pypi_channel model) platform [] model.packages >>= λ found.
      records_for_export lib found platform >>= λ records. returned (record {
        platform = platform;
        channels = map lib.canonical_name model.channels;
        explicit_packages = records;
      })

  unfoldable pub transcode_conda_lock :
      (target : String) → List String → CondaLockV1 → Outcome Error (List Environment)
  unfolding traverse environment_on dedupe
  transcode_conda_lock target platforms model =
      refuse_if (is_empty (dedupe platforms)) no_platform_requested >>= λ _.
      refuse_if (any (λ p. not (contains model.platforms p)) (dedupe platforms))
        platforms_not_in_lockfile
      >>= λ _.
          refuse_if (any (is_unsupported (dedupe platforms)) model.packages) packages_would_be_lost
          >>= λ _. traverse (environment_on target model) (dedupe platforms)
