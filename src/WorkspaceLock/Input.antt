-- ===== src/WorkspaceLock/Input.antt =====
-- `WorkspaceLockInput`: saved environments, consistency with the manifest, and updates.
pub mod Verified
pub mod Consistent
pub mod Ready
use conda_presto.Prelude.{
  ℕ, String, Bool, true, false, not, ◌&&◌, ◌||◌, Option, none, some, List, [], ◌∷◌, ◌++◌, map, ltb,
  length, any, all, if◌then◌else◌, string_eq, list_eq, contains, ◌==◌,
}
use conda_presto.Exceptions.Text.{Text}
use conda_presto.Exceptions.Redact.{redact_safe_error}
use conda_presto.OrderedDict.{OrderedDict, keys}
use conda_presto.Resolve.Dispatch.{Outcome, returned, raised}
use conda_presto.App.Caps.{sorted, difference}
use conda_presto.Workspace.Error.{
  Error, index_error, unsupported_manifest, platform_mismatch, manifest_has_pypi, no_subdir,
  channels_mismatch, needs_manifest, nothing_declared, pypi_unsupported, archspec_unsupported,
  invalid_dependency, baseline_inconsistent, update_incomplete, too_many_packages, target_not_exact,
  packages_not_declared, packages_not_installed, ◌>>=◌, traverse,
}
use conda_presto.Workspace.Config.{
  Resolved, WorkspaceConfig, WorkspaceTarget, WorkspaceInput, Limits,
}
use conda_presto.Workspace.Select.{is_empty}
use conda_presto.Workspace.Input.{Check, refuse_if, check_each, select, from_config}
use conda_presto.Workspace.Input as WI
use conda_presto.WorkspaceLock.Loader.{
  PackageRecord, SavedEnvironment, Status, Loader, WorkspaceLockEnvironment, WorkspaceLockTarget,
  WorkspaceLockInput,
}
use conda_presto.WorkspaceLock.Select.{concat}

-- conda and conda_workspaces: the name of a channel, whether a text is a `MatchSpec`, and the
-- requested packages of a resolved environment among records.
pub record Conda : Type 0 where
  pub libraries : WI.Libraries
  pub canonical_name : String → String
  pub is_match_spec : String → Bool
  pub requested_packages_for_export : Resolved → List PackageRecord → Outcome Error (List String)

pub record WorkspaceLockTargetCheck : Type 0 where
  pub environment : String
  pub platform : String
  pub subdir : String
  pub consistent : Bool
  pub reason : Option Text

pub record WorkspaceLockCheckResult : Type 0 where
  pub consistent : Bool
  pub targets : List WorkspaceLockTargetCheck

pub record WorkspaceLockUpdate : Type 0 where
  pub lock : WorkspaceLockInput
  pub target : WorkspaceTarget
  pub packages : List String

-- `.selected[0]`
abbrev pub first_selected : List WorkspaceTarget → Outcome Error WorkspaceTarget
first_selected [] = raised index_error
first_selected (t ∷ ts) = returned t

abbrev pub mismatched : Option String → String → Bool
mismatched none declared = false
mismatched (some subdir) declared = not (subdir == declared)

abbrev pub redacted : Option Text → Option Text
redacted none = none
redacted (some []) = none
redacted (some (c ∷ cs)) = some (redact_safe_error (c ∷ cs))

-- whether a name without a leading `__` is `archspec`
abbrev pub is_archspec : String → Bool
is_archspec name = name == "archspec" || name == "__archspec"

-- the first that is not consistent
unfoldable pub baseline_error : List WorkspaceLockTargetCheck → Error
baseline_error [] = index_error
baseline_error (check ∷ checks) =
    let rest = baseline_error checks in
    if check.consistent then rest else baseline_inconsistent check.environment check.platform

abbrev pub lacking : List String → (List String → Error) → Check
lacking names error = refuse_if (not (is_empty names)) (error (sorted names))

abbrev pub checked_result : List WorkspaceLockTargetCheck → WorkspaceLockCheckResult
checked_result checks = record {
  consistent = all (λ check. check.consistent) checks;
  targets = checks;
}

module _ (conda : Conda) (limits : Limits) where
  -- `manifest.select([environment], [platform]).result.selected[0]`
  unfoldable pub declared_target :
      WorkspaceInput → (environment platform : String) → Outcome Error WorkspaceTarget
  unfolding select
  declared_target manifest environment platform =
      select conda.libraries limits manifest (some (environment ∷ [])) (some (platform ∷ []))
      >>= λ w. first_selected w.result.selected

  abbrev pub with_requested : Bool → SavedEnvironment → List String → SavedEnvironment
  with_requested include env requested = record env {
    requested_packages = if include then requested else [];
  }

  unfoldable pub verified_environment :
      Loader
      → WorkspaceInput
      → WorkspaceLockTarget
      → Bool
      → WorkspaceTarget
      → Outcome Error SavedEnvironment
  verified_environment loader manifest target include declared =
      refuse_if (mismatched target.subdir declared.subdir) platform_mismatch >>= λ _.
      manifest.config.resolve_environment target.environment (some declared.platform)
      >>= λ resolved.
          refuse_if (not (is_empty resolved.pypi_dependencies)) manifest_has_pypi >>= λ _.
          loader.env_for target.platform target.environment declared.subdir >>= λ env.
          refuse_if
            (not
              (map conda.canonical_name resolved.channels == map conda.canonical_name env.channels))
            channels_mismatch
          >>= λ _.
              conda.requested_packages_for_export resolved env.explicit_packages >>= λ requested.
              returned (with_requested include env requested)

  unfoldable pub saved_environment :
      Loader → WorkspaceLockTarget → Option String → Outcome Error SavedEnvironment
  saved_environment loader target none = raised no_subdir
  saved_environment loader target (some subdir) =
      loader.env_for target.platform target.environment subdir >>= λ env.
      returned (with_requested false env [])

  unfoldable pub environment_with :
      Option WorkspaceInput → Loader → WorkspaceLockTarget → Bool → Outcome Error SavedEnvironment
  unfolding verified_environment saved_environment declared_target
  environment_with none loader target include = saved_environment loader target target.subdir
  environment_with (some manifest) loader target include =
      declared_target manifest target.environment target.platform
      >>= verified_environment loader manifest target include

  -- `environment`
  unfoldable pub environment :
      WorkspaceLockInput → WorkspaceLockTarget → Bool → Outcome Error SavedEnvironment
  unfolding environment_with
  environment self target include = environment_with self.manifest self.loader target include

  -- the dependencies of every saved record
  unfoldable pub check_record : PackageRecord → Check
  unfolding check_each
  check_record r =
      check_each (λ spec. refuse_if (not (conda.is_match_spec spec)) (invalid_dependency spec))
        (r.depends ++ r.constrains)

  unfoldable pub check_saved : Loader → WorkspaceLockEnvironment → Check
  unfolding check_each check_record
  check_saved loader saved =
      check_each
        (λ platform.
          loader.package_records saved.name platform >>= λ records. check_each check_record records)
        (keys saved.platforms)

  unfoldable pub check_target :
      Loader → WorkspaceConfig → WorkspaceTarget → Outcome Error WorkspaceLockTargetCheck
  check_target loader config target =
      config.resolve_environment target.environment (some target.platform) >>= λ resolved.
      loader.check_satisfiability config target.platform target.environment >>= λ status.
      returned (record {
        environment = target.environment;
        platform = target.platform;
        subdir = target.subdir;
        consistent = status.up_to_date;
        reason = redacted status.reason;
      })

  unfoldable pub check_targets :
      WorkspaceLockInput
      → WorkspaceConfig
      → List WorkspaceTarget
      → Outcome Error WorkspaceLockCheckResult
  unfolding check_saved check_target check_each traverse
  check_targets self config targets = refuse_if (is_empty targets) nothing_declared >>= λ _.
      refuse_if (any (λ t. not (is_empty t.pypi_dependencies)) targets) pypi_unsupported >>= λ _.
      refuse_if (any (λ t. any is_archspec (keys t.system_requirements)) targets)
        archspec_unsupported
      >>= λ _. check_each (check_saved self.loader) self.environments >>= λ _.
          traverse (check_target self.loader config) targets >>= λ checks.
          returned (checked_result checks)

  unfoldable pub check_with :
      WorkspaceLockInput → Option WorkspaceInput → Outcome Error WorkspaceLockCheckResult
  unfolding check_targets select
  check_with self none = raised needs_manifest
  check_with self (some manifest) = select conda.libraries limits manifest none none >>= λ w.
      check_targets self manifest.config w.result.selected

  -- `check_consistency`
  unfoldable pub check_consistency : WorkspaceLockInput → Outcome Error WorkspaceLockCheckResult
  unfolding check_with
  check_consistency self = check_with self self.manifest

  unfoldable pub update_of :
      WorkspaceLockInput
      → WorkspaceInput
      → (environment platform : String) → List String
      → Outcome Error WorkspaceLockUpdate
  unfolding declared_target
  update_of self manifest environment platform packages =
      declared_target manifest environment platform >>= λ target.
      refuse_if (not (target.platform == platform)) target_not_exact >>= λ _.
      manifest.config.resolve_environment environment (some target.platform) >>= λ resolved.
      lacking (difference packages (map (λ d. d.name) resolved.conda_dependencies))
        packages_not_declared
      >>= λ _. self.loader.package_records environment target.platform >>= λ records.
          lacking (difference packages (map (λ r. r.name) records)) packages_not_installed >>= λ _.
          returned (record { lock = self; target = target; packages = sorted packages })

  unfoldable pub update_with :
      WorkspaceLockInput
      → Option WorkspaceInput
      → (environment platform : String) → List String
      → Outcome Error WorkspaceLockUpdate
  unfolding update_of
  update_with self none environment platform packages = raised needs_manifest
  update_with self (some manifest) environment platform packages =
      update_of self manifest environment platform packages

  -- `prepare_update`
  unfoldable pub prepare_update :
      WorkspaceLockInput
      → (environment platform : String) → List String
      → Outcome Error WorkspaceLockUpdate
  unfolding check_consistency baseline_error update_with
  prepare_update self environment platform packages = check_consistency self >>= λ check.
      refuse_if (not check.consistent) (baseline_error check.targets) >>= λ _.
      refuse_if (environment == "" || (platform == "" || is_empty packages)) update_incomplete
      >>= λ _. refuse_if (ltb limits.max_specs (length packages)) too_many_packages >>= λ _.
          update_with self self.manifest environment platform packages

  -- `with_manifest`; `parser` is that of `PARSER_BY_FILENAME`, if the filename has one
  unfoldable pub with_manifest :
      Option (Text → Outcome Error (WorkspaceConfig × String))
      → WorkspaceLockInput
      → (content : Text) → Outcome Error WorkspaceLockInput
  unfolding from_config
  with_manifest none self content = raised unsupported_manifest
  with_manifest (some parse_text) self content = parse_text content >>= λ parsed.
      from_config conda.libraries limits parsed.0 parsed.1 none none >>= λ manifest.
      returned (record self { manifest = some manifest })
