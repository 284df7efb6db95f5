-- ===== src/Workspace/Input.antt =====
-- `WorkspaceInput`: discovery, selection, and the composition of the selected targets.
pub mod Selection
pub mod Composed
use conda_presto.Prelude.{
  ℕ, ◌+◌, String, ◌<>◌, Bool, true, false, not, ◌&&◌, ◌||◌, Option, none, some, List, [], ◌∷◌, ◌++◌,
  map, ltb, length, any, all, if◌then◌else◌, string_eq, list_eq, contains, ◌==◌, dedupe,
}
use conda_presto.OrderedDict.{OrderedDict, get, insert}
use conda_presto.Resolve.Dispatch.{Outcome, returned, raised}
use conda_presto.Workspace.Error.{
  Error, empty_selectors, url_dependency, source_dependency, invalid_requirement, needs_conda_pypi,
  too_many_specs, too_many_channels, ◌>>=◌, traverse,
}
use conda_presto.Workspace.Config.{
  Dependency, PypiDependency, Resolved, Declared, WorkspaceConfig, WorkspaceEnvironment,
  WorkspaceTarget, WorkspaceParseResult, WorkspaceInput, Limits,
}
use conda_presto.Workspace.Select.{Plan, is_empty, is_absent, requested_of, plan_names}

-- `packaging.requirements.Requirement`; an absent `url` and `marker` are `none`.
pub record Requirement : Type 0 where
  pub name : String
  pub extras : List String
  pub url : Option String
  pub marker : Option String
  pub specifier : List (String × String)

-- The libraries: the parsers of requirements and of conda's versions, whether conda_pypi is there,
-- and the redaction of channels.
pub record Libraries : Type 0 where
  pub requirement : String → Option Requirement
  pub is_version : String → Bool
  pub has_conda_pypi : Bool
  pub redact_channel_name : String → String

-- whether an attribute is truthy
abbrev pub given : Option String → Bool
given none = false
given (some value) = not (value == "")

abbrev is_some : Option String → Bool
is_some none = false
is_some (some value) = true

unfoldable pub join_commas : List String → String
join_commas [] = ""
join_commas (x ∷ []) = x
join_commas (x ∷ y ∷ xs) = x <> ("," <> join_commas (y ∷ xs))

abbrev extras_text : List String → String
extras_text [] = ""
extras_text (x ∷ xs) = "[" <> (join_commas (x ∷ xs) <> "]")

abbrev version_spec : Option String → String
version_spec none = ""
version_spec (some spec) = if spec == "*" then "" else spec

abbrev same_set : List String → List String → Bool
same_set xs ys = all (contains ys) xs && all (contains xs) ys

abbrev pub Check : Type 0
Check = Outcome Error (Unit {0})

-- a loop whose body only raises: the first that does ends it
unfoldable pub check_each {ℓ} : {A : Type ℓ} → (A → Check) → List A → Check
check_each check [] = returned tt
check_each check (x ∷ xs) = check x >>= λ _. check_each check xs

abbrev pub refuse_if : Bool → Error → Check
refuse_if true error = raised error
refuse_if false error = returned tt

-- `find_spec` is asked only when there is a PyPI dependency
abbrev pub lacks_pypi {ℓ} : {A : Type ℓ} → List A → Bool → Bool
lacks_pypi dependencies has_conda_pypi = not (is_empty dependencies) && not has_conda_pypi

unfoldable pub resolve_declared : WorkspaceConfig → Declared → Outcome Error (Declared × Resolved)
resolve_declared config declared =
    config.resolve_environment declared.name none >>= λ resolved. returned (declared, resolved)

abbrev pub resolved_dict : List (Declared × Resolved) → OrderedDict String Resolved
resolved_dict pairs = map (λ pair. (pair.0.name, pair.1)) pairs

unfoldable pub subdirs : (String → String) → List String → OrderedDict String String
unfolding insert
subdirs platform_subdir platforms = collect [] platforms
  where
    collect : OrderedDict String String → List String → OrderedDict String String
    collect d [] = d
    collect d (u ∷ us) = collect (insert u (platform_subdir u) d) us

unfoldable pub available : List (Declared × Resolved) → List WorkspaceEnvironment
unfolding subdirs
available pairs =
    map
      (λ pair. record {
        name = pair.0.name;
        features = pair.0.features;
        no_default_feature = pair.0.no_default_feature;
        platforms = subdirs pair.1.platform_subdir pair.1.platforms;
      })
      pairs

-- `not selectors` for selectors that are given
abbrev pub is_given_empty : Option (List String) → Bool
is_given_empty none = false
is_given_empty (some xs) = is_empty xs

abbrev pub names_of : Option (List String) → WorkspaceConfig → List String
names_of none config = dedupe (map (λ declared. declared.name) config.environments)
names_of (some names) config = dedupe names

unfoldable pub parse_result :
    String → List (Declared × Resolved) → List WorkspaceTarget → WorkspaceParseResult
unfolding available
parse_result format pairs selected = record {
  format = format;
  environments = available pairs;
  selected = selected;
}

abbrev pub values {ℓ} : {V : Type ℓ} → OrderedDict String V → List V
values d = map (λ entry. entry.1) d

module _ (lib : Libraries) where
  abbrev pub requirement_of : PypiDependency → Option Requirement
  requirement_of dependency =
      lib.requirement
        (dependency.name <> (extras_text dependency.extras <> version_spec dependency.spec))

  abbrev pub states : PypiDependency → Option Requirement → Bool
  states dependency none = false
  states dependency (some requirement) =
      (requirement.name == dependency.name)
      && (same_set requirement.extras dependency.extras
          && (not (given requirement.url)
              && (not (is_some requirement.marker)
                  && all (λ s. not (s.0 == "===") || lib.is_version s.1) requirement.specifier)))

  unfoldable pub check_conda : (name : String) → Dependency → Check
  check_conda name dependency =
      refuse_if (given dependency.url) (url_dependency name dependency.name)

  unfoldable pub check_pypi : (name : String) → PypiDependency → Check
  check_pypi name dependency =
      if given dependency.path || (given dependency.git || given dependency.url)
      then raised (source_dependency name dependency.name)
      else refuse_if (not (states dependency (requirement_of dependency)))
          (invalid_requirement name dependency.name)

  module _ (limits : Limits) where
    unfoldable pub compose : (name platform subdir : String) → Resolved → WorkspaceTarget
    compose name platform subdir resolved = record {
      environment = name;
      platform = platform;
      subdir = subdir;
      specs = resolved.requested_packages;
      channels = map lib.redact_channel_name resolved.channels;
      channel_priority = resolved.channel_priority;
      system_requirements = resolved.system_requirements;
      pypi_dependencies = map (λ entry. (entry.0, entry.1.to_toml)) resolved.pypi_dependencies;
    }

    unfoldable pub compose_checked :
        (name platform subdir : String) → Resolved → Outcome Error WorkspaceTarget
    unfolding compose check_each check_conda check_pypi
    compose_checked name platform subdir resolved =
        check_each (check_conda name)
          (resolved.conda_dependencies ++ resolved.system_requirement_specs)
        >>= λ _. check_each (check_pypi name) (values resolved.pypi_dependencies) >>= λ _.
            refuse_if (lacks_pypi resolved.pypi_dependencies lib.has_conda_pypi)
              (needs_conda_pypi name)
            >>= λ _.
                refuse_if
                  (ltb limits.max_specs
                    (length resolved.requested_packages + length resolved.pypi_dependencies))
                  (too_many_specs name)
                >>= λ _.
                    refuse_if (ltb limits.max_channels (length resolved.channels))
                      (too_many_channels name)
                    >>= λ _. returned (compose name platform subdir resolved)

    -- `target`
    unfoldable pub target : WorkspaceConfig → Plan → Outcome Error WorkspaceTarget
    unfolding compose_checked
    target config plan =
        config.resolve_environment plan.environment (some plan.target)
        >>= compose_checked plan.environment plan.target plan.subdir

    -- the selection, when there are selectors
    unfoldable pub select_targets :
        WorkspaceConfig
        → String
        → (environments platforms : Option (List String)) → List (Declared × Resolved)
        → Outcome Error WorkspaceInput
    unfolding plan_names target parse_result traverse
    select_targets config format environments platforms pairs =
        plan_names limits platforms (resolved_dict pairs) (names_of environments config) []
        >>= traverse (target config)
        >>= λ selected.
            returned (record { config = config; result = parse_result format pairs selected })

    -- `from_config`
    unfoldable pub from_config :
        WorkspaceConfig
        → String
        → (environments platforms : Option (List String)) → Outcome Error WorkspaceInput
    unfolding select_targets resolve_declared traverse
    from_config config format environments platforms =
        if is_given_empty environments || is_given_empty platforms
        then raised empty_selectors
        else traverse (resolve_declared config) config.environments >>= λ pairs.
            if is_absent environments && is_absent platforms
            then returned (record { config = config; result = parse_result format pairs [] })
            else select_targets config format environments platforms pairs

    -- `select`
    unfoldable pub select :
        WorkspaceInput
        → (environments platforms : Option (List String)) → Outcome Error WorkspaceInput
    unfolding from_config
    select self (some environments) platforms =
        from_config self.config self.result.format (some environments) platforms
    select self none platforms =
        from_config self.config self.result.format
          (some (map (λ declared. declared.name) self.config.environments)) platforms
