-- ===== src/WorkspaceLock/Input/Verified.antt =====
-- What an environment of the lock is verified against.
use mathlib.Core.Path.{subst}
use conda_presto.Prelude.{
  String, ◌≡◌, refl, Bool, true, false, not, Option, none, some, List, [], map, affirmed, ==→eq,
  string_eq, list_eq, ◌==◌, if◌then◌else◌,
}
use conda_presto.Resolve.Dispatch.{Outcome, returned}
use conda_presto.Workspace.Error.{
  Error, ◌>>=◌, bind-eq-returned, platform_mismatch, manifest_has_pypi, channels_mismatch,
}
use conda_presto.Workspace.Config.{Resolved, WorkspaceTarget, WorkspaceInput, Limits}
use conda_presto.Workspace.Select.{is_empty}
use conda_presto.Workspace.Input.{refuse_if}
use conda_presto.Workspace.Input.Composed.{passes, refused_if}
use conda_presto.WorkspaceLock.Loader.{
  SavedEnvironment, Loader, WorkspaceLockTarget, WorkspaceLockInput,
}
use conda_presto.WorkspaceLock.Input.{
  Conda, mismatched, declared_target, with_requested, verified_environment, saved_environment,
  environment_with, environment,
}

module _ (conda : Conda) (limits : Limits) where
  -- The saved records of a target, on a known subdir. With a manifest: for a declared target on the
  -- same subdir, without PyPI dependencies, and with the same channels in the same order. Requested
  -- packages are only named from a manifest.
  pub data Verified (loader : Loader) (target : WorkspaceLockTarget) (include : Bool)
      : Option WorkspaceInput → SavedEnvironment → Type 0 where
    from_lock :
        (subdir : String) (saved : SavedEnvironment)
        → target.subdir ≡ some subdir
        → loader.env_for target.platform target.environment subdir ≡ returned saved
        → Verified loader target include none (record saved { requested_packages = [] })
    with_declared :
        (manifest : WorkspaceInput) (declared : WorkspaceTarget) (resolved : Resolved)
        (saved : SavedEnvironment) (requested : List String)
        → declared_target conda limits manifest target.environment target.platform
          ≡ returned declared
        → mismatched target.subdir declared.subdir ≡ false
        → manifest.config.resolve_environment target.environment (some declared.platform)
          ≡ returned resolved
        → is_empty resolved.pypi_dependencies ≡ true
        → loader.env_for target.platform target.environment declared.subdir ≡ returned saved
        → map conda.canonical_name resolved.channels ≡ map conda.canonical_name saved.channels
        → conda.requested_packages_for_export resolved saved.explicit_packages ≡ returned requested
        → Verified loader target include
            (some manifest)
            (record saved { requested_packages = if include then requested else [] })

  saved_environment-Verified :
      (loader : Loader) (target : WorkspaceLockTarget) (include : Bool) (subdir : Option String)
      (env : SavedEnvironment)
      → target.subdir ≡ subdir
      → saved_environment conda limits loader target subdir ≡ returned env
      → Verified loader target include none env
  unfolding saved_environment
  saved_environment-Verified loader target include none env s h = cc h
  saved_environment-Verified loader target include (some subdir) env s h =
      let (saved, found, last) =
        bind-eq-returned (loader.env_for target.platform target.environment subdir)
          (λ env. returned (with_requested conda limits false env [])) env h in
      let same : record saved { requested_packages = [] } ≡ env = cc last in
      subst (Verified loader target include none) same (from_lock subdir saved s found)

  verified_environment-Verified :
      (loader : Loader) (manifest : WorkspaceInput) (target : WorkspaceLockTarget) (include : Bool)
      (declared : WorkspaceTarget) (env : SavedEnvironment)
      → declared_target conda limits manifest target.environment target.platform ≡ returned declared
      → verified_environment conda limits loader manifest target include declared ≡ returned env
      → Verified loader target include (some manifest) env
  unfolding verified_environment
  verified_environment-Verified loader manifest target include declared env d h =
      let names : List String → List String = map conda.canonical_name in
      let differ : Resolved → SavedEnvironment → Bool =
        λ resolved saved. not (names resolved.channels == names saved.channels) in
      let made : Resolved → SavedEnvironment → Outcome Error SavedEnvironment = λ resolved saved.
        conda.requested_packages_for_export resolved saved.explicit_packages >>= λ requested.
        returned (with_requested conda limits include saved requested) in
      let on_saved : Resolved → Outcome Error SavedEnvironment = λ resolved.
        loader.env_for target.platform target.environment declared.subdir >>= λ saved.
        refuse_if (differ resolved saved) channels_mismatch >>= λ _. made resolved saved in
      let on_resolved : Outcome Error SavedEnvironment =
        manifest.config.resolve_environment target.environment (some declared.platform)
        >>= λ resolved.
            refuse_if (not (is_empty resolved.pypi_dependencies)) manifest_has_pypi >>= λ _.
            on_saved resolved in
      let ((u, same_subdir), rest) =
        passes (refuse_if (mismatched target.subdir declared.subdir) platform_mismatch) on_resolved
          env h in
      let (resolved, resolves, rest_2) =
        bind-eq-returned
          (manifest.config.resolve_environment target.environment (some declared.platform))
          (λ resolved.
            refuse_if (not (is_empty resolved.pypi_dependencies)) manifest_has_pypi >>= λ _.
            on_saved resolved)
          env rest in
      let ((v, no_pypi), rest_3) =
        passes (refuse_if (not (is_empty resolved.pypi_dependencies)) manifest_has_pypi)
          (on_saved resolved) env rest_2 in
      let (saved, found, rest_4) =
        bind-eq-returned (loader.env_for target.platform target.environment declared.subdir)
          (λ saved.
            refuse_if (differ resolved saved) channels_mismatch >>= λ _. made resolved saved)
          env rest_3 in
      let ((x, agree), rest_5) =
        passes (refuse_if (differ resolved saved) channels_mismatch) (made resolved saved) env
          rest_4 in
      let (requested, asks, last) =
        bind-eq-returned (conda.requested_packages_for_export resolved saved.explicit_packages)
          (λ requested. returned (with_requested conda limits include saved requested)) env
          rest_5 in
      let same : record saved { requested_packages = if include then requested else [] } ≡ env =
        cc last in
      subst (Verified loader target include (some manifest)) same (
        with_declared manifest declared resolved saved requested d
          (refused_if (mismatched target.subdir declared.subdir) platform_mismatch u same_subdir)
          resolves
          (affirmed (is_empty resolved.pypi_dependencies)
            (refused_if (not (is_empty resolved.pypi_dependencies)) manifest_has_pypi v no_pypi))
          found
          (==→eq (names resolved.channels) (names saved.channels) (
            affirmed (names resolved.channels == names saved.channels)
              (refused_if (differ resolved saved) channels_mismatch x agree)))
          asks)

  environment_with-Verified :
      (manifest : Option WorkspaceInput) (loader : Loader) (target : WorkspaceLockTarget)
      (include : Bool) (env : SavedEnvironment)
      → environment_with conda limits manifest loader target include ≡ returned env
      → Verified loader target include manifest env
  unfolding environment_with
  environment_with-Verified none loader target include env h =
      saved_environment-Verified loader target include target.subdir env refl h
  environment_with-Verified (some manifest) loader target include env h =
      let (declared, found, rest) =
        bind-eq-returned (declared_target conda limits manifest target.environment target.platform)
          (verified_environment conda limits loader manifest target include) env h in
      verified_environment-Verified loader manifest target include declared env found rest

  -- An environment that is loaded from a lock has the saved records of its target on a known subdir.
  -- With a companion manifest the target is a declared one on the same subdir, it has no PyPI
  -- dependencies, and the manifest's channels are those of the lock, in their order. Requested
  -- packages are named only on request and from a manifest.
  pub environment-Verified :
      (self : WorkspaceLockInput) (target : WorkspaceLockTarget) (include : Bool)
      (env : SavedEnvironment)
      → environment conda limits self target include ≡ returned env
      → Verified self.loader target include self.manifest env
  unfolding environment
  environment-Verified self target include env h =
      environment_with-Verified self.manifest self.loader target include env h
