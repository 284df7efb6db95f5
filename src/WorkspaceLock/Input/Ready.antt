-- ===== src/WorkspaceLock/Input/Ready.antt =====
-- What an update starts from.
use mathlib.Core.Path.{subst}
use conda_presto.Prelude.{
  ◌≤◌, String, ◌≡◌, refl, sym, ◌∙◌, ap, affirmed, true, false, not, ◌||◌, Option, none, some, List,
  [], ◌∷◌, map, ltb, length, All, string_eq, contains, ◌==◌, ==→eq, or_split,
}
use conda_presto.Resolve.Dispatch.{Outcome, returned}
use conda_presto.App.Caps.{sorted, difference, difference-known}
use conda_presto.Workspace.Error.{
  Error, ◌>>=◌, bind-eq-returned, update_incomplete, too_many_packages, target_not_exact,
  packages_not_declared, packages_not_installed,
}
use conda_presto.Workspace.Config.{Resolved, WorkspaceTarget, WorkspaceInput, Limits}
use conda_presto.Workspace.Select.{is_empty}
use conda_presto.Workspace.Input.{Check, refuse_if}
use conda_presto.Workspace.Input.Composed.{passes, not_over, refused_if}
use conda_presto.WorkspaceLock.Loader.{PackageRecord, WorkspaceLockInput}
use conda_presto.WorkspaceLock.Input.Consistent.{IsComplete, check_consistency-IsComplete}
use conda_presto.WorkspaceLock.Input.{
  Conda, WorkspaceLockCheckResult, WorkspaceLockUpdate, declared_target, check_consistency,
  baseline_error, lacking, update_of, update_with, prepare_update,
}

lacking_none :
    (packages known : List String) (error : List String → Error) (u : Unit {0})
    → lacking (difference packages known) error ≡ returned u
    → All (λ p. contains known p ≡ true) packages
lacking_none packages known error u h = difference-known packages known (
    nothing (difference packages known) (
      refused_if (not (is_empty (difference packages known)))
        (error (sorted (difference packages known))) u h))
  where
    nothing : (names : List String) → not (is_empty names) ≡ false → sorted names ≡ []
    nothing [] e = refl
    nothing (n ∷ ns) e = cc e

module _ (conda : Conda) (limits : Limits) (self : WorkspaceLockInput) where
  -- An update of roots that the manifest declares and the lock has, for an exact declared target.
  pub record IsRooted (environment platform : String) (packages : List String)
      (u : WorkspaceLockUpdate) : Type 0 where
    pub manifest : WorkspaceInput
    pub has_manifest : self.manifest ≡ some manifest
    pub resolved : Resolved
    pub resolves :
        manifest.config.resolve_environment environment (some platform) ≡ returned resolved
    pub records : List PackageRecord
    pub has_records : self.loader.package_records environment platform ≡ returned records
    pub declared :
        All (λ p. contains (map (λ d. d.name) resolved.conda_dependencies) p ≡ true) packages
    pub installed : All (λ p. contains (map (λ r. r.name) records) p ≡ true) packages
    pub exact : u.target.platform ≡ platform
    pub roots : u.packages ≡ sorted packages
    pub same_lock : u.lock ≡ self

  update_of-IsRooted :
      (manifest : WorkspaceInput) (environment platform : String) (packages : List String)
      (u : WorkspaceLockUpdate)
      → self.manifest ≡ some manifest
      → update_of conda limits self manifest environment platform packages ≡ returned u
      → IsRooted environment platform packages u
  unfolding update_of
  update_of-IsRooted manifest environment platform packages u m h =
      let declares : Resolved → Check = λ resolved.
        lacking (difference packages (map (λ d. d.name) resolved.conda_dependencies))
          packages_not_declared in
      let has : List PackageRecord → Check = λ records.
        lacking (difference packages (map (λ r. r.name) records)) packages_not_installed in
      let made : WorkspaceTarget → Outcome Error WorkspaceLockUpdate =
        λ target. returned (record { lock = self; target = target; packages = sorted packages }) in
      let on_records : WorkspaceTarget → Outcome Error WorkspaceLockUpdate = λ target.
        self.loader.package_records environment target.platform >>= λ records.
        has records >>= λ _. made target in
      let on_resolved : WorkspaceTarget → Outcome Error WorkspaceLockUpdate = λ target.
        manifest.config.resolve_environment environment (some target.platform) >>= λ resolved.
        declares resolved >>= λ _. on_records target in
      let (target, _, rest) =
        bind-eq-returned (declared_target conda limits manifest environment platform)
          (λ target. refuse_if (not (target.platform == platform)) target_not_exact >>= λ _.
            on_resolved target)
          u h in
      let ((v, same_name), rest_2) =
        passes (refuse_if (not (target.platform == platform)) target_not_exact) (on_resolved target)
          u rest in
      let (resolved, resolves, rest_3) =
        bind-eq-returned (manifest.config.resolve_environment environment (some target.platform))
          (λ resolved. declares resolved >>= λ _. on_records target) u rest_2 in
      let ((x, declared), rest_4) = passes (declares resolved) (on_records target) u rest_3 in
      let (records, has_records, rest_5) =
        bind-eq-returned (self.loader.package_records environment target.platform)
          (λ records. has records >>= λ _. made target) u rest_4 in
      let ((y, installed), last) = passes (has records) (made target) u rest_5 in
      let same : record { lock = self; target = target; packages = sorted packages } ≡ u =
        cc last in
      let exact : target.platform ≡ platform = ==→eq target.platform platform (
        affirmed (target.platform == platform)
          (refused_if (not (target.platform == platform)) target_not_exact v same_name)) in
      record {
        manifest = manifest;
        has_manifest = m;
        resolved = resolved;
        resolves =
            subst
              (λ p. manifest.config.resolve_environment environment (some p) ≡ returned resolved)
              exact resolves;
        records = records;
        has_records =
            subst (λ p. self.loader.package_records environment p ≡ returned records) exact
              has_records;
        declared =
            lacking_none packages (map (λ d. d.name) resolved.conda_dependencies)
              packages_not_declared x declared;
        installed =
            lacking_none packages (map (λ r. r.name) records) packages_not_installed y installed;
        exact = ap (λ w. w.target.platform) (sym same) ∙ exact;
        roots = ap (λ w. w.packages) (sym same);
        same_lock = ap (λ w. w.lock) (sym same);
      }

  update_with-IsRooted :
      (manifest : Option WorkspaceInput) (environment platform : String) (packages : List String)
      (u : WorkspaceLockUpdate)
      → self.manifest ≡ manifest
      → update_with conda limits self manifest environment platform packages ≡ returned u
      → IsRooted environment platform packages u
  unfolding update_with
  update_with-IsRooted none environment platform packages u m h = cc h
  update_with-IsRooted (some manifest) environment platform packages u m h =
      update_of-IsRooted manifest environment platform packages u m h

  -- An update that may be solved: of a lock that is consistent with its manifest.
  pub record IsReady (environment platform : String) (packages : List String)
      (u : WorkspaceLockUpdate) : Type 0 where
    pub check : WorkspaceLockCheckResult
    pub complete : IsComplete conda limits self check
    pub consistent : check.consistent ≡ true
    pub some_package : is_empty packages ≡ false
    pub bounded : length packages ≤ limits.max_specs
    pub rooted : IsRooted environment platform packages u

  -- `prepare_update` starts an update only of a lock that is consistent with its manifest on every
  -- declared target. There is a package to update, and at most `MAX_SPECS`; each is a direct conda
  -- dependency that the manifest declares for the target and has a record in the lock; the target is
  -- named exactly; and the packages of the update are those, sorted and each once.
  pub prepare_update-IsReady :
      (environment platform : String) (packages : List String) (u : WorkspaceLockUpdate)
      → prepare_update conda limits self environment platform packages ≡ returned u
      → IsReady environment platform packages u
  unfolding prepare_update
  prepare_update-IsReady environment platform packages u h =
      let last = update_with conda limits self self.manifest environment platform packages in
      let lacks = environment == "" || (platform == "" || is_empty packages) in
      let many = ltb limits.max_specs (length packages) in
      let (check, checked, rest) =
        bind-eq-returned (check_consistency conda limits self)
          (λ check. refuse_if (not check.consistent) (baseline_error check.targets) >>= λ _.
            refuse_if lacks update_incomplete >>= λ _.
            refuse_if many too_many_packages >>= λ _. last)
          u h in
      let ((v, consistent), rest_2) =
        passes (refuse_if (not check.consistent) (baseline_error check.targets))
          (refuse_if lacks update_incomplete >>= λ _.
            refuse_if many too_many_packages >>= λ _. last)
          u rest in
      let ((x, given), rest_3) =
        passes (refuse_if lacks update_incomplete) (refuse_if many too_many_packages >>= λ _. last)
          u rest_2 in
      let ((y, few), rest_4) = passes (refuse_if many too_many_packages) last u rest_3 in
      let (_, others) =
        or_split (environment == "") (platform == "" || is_empty packages)
          (refused_if lacks update_incomplete x given) in
      let (_, filled) = or_split (platform == "") (is_empty packages) others in
      record {
        check = check;
        complete = check_consistency-IsComplete conda limits self check checked;
        consistent =
            affirmed check.consistent
              (refused_if (not check.consistent) (baseline_error check.targets) v consistent);
        some_package = filled;
        bounded = not_over limits.max_specs (length packages) too_many_packages y few;
        rooted = update_with-IsRooted self.manifest environment platform packages u refl rest_4;
      }
