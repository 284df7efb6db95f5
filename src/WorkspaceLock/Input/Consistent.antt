-- ===== src/WorkspaceLock/Input/Consistent.antt =====
-- What a consistency check has looked at.
use mathlib.Core.Path.{subst}
use conda_presto.Prelude.{◌≡◌, refl, false, not, Option, none, some, any, all}
use conda_presto.OrderedDict.{keys}
use conda_presto.Resolve.Dispatch.{returned}
use conda_presto.Workspace.Error.{
  ◌>>=◌, bind-eq-returned, traverse, Answers, traverse-Answers, nothing_declared, pypi_unsupported,
  archspec_unsupported,
}
use conda_presto.Workspace.Config.{WorkspaceInput, Limits}
use conda_presto.Workspace.Select.{is_empty}
use conda_presto.Workspace.Input.{refuse_if, check_each, select}
use conda_presto.Workspace.Input.Composed.{passes, refused_if}
use conda_presto.WorkspaceLock.Loader.{WorkspaceLockInput}
use conda_presto.WorkspaceLock.Input.{
  Conda, WorkspaceLockCheckResult, is_archspec, check_saved, check_target, checked_result,
  check_targets, check_with, check_consistency,
}

module _ (conda : Conda) (limits : Limits) (self : WorkspaceLockInput) where
  -- A check of all declared targets, at least one: each has the answer of conda_workspaces for it.
  pub record IsComplete (check : WorkspaceLockCheckResult) : Type 0 where
    pub manifest : WorkspaceInput
    pub has_manifest : self.manifest ≡ some manifest
    pub declared : WorkspaceInput
    pub selects : select conda.libraries limits manifest none none ≡ returned declared
    pub some_target : is_empty declared.result.selected ≡ false
    pub no_pypi : any (λ t. not (is_empty t.pypi_dependencies)) declared.result.selected ≡ false
    pub no_archspec :
        any (λ t. any is_archspec (keys t.system_requirements)) declared.result.selected ≡ false
    pub answers :
        Answers
          (check_target conda limits self.loader manifest.config)
          declared.result.selected
          check.targets
    pub verdict : check.consistent ≡ all (λ c. c.consistent) check.targets

  check_targets-IsComplete :
      (manifest w : WorkspaceInput) (check : WorkspaceLockCheckResult)
      → self.manifest ≡ some manifest
      → select conda.libraries limits manifest none none ≡ returned w
      → check_targets conda limits self manifest.config w.result.selected ≡ returned check
      → IsComplete check
  unfolding check_targets
  check_targets-IsComplete manifest w check m s h =
      let targets = w.result.selected in
      let with_pypi = any (λ t. not (is_empty t.pypi_dependencies)) targets in
      let with_archspec = any (λ t. any is_archspec (keys t.system_requirements)) targets in
      let each = check_target conda limits self.loader manifest.config in
      let last = traverse each targets >>= λ checks. returned (checked_result checks) in
      let saved = check_each (check_saved conda limits self.loader) self.environments in
      let ((u, nonempty), rest) =
        passes (refuse_if (is_empty targets) nothing_declared)
          (refuse_if with_pypi pypi_unsupported >>= λ _.
            refuse_if with_archspec archspec_unsupported >>= λ _. saved >>= λ _. last)
          check h in
      let ((v, plain), rest_2) =
        passes (refuse_if with_pypi pypi_unsupported)
          (refuse_if with_archspec archspec_unsupported >>= λ _. saved >>= λ _. last) check rest in
      let ((x, portable), rest_3) =
        passes (refuse_if with_archspec archspec_unsupported) (saved >>= λ _. last) check rest_2 in
      let (_, rest_4) = passes saved last check rest_3 in
      let (checks, answers, made) =
        bind-eq-returned (traverse each targets) (λ checks. returned (checked_result checks)) check
          rest_4 in
      let same : checked_result checks ≡ check = cc made in
      subst IsComplete same (record {
        manifest = manifest;
        has_manifest = m;
        declared = w;
        selects = s;
        some_target = refused_if (is_empty targets) nothing_declared u nonempty;
        no_pypi = refused_if with_pypi pypi_unsupported v plain;
        no_archspec = refused_if with_archspec archspec_unsupported x portable;
        answers = traverse-Answers each targets checks answers;
        verdict = refl;
      })

  check_with-IsComplete :
      (manifest : Option WorkspaceInput) (check : WorkspaceLockCheckResult)
      → self.manifest ≡ manifest
      → check_with conda limits self manifest ≡ returned check
      → IsComplete check
  unfolding check_with
  check_with-IsComplete none check m h = cc h
  check_with-IsComplete (some manifest) check m h =
      let (w, selects, rest) =
        bind-eq-returned (select conda.libraries limits manifest none none)
          (λ w. check_targets conda limits self manifest.config w.result.selected) check h in
      check_targets-IsComplete manifest w check m selects rest

  pub check_consistency-IsComplete :
      (check : WorkspaceLockCheckResult)
      → check_consistency conda limits self ≡ returned check
      → IsComplete check
  unfolding check_consistency
  check_consistency-IsComplete check h = check_with-IsComplete self.manifest check refl h
