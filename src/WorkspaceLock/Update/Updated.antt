-- ===== src/WorkspaceLock/Update/Updated.antt =====
-- What an update returns.
use mathlib.Core.Path.{subst}
use conda_presto.Prelude.{
  ◌≡◌, refl, sym, ap, ◌∙◌, true, false, all, List, [], ◌∷◌, arith, some, Bool-cases, inl, inr,
  string_eq, option_eq, ==_refl,
}
use conda_presto.Exceptions.Text.{Text, codes}
use conda_presto.InputFile.Process.{replace}
use conda_presto.Resolve.Dispatch.{Outcome, returned, raised}
use conda_presto.Workspace.Error.{Error, ◌>>=◌, bind-eq-returned}
use conda_presto.Workspace.Output.{workspaces_lock}
use conda_presto.Workspace.Solve.{Raised, message_of}
use conda_presto.WorkspaceLock.Loader.{WorkspaceLockInput}
use conda_presto.WorkspaceLock.Input.{
  WorkspaceLockTargetCheck, WorkspaceLockCheckResult, WorkspaceLockUpdate, check_consistency,
}
use conda_presto.WorkspaceLock.Input.Consistent.{IsComplete, check_consistency-IsComplete}
use conda_presto.WorkspaceLock.Update.{
  UpdateResult, updated, solve_failed, inconsistent, Updating, first_mismatch, lift, reread,
  update_lock, conclude, solve,
}

lift-returned {ℓ} :
    {A : Type ℓ} (env : Updating) (o : Outcome Error A) (a : A)
    → lift env o ≡ returned a
    → o ≡ returned a
lift-returned env (returned b) a h = let same : b ≡ a = cc h in ap returned same
lift-returned env (raised error) a h = cc h

-- The first check of a list that is not consistent.
pub data FirstMismatch : List WorkspaceLockTargetCheck → WorkspaceLockTargetCheck → Type 0 where
  first :
      (check : WorkspaceLockTargetCheck) (checks : List WorkspaceLockTargetCheck)
      → check.consistent ≡ false
      → FirstMismatch (check ∷ checks) check
  later :
      (check mismatch : WorkspaceLockTargetCheck) (checks : List WorkspaceLockTargetCheck)
      → check.consistent ≡ true
      → FirstMismatch checks mismatch
      → FirstMismatch (check ∷ checks) mismatch

first_mismatch-FirstMismatch :
    (checks : List WorkspaceLockTargetCheck)
    → all (λ c. c.consistent) checks ≡ false
    → (mismatch : WorkspaceLockTargetCheck) × (first_mismatch checks ≡ some mismatch)
      × FirstMismatch checks mismatch
unfolding first_mismatch
first_mismatch-FirstMismatch [] h = cc h
first_mismatch-FirstMismatch (check ∷ checks) h = elim (Bool-cases check.consistent) [
  | inl c ↦
      let (mismatch, found, rest) = first_mismatch-FirstMismatch checks (ground (arith, h)) in
      (mismatch, rw (c, found) refl, later check mismatch checks c rest)
  | inr c ↦ (check, rw c refl, first check checks c)
]

module _ (env : Updating) where
  -- The content was rendered from the lock as it was read again, and was checked as it is read.
  pub record IsRendered (update : WorkspaceLockUpdate) (content : Text)
      (check : WorkspaceLockCheckResult) : Type 0 where
    pub baseline : WorkspaceLockInput
    pub reads_baseline : reread env (env.dump update.lock) ≡ returned baseline
    pub renders : env.render_lockfile baseline update ≡ returned content
    pub again : WorkspaceLockInput
    pub reads_again : reread env content ≡ returned again
    pub complete : IsComplete env.conda env.limits again check

  -- What `solve` may end in for a format.
  pub data Ended (update : WorkspaceLockUpdate) : UpdateResult → Type 0 where
    complete :
        (content : Text) (check : WorkspaceLockCheckResult)
        → IsRendered update content check
        → check.consistent ≡ true
        → Ended update (updated content)
    failed :
        (r : Raised)
        → update_lock env update ≡ raised r
        → Ended update (
            solve_failed update.target.environment update.target.platform
              (replace env.directory (codes "[temporary-directory]") (message_of r)))
    differs :
        (content : Text) (check : WorkspaceLockCheckResult) (mismatch : WorkspaceLockTargetCheck)
        → IsRendered update content check
        → FirstMismatch check.targets mismatch
        → Ended update
            (inconsistent update.target.environment update.target.platform (some mismatch))

  update_lock-Read :
      (update : WorkspaceLockUpdate) (content : Text) (check : WorkspaceLockCheckResult)
      → update_lock env update ≡ returned (content, check)
      → IsRendered update content check
  unfolding update_lock
  update_lock-Read update content check h =
      let (baseline, reads_baseline, rest) =
        bind-eq-returned (reread env (env.dump update.lock))
          (λ lock. env.render_lockfile lock update >>= λ content. reread env content >>= λ again.
            lift env (check_consistency env.conda env.limits again) >>= λ check.
            returned (content, check))
          (content, check) h in
      let (text, renders, rest_2) =
        bind-eq-returned (env.render_lockfile baseline update)
          (λ content. reread env content >>= λ again.
            lift env (check_consistency env.conda env.limits again) >>= λ check.
            returned (content, check))
          (content, check) rest in
      let (again, reads_again, rest_3) =
        bind-eq-returned (reread env text)
          (λ again. lift env (check_consistency env.conda env.limits again) >>= λ check.
            returned (text, check))
          (content, check) rest_2 in
      let (result, checks, last) =
        bind-eq-returned (lift env (check_consistency env.conda env.limits again))
          (λ check. returned (text, check)) (content, check) rest_3 in
      let same_text : text ≡ content = cc last in
      let same_check : result ≡ check = cc last in
      let rendered : IsRendered update text result = record {
        baseline = baseline;
        reads_baseline = reads_baseline;
        renders = renders;
        again = again;
        reads_again = reads_again;
        complete =
            check_consistency-IsComplete env.conda env.limits again result
              (lift-returned env (check_consistency env.conda env.limits again) result checks);
      } in
      subst (λ c. IsRendered update content c) same_check
        (subst (λ t. IsRendered update t result) same_text rendered)

  differs-Ended :
      (update : WorkspaceLockUpdate) (content : Text) (check : WorkspaceLockCheckResult)
      → IsRendered update content check
      → check.consistent ≡ false
      → Ended update (
          inconsistent update.target.environment update.target.platform
            (first_mismatch check.targets))
  differs-Ended update content check r h =
      let (mismatch, found, is_first) =
        first_mismatch-FirstMismatch check.targets (sym r.complete.verdict ∙ h) in
      rw found (differs content check mismatch r is_first)

  conclude-Ended :
      (update : WorkspaceLockUpdate) (o : Outcome Raised (Text × WorkspaceLockCheckResult))
      → update_lock env update ≡ o
      → Ended update (conclude env update.target o)
  unfolding conclude
  conclude-Ended update (raised r) h = failed r h
  conclude-Ended update (returned (content, check)) h = elim (Bool-cases check.consistent) [
    | inl c ↦ rw c (complete content check (update_lock-Read update content check h) c)
    | inr c ↦ rw c (differs-Ended update content check (update_lock-Read update content check h) c)
  ]

  -- An update returns a lock only as conda_workspaces rendered it from the baseline that was read
  -- again with its manifest, and only if that lock, read in turn, is consistent on every declared
  -- target. Otherwise `WorkspaceSolveError` is raised for the target of the update: with the safe
  -- message of the exception, its folder replaced, or for the first target of that complete check
  -- which is inconsistent.
  pub solve-Ended :
      (update : WorkspaceLockUpdate) → Ended update (solve env update (some workspaces_lock))
  unfolding solve
  solve-Ended update =
      rw (==_refl (some workspaces_lock)) (conclude-Ended update (update_lock env update) refl)
