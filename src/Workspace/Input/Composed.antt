-- ===== src/Workspace/Input/Composed.antt =====
-- What a composed target is made of.
use mathlib.Core.Path.{subst}
use conda_presto.Prelude.{
  affirmed, ℕ, suc, ◌+◌, ◌≤◌, String, ◌≡◌, refl, ap, Bool, true, false, not, ◌||◌, some, List, [],
  ◌∷◌, ◌++◌, length, map, All, arith, Bool-cases, inl, inr, ltb, ltb-false→le,
}
use conda_presto.Resolve.Dispatch.{Outcome, returned, raised}
use conda_presto.Workspace.Error.{
  Error, ◌>>=◌, bind-eq-returned, url_dependency, invalid_requirement, needs_conda_pypi,
  too_many_specs, too_many_channels,
}
use conda_presto.Workspace.Config.{
  Dependency, PypiDependency, Resolved, WorkspaceConfig, WorkspaceTarget, Limits,
}
use conda_presto.Workspace.Select.{Plan}
use conda_presto.Workspace.Input.{
  Libraries, Check, given, refuse_if, check_each, check_conda, check_pypi, lacks_pypi, states,
  requirement_of, values, compose, compose_checked, target,
}

check_each-All {ℓ κ} :
    {A : Type ℓ} (P : A → Type κ) (check : A → Check)
    → ((x : A) (u : Unit {0}) → check x ≡ returned u → P x)
    → (xs : List A) (u : Unit {0}) → check_each check xs ≡ returned u
    → All P xs
unfolding check_each
check_each-All P check each [] u h = tt
check_each-All P check each (x ∷ xs) u h =
    let (v, first, rest) = bind-eq-returned (check x) (λ _. check_each check xs) u h in
    (each x v first, check_each-All P check each xs u rest)

pub refused_if :
    (b : Bool) (error : Error) (u : Unit {0}) → refuse_if b error ≡ returned u → b ≡ false
refused_if true error u h = cc h
refused_if false error u h = refl

-- A check that passes leaves the rest to what follows it.
pub passes {ℓ} :
    {B : Type ℓ} (m : Check) (n : Outcome Error B) (b : B)
    → m >>= (λ _. n) ≡ returned b
    → ((u : Unit {0}) × (m ≡ returned u)) × (n ≡ returned b)
passes (returned u) n b h = ((u, refl), h)
passes (raised error) n b h = cc h

-- A guard that does not raise.
pub guard {ℓ} :
    {B : Type ℓ} (b : Bool) (error : Error) (rest : Outcome Error B) (x : B)
    → refuse_if b error >>= (λ _. rest) ≡ returned x
    → (b ≡ false) × (rest ≡ returned x)
guard true error rest x h = cc h
guard false error rest x h = (refl, h)

pub not_over :
    (limit n : ℕ) (error : Error) (u : Unit {0})
    → refuse_if (ltb limit n) error ≡ returned u
    → n ≤ limit
not_over limit n error u h = ltb-false→le limit n (refused_if (ltb limit n) error u h)

pub length-map {ℓ κ} :
    {A : Type ℓ} {B : Type κ} (f : A → B) (xs : List A) → length (map f xs) ≡ length xs
length-map f [] = refl
length-map f (x ∷ xs) = ap suc (length-map f xs)

module _ (lib : Libraries) where
  check_conda-NoUrl :
      (name : String) (d : Dependency) (u : Unit {0})
      → check_conda lib name d ≡ returned u
      → given d.url ≡ false
  unfolding check_conda
  check_conda-NoUrl name d u h = refused_if (given d.url) (url_dependency name d.name) u h

  -- A dependency on PyPI by name and version alone, as `packaging` reads it.
  pub record IsPlain (d : PypiDependency) : Type 0 where
    pub no_source : (given d.path || (given d.git || given d.url)) ≡ false
    pub stated : states lib d (requirement_of lib d) ≡ true

  check_pypi-IsPlain :
      (name : String) (d : PypiDependency) (u : Unit {0})
      → check_pypi lib name d ≡ returned u
      → IsPlain d
  unfolding check_pypi
  check_pypi-IsPlain name d u h = elim (Bool-cases (given d.path || (given d.git || given d.url))) [
    | inl e ↦ absurd (let h' = rw e at h in cc h')
    | inr e ↦ record {
      no_source = e;
      stated = affirmed (states lib d (requirement_of lib d)) (
          refused_if (not (states lib d (requirement_of lib d))) (invalid_requirement name d.name) u
            (rw e at h));
    }
  ]

  module _ (limits : Limits) where
    -- What a target was composed of, and that it is within the limits.
    pub record IsComposed (config : WorkspaceConfig) (plan : Plan) (t : WorkspaceTarget)
        : Type 0 where
      pub resolved : Resolved
      pub resolves :
          config.resolve_environment plan.environment (some plan.target) ≡ returned resolved
      pub composed : t ≡ compose lib limits plan.environment plan.target plan.subdir resolved
      pub no_urls :
          All
            (λ d. given d.url ≡ false)
            (resolved.conda_dependencies ++ resolved.system_requirement_specs)
      pub plain : All IsPlain (values resolved.pypi_dependencies)
      pub specs_bounded : length t.specs + length t.pypi_dependencies ≤ limits.max_specs
      pub channels_bounded : length t.channels ≤ limits.max_channels

    compose_checked-IsComposed :
        (config : WorkspaceConfig) (plan : Plan) (resolved : Resolved) (t : WorkspaceTarget)
        → config.resolve_environment plan.environment (some plan.target) ≡ returned resolved
        → compose_checked lib limits plan.environment plan.target plan.subdir resolved ≡ returned t
        → IsComposed config plan t
    unfolding compose_checked compose
    compose_checked-IsComposed config plan resolved t e h =
        let name = plan.environment in
        let conda = resolved.conda_dependencies ++ resolved.system_requirement_specs in
        let pypi = values resolved.pypi_dependencies in
        let made = compose lib limits name plan.target plan.subdir resolved in
        let last : Outcome Error WorkspaceTarget = returned made in
        let channels =
          refuse_if (ltb limits.max_channels (length resolved.channels)) (too_many_channels name) in
        let count = length resolved.requested_packages + length resolved.pypi_dependencies in
        let specs = refuse_if (ltb limits.max_specs count) (too_many_specs name) in
        let has_pypi =
          refuse_if (lacks_pypi resolved.pypi_dependencies lib.has_conda_pypi)
            (needs_conda_pypi name) in
        let after_specs = channels >>= λ _. last in
        let after_pypi = specs >>= λ _. after_specs in
        let after_each = has_pypi >>= λ _. after_pypi in
        let ((u, no_urls), rest) =
          passes (check_each (check_conda lib name) conda)
            (check_each (check_pypi lib name) pypi >>= λ _. after_each) t h in
        let ((v, plain), rest_2) =
          passes (check_each (check_pypi lib name) pypi) after_each t rest in
        let (_, rest_3) = passes has_pypi after_pypi t rest_2 in
        let ((w, few_specs), rest_4) = passes specs after_specs t rest_3 in
        let ((x, few_channels), rest_5) = passes channels last t rest_4 in
        let same : made ≡ t = cc rest_5 in
        let to_toml : String × PypiDependency → String × String =
          λ entry. (entry.0, entry.1.to_toml) in
        subst (λ s. IsComposed config plan s) same
          (record {
            resolved = resolved;
            resolves = e;
            composed = refl;
            no_urls =
                check_each-All (λ d. given d.url ≡ false) (check_conda lib name)
                  (check_conda-NoUrl name) conda u no_urls;
            plain =
                check_each-All IsPlain (check_pypi lib name) (check_pypi-IsPlain name) pypi v plain;
            specs_bounded = omega (
              arith,
              not_over limits.max_specs count (too_many_specs name) w few_specs,
              length-map to_toml resolved.pypi_dependencies,
            );
            channels_bounded = omega (
              arith,
              length-map lib.redact_channel_name resolved.channels,
              not_over limits.max_channels (length resolved.channels) (too_many_channels name) x
                  few_channels,
            );
          })

    -- A target that is composed is that of the plan, from what the manifest resolves to; no conda
    -- dependency of it has a URL, every PyPI dependency is a name, extras and version that packaging
    -- reads as such, and its specs, those for PyPI included, and channels are within the limits.
    pub target-IsComposed :
        (config : WorkspaceConfig) (plan : Plan) (t : WorkspaceTarget)
        → target lib limits config plan ≡ returned t
        → IsComposed config plan t
    unfolding target
    target-IsComposed config plan t h =
        let (resolved, e, made) =
          bind-eq-returned (config.resolve_environment plan.environment (some plan.target))
            (compose_checked lib limits plan.environment plan.target plan.subdir) t h in
        compose_checked-IsComposed config plan resolved t e made
