-- ===== src/Workspace/Error.antt =====
-- What the operations on a workspace raise, and how they pass it on.
use mathlib.Core.Path.{subst}
use conda_presto.Prelude.{ℕ, String, ◌≡◌, refl, List, [], ◌∷◌}
use conda_presto.Resolve.Dispatch.{Outcome, returned, raised}

-- One constructor for each `ValueError`, with what its message names; and an error of the library
-- that resolves environments, or of conda's exporters.
pub data Error : Type 0 where
  empty_selectors no_targets : Error
  unknown_environment no_platforms : (name : String) → Error
  ambiguous_platform unknown_platform : (platform name : String) → Error
  unknown_subdir : (subdir : String) → Error
  too_many_targets : (limit : ℕ) → Error
  url_dependency source_dependency invalid_requirement : (name dependency : String) → Error
  needs_conda_pypi too_many_specs too_many_channels : (name : String) → Error
  select_one_environment shared_subdir select_one_target different_channels : Error
  library_error : (message : String) → Error
  lock_has_credentials select_lock_targets too_many_lock_targets too_many_lock_channels : Error
  ambiguous_lock_target unknown_lock_target : (platform name : String) → Error
  platform_mismatch manifest_has_pypi no_subdir channels_mismatch : Error
  index_error unsupported_manifest needs_manifest nothing_declared pypi_unsupported
        archspec_unsupported :
      Error
  invalid_dependency : (spec : String) → Error
  manifest_in_extraction metadata_not_preserved needs_environment_exporter : Error
  baseline_inconsistent : (name platform : String) → Error
  update_incomplete too_many_packages target_not_exact : Error
  packages_not_declared packages_not_installed : List String → Error
  needs_companion checks_complete_only each_needs_format requires_conda_lock : Error
  filename_required content_required requires_output_format : Error
  environments_need_manifest platforms_need_manifest needs_solved_records : Error
  no_platform_requested platforms_not_in_lockfile packages_would_be_lost : Error
  duplicate_package wheel_not_transcoded wheels_unsupported value_error : Error
  no_exact_record other_subdir other_identity : Error

module _ {ℓ κ} {E : Type 0} {A : Type ℓ} {B : Type κ} where
  infixl 5 ◌>>=◌
  abbrev pub ◌>>=◌ : Outcome E A → (A → Outcome E B) → Outcome E B
  returned a >>= f = f a
  raised error >>= f = raised error

  pub bind-eq-returned :
      (m : Outcome E A) (f : A → Outcome E B) (b : B)
      → m >>= f ≡ returned b
      → (a : A) × (m ≡ returned a) × (f a ≡ returned b)
  bind-eq-returned (returned a) f b h = (a, refl, h)
  bind-eq-returned (raised error) f b h = cc h

-- `[f(x) for x in xs]`: the first that raises ends it
unfoldable pub traverse {ℓ κ} :
    {A : Type ℓ} {B : Type κ} → (A → Outcome Error B) → List A → Outcome Error (List B)
traverse f [] = returned []
traverse f (x ∷ xs) = f x >>= λ y. traverse f xs >>= λ ys. returned (y ∷ ys)

-- The results of a list's calls, each call's own.
pub data Answers {ℓ κ} {A : Type ℓ} {B : Type κ} (f : A → Outcome Error B)
    : List A → List B → Type (ℓ ⊔ κ) where
  no_more : Answers f [] []
  answer :
      (x : A) (y : B) (xs : List A) (ys : List B)
      → f x ≡ returned y
      → Answers f xs ys
      → Answers f (x ∷ xs) (y ∷ ys)

module _ {ℓ κ} {A : Type ℓ} {B : Type κ} (f : A → Outcome Error B) where
  pub traverse-Answers : (xs : List A) (ys : List B) → traverse f xs ≡ returned ys → Answers f xs ys
  unfolding traverse
  traverse-Answers [] ys h = let same : [] ≡ ys = cc h in subst (Answers f []) same no_more
  traverse-Answers (x ∷ xs) ys h =
      let (y, first, more) =
        bind-eq-returned (f x) (λ y. traverse f xs >>= λ ys. returned (y ∷ ys)) ys h in
      let (zs, rest, last) = bind-eq-returned (traverse f xs) (λ ys. returned (y ∷ ys)) ys more in
      let same : y ∷ zs ≡ ys = cc last in
      subst (Answers f (x ∷ xs)) same (answer x y xs zs first (traverse-Answers xs zs rest))
