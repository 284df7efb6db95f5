-- ===== src/Exporter/Declared.antt =====
-- What an accepted export of declarations renders.
use conda_presto.Prelude.{
  ◌≡◌, refl, ◌⊎◌, inl, inr, Bool, true, false, Option, none, some, List, [], ◌∷◌, length, nat_eq,
  ◌==◌, ==→eq, if◌then◌else◌, arith,
}
use conda_presto.Exporter.{
  Callback, Exporter, Validated, accepted, needs_solved_records, select_one_target, Rendered,
  validate_single, validate_declared_input, export_each, with_media_type, render_with, render,
  unknown_format,
}

one_target : (b : Bool) → (if b then accepted else select_one_target) ≡ accepted → b ≡ true
one_target true h = refl
one_target false h = cc h

module _ {Env E : Type 0} (exporter : Exporter Env E) where
  -- All targets at once, or the one target that there is; or a plugin without functions.
  abbrev pub IsDeclaredExport : List Env → Rendered E → Type 0
  IsDeclaredExport envs r =
      ((callback : Callback (List Env) E) × (exporter.multiplatform_export ≡ some callback)
        × (r ≡ with_media_type exporter (callback.call envs)))
      ⊎ ((env : Env) × (envs ≡ env ∷ [])
          × (((callback : Callback Env E) × (exporter.export ≡ some callback)
                × (r ≡ with_media_type exporter (callback.call env)))
              ⊎ ((exporter.export ≡ none) × (r ≡ unknown_format exporter.format_name))))

  render_one :
      (env : Env) (export : Option (Callback Env E))
      → exporter.export ≡ export
      → ((callback : Callback Env E) × (exporter.export ≡ some callback)
          × (render_with exporter none export (env ∷ [])
              ≡ with_media_type exporter (callback.call env)))
        ⊎ ((exporter.export ≡ none)
            × (render_with exporter none export (env ∷ []) ≡ unknown_format exporter.format_name))
  unfolding render_with export_each
  render_one env (some callback) e = inl (callback, e, refl)
  render_one env none e = inr (e, refl)

  render_single :
      (envs : List Env)
      → length envs ≡ 1
      → IsDeclaredExport envs (render_with exporter none exporter.export envs)
  render_single [] n = absurd (omega (arith, n))
  render_single (env ∷ []) n = inr (env, refl, render_one env exporter.export refl)
  render_single (env ∷ next ∷ envs) n = absurd (omega (arith, n))

  render_any :
      (envs : List Env) (o : Option (Callback (List Env) E))
      → exporter.multiplatform_export ≡ o
      → validate_single exporter o (length envs) ≡ accepted
      → IsDeclaredExport envs (render_with exporter o exporter.export envs)
  render_any envs (some callback) m v = inl (callback, m, unfold render_with in refl)
  render_any envs none m v =
      render_single envs
        (==→eq (length envs) 1 (one_target (length envs == 1) (unfold validate_single in v)))

  not_lockfile :
      (b : Bool) (d : Validated)
      → (if b then needs_solved_records exporter.format_name else d) ≡ accepted
      → d ≡ accepted
  not_lockfile true d h = cc h
  not_lockfile false d h = h

  -- When `validate_declared_input` accepts the number of the targets, `render` gives all of them to
  -- the plugin's function for several, or gives the only one to its function for one, so that no
  -- bodies are joined; without either function it raises `UnknownFormatError`.
  pub render-IsDeclaredExport :
      (envs : List Env)
      → validate_declared_input exporter (length envs) ≡ accepted
      → IsDeclaredExport envs (render exporter envs)
  unfolding validate_declared_input render
  render-IsDeclaredExport envs v =
      render_any envs exporter.multiplatform_export refl (not_lockfile exporter.is_lockfile _ v)
