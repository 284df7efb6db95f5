-- ===== src/Exporter/Versions.antt =====
-- Which distributions the identity of an exporter names.
use mathlib.Core.Option.{some-injective}
use conda_presto.Prelude.{String, ◌≡◌, refl, ap, sym, ◌≢◌, Option, none, some, List, [], ◌∷◌}
use conda_presto.Exceptions.Text.{Text}
use conda_presto.App.Caps.{sorted}
use conda_presto.Exporter.{Metadata, add_version, versions_of, provided_by, provider_versions}

abbrev pub names : List (String × String) → List String
names [] = []
names (x ∷ xs) = x.0 ∷ names xs

module _ (metadata : Metadata) where
  added :
      (d : String) (o : Option String) (rest : Option (List (String × String)))
      (vs : List (String × String))
      → add_version metadata d o rest ≡ some vs
      → (v : String) × (ws : List (String × String)) × (rest ≡ some ws) × (vs ≡ (d, v) ∷ ws)
  added d none rest vs h = cc h
  added d (some v) none vs h = cc h
  added d (some v) (some ws) vs h = (v, ws, refl, cc h)

  versions_of-names :
      (ds : List String) (vs : List (String × String))
      → versions_of metadata ds ≡ some vs
      → names vs ≡ ds
  unfolding versions_of
  versions_of-names [] vs h = ap names (sym (some-injective [] vs h))
  versions_of-names (d ∷ ds) vs h =
      let (v, ws, e, f) = added d (metadata.version d) (versions_of metadata ds) vs h in
      rw f (ap (λ ns. d ∷ ns) (versions_of-names ds ws e))

  provided_by-names :
      (o : Option (List String)) (vs : List (String × String))
      → provided_by metadata o ≡ some vs
      → (ds : List String) × (o ≡ some ds) × (ds ≢ []) × (names vs ≡ sorted ds)
  unfolding provided_by
  provided_by-names none vs h = cc h
  provided_by-names (some []) vs h = cc h
  provided_by-names (some (d ∷ ds)) vs h =
      (d ∷ ds, refl, (λ e. cc e), versions_of-names (sorted (d ∷ ds)) vs h)

  -- When `provider_versions` gives versions, the package has distributions, and all of them are
  -- named, sorted and each once.
  pub provider_versions-names :
      (name : Text) (vs : List (String × String))
      → provider_versions metadata name ≡ some vs
      → (ds : List String) × (metadata.distributions name ≡ some ds)
        × (ds ≢ [])
        × (names vs ≡ sorted ds)
  unfolding provider_versions
  provider_versions-names name vs h = provided_by-names (metadata.distributions name) vs h
