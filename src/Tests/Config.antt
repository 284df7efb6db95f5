-- ===== src/Tests/Config.antt =====
-- Environment variables.
use conda_presto.Prelude.{
  ◌≡◌, refl, true, false, none, some, List, [], ◌∷◌, contains, nat_eq, list_eq,
}
use conda_presto.Exceptions.Text.{Text, codes, strip, drop_while}
use conda_presto.Config.{env_bool, result_cache_backend, value}

abbrev channels : List Text
channels = codes "conda-forge" ∷ codes "bioconda" ∷ []

entry_bare :
    (strip (codes "conda-forge") ≡ codes "conda-forge")
    × (strip (codes "bioconda") ≡ codes "bioconda")
unfolding strip drop_while
entry_bare = (refl, refl)

yes_is_true : env_bool (some (codes "YES")) false ≡ value true
unfolding env_bool nat_eq list_eq
yes_is_true = refl

redis_first :
    result_cache_backend none (some (codes "redis://cache")) (some (codes "/tmp"))
    ≡ value (codes "redis")
unfolding result_cache_backend nat_eq list_eq
redis_first = refl

no_comma : (contains (codes "conda-forge") 44 ≡ false) × (contains (codes "bioconda") 44 ≡ false)
unfolding nat_eq
no_comma = (refl, refl)
