-- ===== src/Config.antt =====
-- conda_presto/config.py: the environment variables. `environ` is what `os.environ.get` finds.
mod Lists
pub use Lists.*
use conda_presto.Prelude.{
  ℕ, zero, suc, ◌+◌, ◌*◌, String, ◌≡◌, Bool, true, false, not, ◌&&◌, ◌||◌, Option, none, some, List,
  [], ◌∷◌, contains, leb, nat_eq, list_eq, if◌then◌else◌, ◌==◌, map,
}
use conda_presto.Exceptions.Text.{Text, codes, strip}

-- A setting, or the `ValueError` that config.py raises while it is imported.
pub data Setting (A : Type 0) : Type 0 where
  value : A → Setting A
  value_error : Setting A

pub data ℤ : Type 0 where
  pos negsuc : ℕ → ℤ

abbrev pub negated : ℕ → ℤ
negated zero = pos 0
negated (suc n) = negsuc n

module _ {A : Type 0} where
  abbrev setting_of : Option A → Setting A
  setting_of none = value_error
  setting_of (some a) = value a

-- `decimal` gives the value of a character that is a decimal digit, as `unicodedata.decimal` does.
module _ (decimal : ℕ → Option ℕ) where
  -- digits, where single underscores may stand between two; `after_digit` says that one came last
  digits : Bool → ℕ → Text → Option ℕ
  digits after_digit n [] = if after_digit then some n else none
  digits after_digit n (c ∷ cs) = elim (decimal c) [
    | some d ↦ digits true (n * 10 + d) cs
    | none ↦ if after_digit && c == 95 then digits false n cs else none
  ]

  signed : Text → Option ℤ
  unfolding digits
  signed [] = none
  signed (c ∷ cs) =
      if c == 45
      then elim (digits false 0 cs) [ none ↦ none | some n ↦ some (negated n) ]
      else if c == 43
      then elim (digits false 0 cs) [ none ↦ none | some n ↦ some (pos n) ]
      else elim (digits false 0 (c ∷ cs)) [ none ↦ none | some n ↦ some (pos n) ]

  -- `env_int`
  unfoldable pub env_int : Option Text → ℤ → Setting ℤ
  unfolding signed strip
  env_int none default = value default
  env_int (some []) default = value default
  env_int (some (c ∷ cs)) default = setting_of (signed (strip (c ∷ cs)))

-- only the letters A to Z can become letters of the words below
abbrev lower : ℕ → ℕ
lower c = if leb b'A' c && leb c b'Z' then c + 32 else c

-- `env_bool`
unfoldable pub env_bool : Option Text → Bool → Setting Bool
env_bool none default = value default
env_bool (some []) default = value default
env_bool (some (c ∷ cs)) default =
    let word = map lower (c ∷ cs) in
    if contains (codes "1" ∷ codes "true" ∷ codes "yes" ∷ []) word
    then value true
    else if contains (codes "0" ∷ codes "false" ∷ codes "no" ∷ []) word
    then value false
    else value_error

abbrev is_set : Option Text → Bool
is_set none = false
is_set (some []) = false
is_set (some (c ∷ cs)) = true

-- `RESULT_CACHE_BACKEND` before its case is lowered
abbrev chosen_backend : Option Text → Option Text → Option Text → Text
chosen_backend (some backend) redis_url dir = backend
chosen_backend none redis_url dir =
    if is_set redis_url then codes "redis" else if is_set dir then codes "file" else codes "memory"

unfoldable pub result_cache_backend : Option Text → Option Text → Option Text → Setting Text
result_cache_backend backend redis_url dir =
    let name = map lower (chosen_backend backend redis_url dir) in
    if contains (codes "memory" ∷ codes "file" ∷ codes "redis" ∷ []) name
    then value name
    else value_error
