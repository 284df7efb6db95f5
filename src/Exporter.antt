-- ===== src/Exporter.antt =====
-- conda_presto/exporter.py: `OutputFormat` over one of conda's exporter plugins.
pub mod Declared
pub mod Versions
use conda_presto.Prelude.{
  ℕ, ◌+◌, String, ◌≡◌, Bool, true, false, not, ◌&&◌, ◌||◌, Option, none, some, List, [], ◌∷◌, ◌++◌,
  contains, leb, length, nat_eq, list_eq, if◌then◌else◌, ◌==◌,
}
use conda_presto.Exceptions.Text.{Text, codes, take_while}
use conda_presto.Resolve.Dispatch.{Outcome, returned, raised}
use conda_presto.App.Caps.{sorted}

-- A function of the plugin, with the names that identify it, if it has them.
pub record Callback (A E : Type 0) : Type 0 where
  pub call : A → Outcome E Text
  pub module_name : Option Text
  pub qualname : Option Text

-- `OutputFormat`: the name that was asked for, which may be an alias, and the plugin's own fields.
pub record Exporter (Env E : Type 0) : Type 0 where
  pub format_name : String
  pub name : String
  pub is_lockfile : Bool
  pub multiplatform_export : Option (Callback (List Env) E)
  pub export : Option (Callback Env E)
  pub default_filenames : Option (List Text)

-- What `importlib.metadata` knows: the distributions of a package, and their versions; it may raise.
pub record Metadata : Type 0 where
  pub distributions : Text → Option (List String)
  pub version : String → Option String

pub data Validated : Type 0 where
  accepted : Validated
  needs_solved_records : (name : String) → Validated
  select_one_target : Validated

pub data Rendered (E : Type 0) : Type 0 where
  rendered : (body media_type : Text) → Rendered E
  unknown_format : String → Rendered E
  fails : E → Rendered E

-- the letters A to Z, and the Kelvin sign, whose lower case is `k`
abbrev lower : ℕ → ℕ
lower c = if leb b'A' c && leb c b'Z' then c + 32 else if leb 8490 c && leb c 8490 then b'k' else c

abbrev lowered : Text → Text
lowered [] = []
lowered (c ∷ cs) = lower c ∷ lowered cs

-- what follows the last slash
abbrev basename : Text → Text
basename [] = []
basename (c ∷ cs) =
    let rest = basename cs in if contains cs 47 then rest else if c == 47 then cs else c ∷ cs

-- from the last dot on; nothing if only dots are in front of it
abbrev last_dot : Bool → Text → Option Text
last_dot named [] = none
last_dot named (c ∷ cs) =
    let rest = last_dot (named || not (c == 46)) cs in
    if contains cs 46 then rest else if c == 46 then some (if named then c ∷ cs else []) else none

abbrev or_nothing : Option Text → Text
or_nothing none = []
or_nothing (some t) = t

-- `os.path.splitext(filename)[1]`
unfoldable pub extension : Text → Text
extension filename = or_nothing (last_dot false (basename filename))

abbrev default_media_type : Text
default_media_type = codes "text/plain; charset=utf-8"

abbrev pub extension_media_types : List (Text × Text)
extension_media_types =
    (codes ".yml", codes "application/yaml")
    ∷ (codes ".yaml", codes "application/yaml")
    ∷ (codes ".lock", codes "application/yaml")
    ∷ (codes ".json", codes "application/json")
    ∷ (codes ".toml", codes "application/toml")
    ∷ (codes ".txt", default_media_type)
    ∷ []

abbrev type_of : Text → List (Text × Text) → Option Text
type_of ext [] = none
type_of ext (x ∷ xs) = let rest = type_of ext xs in if x.0 == ext then some x.1 else rest

abbrev or_else : Option Text → Text → Text
or_else none other = other
or_else (some t) other = t

-- the loop of `media_type`
unfoldable pub media_type_of : List Text → Text
unfolding extension
media_type_of [] = default_media_type
media_type_of (filename ∷ filenames) =
    or_else (type_of (lowered (extension filename)) extension_media_types) (media_type_of filenames)

abbrev filenames_of : Option (List Text) → List Text
filenames_of none = []
filenames_of (some filenames) = filenames

module _ {Env E : Type 0} (exporter : Exporter Env E) where
  unfoldable pub media_type : Text
  unfolding media_type_of
  media_type = media_type_of (filenames_of exporter.default_filenames)

  unfoldable pub validate_single : Option (Callback (List Env) E) → ℕ → Validated
  validate_single (some callback) target_count = accepted
  validate_single none target_count = if target_count == 1 then accepted else select_one_target

  -- `validate_declared_input`
  unfoldable pub validate_declared_input : ℕ → Validated
  unfolding validate_single
  validate_declared_input target_count =
      if exporter.is_lockfile
      then needs_solved_records exporter.format_name
      else validate_single exporter.multiplatform_export target_count

  abbrev joined : Text → Outcome E Text → Outcome E Text
  joined body (raised e) = raised e
  joined body (returned rest) = returned (body ++ (10 ∷ rest))

  abbrev join_after : Outcome E Text → Outcome E Text → Outcome E Text
  join_after (raised e) rest = raised e
  join_after (returned body) rest = joined body rest

  -- `"\n".join(self.exporter.export(env) for env in envs)`
  unfoldable pub export_each : Callback Env E → List Env → Outcome E Text
  export_each callback [] = returned []
  export_each callback (env ∷ []) = callback.call env
  export_each callback (env ∷ next ∷ envs) =
      join_after (callback.call env) (export_each callback (next ∷ envs))

  unfoldable pub with_media_type : Outcome E Text → Rendered E
  unfolding media_type
  with_media_type (returned body) = rendered body media_type
  with_media_type (raised e) = fails e

  unfoldable pub render_with :
      Option (Callback (List Env) E) → Option (Callback Env E) → List Env → Rendered E
  unfolding with_media_type export_each
  render_with (some callback) single envs = with_media_type (callback.call envs)
  render_with none (some callback) envs = with_media_type (export_each callback envs)
  render_with none none envs = unknown_format exporter.format_name

  -- `render`
  unfoldable pub render : List Env → Rendered E
  unfolding render_with
  render envs = render_with exporter.multiplatform_export exporter.export envs

module _ (metadata : Metadata) where
  abbrev add_version :
      String → Option String → Option (List (String × String)) → Option (List (String × String))
  add_version distribution none rest = none
  add_version distribution (some v) none = none
  add_version distribution (some v) (some rest) = some ((distribution, v) ∷ rest)

  unfoldable pub versions_of : List String → Option (List (String × String))
  versions_of [] = some []
  versions_of (d ∷ ds) = add_version d (metadata.version d) (versions_of ds)

  unfoldable pub provided_by : Option (List String) → Option (List (String × String))
  unfolding versions_of
  provided_by none = none
  provided_by (some []) = none
  provided_by (some (d ∷ ds)) = versions_of (sorted (d ∷ ds))

  -- `provider_versions`
  unfoldable pub provider_versions : Text → Option (List (String × String))
  unfolding provided_by
  provider_versions name = provided_by (metadata.distributions name)

-- The name of the exporter, of the function that is called, and the versions of what provides it.
pub record Identity : Type 0 where
  pub name : String
  pub callback : Text
  pub versions : List (String × String)

abbrev top_level : Text → Text
top_level [] = []
top_level (c ∷ cs) = let rest = top_level cs in if c == 46 then [] else c ∷ rest

module _ {Env E : Type 0} (metadata : Metadata) (exporter : Exporter Env E) where
  with_versions : Text → Option (List (String × String)) → Option Identity
  with_versions callback none = none
  with_versions callback (some versions) =
      some (record { name = exporter.name; callback = callback; versions = versions })

  -- a callback without a module or a name, or with an empty one, has no identity
  identified : Option Text → Option Text → Option Identity
  unfolding with_versions provider_versions
  identified (some (c ∷ cs)) (some (d ∷ ds)) =
      with_versions ((c ∷ cs) ++ (58 ∷ d ∷ ds)) (provider_versions metadata (top_level (c ∷ cs)))
  identified _ _ = none

  callback_of : Option (Callback (List Env) E) → Option (Callback Env E) → Option Identity
  unfolding identified
  callback_of (some f) g = identified f.module_name f.qualname
  callback_of none (some g) = identified g.module_name g.qualname
  callback_of none none = none

  -- `cache_identity`
  unfoldable pub cache_identity : Option Identity
  unfolding callback_of
  cache_identity = callback_of exporter.multiplatform_export exporter.export
