-- ===== src/WorkspaceLock/Select.antt =====
-- `WorkspaceLockInput.from_path`: which saved targets are selected.
pub mod Saved
pub mod Chosen
use conda_presto.Prelude.{
  ℕ, ◌+◌, String, Bool, true, false, not, ◌&&◌, ◌||◌, Option, none, some, List, [], ◌∷◌, ◌++◌, map,
  ltb, length, if◌then◌else◌, string_eq, option_eq, contains, ◌==◌, dedupe, add,
}
use conda_presto.OrderedDict.{OrderedDict, insert}
use conda_presto.Resolve.Dispatch.{Outcome, returned, raised}
use conda_presto.Workspace.Error.{
  Error, lock_has_credentials, select_lock_targets, too_many_lock_targets, too_many_lock_channels,
  ambiguous_lock_target, unknown_lock_target, ◌>>=◌, traverse,
}
use conda_presto.Workspace.Config.{Limits}
use conda_presto.Workspace.Select.{is_empty, is_absent, requested_of}
use conda_presto.Workspace.Input.{Check, refuse_if, is_given_empty}
use conda_presto.WorkspaceLock.Loader.{
  Loader, LockFile, WorkspaceLockEnvironment, WorkspaceLockTarget, WorkspaceLockInput,
}

abbrev pub or_given : Option (List String) → List String → List String
or_given none available = available
or_given (some names) available = names

unfoldable pub saved_on : (String → Option String) → List String → String → List String
saved_on subdir [] requested = []
saved_on subdir (item ∷ items) requested =
    let rest = saved_on subdir items requested in
    if subdir item == some requested then item ∷ rest else rest

unfoldable pub only_saved : (name requested : String) → List String → Outcome Error String
only_saved name requested [] = raised (unknown_lock_target requested name)
only_saved name requested (target ∷ []) = returned target
only_saved name requested (target ∷ other ∷ targets) = raised (ambiguous_lock_target requested name)

-- the saved target that is requested, by its name or by its subdir
unfoldable pub pick_saved :
    (name : String) → (String → Option String) → List String → String → Outcome Error String
unfolding saved_on only_saved
pick_saved name subdir declared requested =
    if contains declared requested
    then returned requested
    else only_saved name requested (saved_on subdir declared requested)

unfoldable pub total_targets : List (String × List String) → ℕ
total_targets [] = 0
total_targets (s ∷ selections) = length s.1 + total_targets selections

-- the selections with targets
unfoldable pub nonempty : List (String × List String) → List (String × List String)
nonempty [] = []
nonempty (s ∷ selections) =
    let rest = nonempty selections in if is_empty s.1 then rest else s ∷ rest

unfoldable pub concat {ℓ} : {A : Type ℓ} → List (List A) → List A
concat [] = []
concat (xs ∷ xss) = xs ++ concat xss

module _ (loader : Loader) where
  unfoldable pub select_name :
      Option (List String) → (name : String) → Outcome Error (String × List String)
  unfolding traverse pick_saved dedupe
  select_name platforms name = loader.platforms_for name >>= λ declared.
      traverse (pick_saved name (λ item. loader.package_platform_for item name) declared)
        (requested_of platforms declared)
      >>= λ targets. returned (name, dedupe targets)

  -- With `allow_empty`, the records that are there are read though nothing need be selected.
  unfoldable pub read_selected :
      Bool → List (String × List String) → Outcome Error (List (List String))
  unfolding nonempty
  read_selected false selections = loader.select selections
  read_selected true selections =
      if is_empty (nonempty selections)
      then (loader.package_records_by_url >>= λ _. returned loader.channels)
      else (loader.select (nonempty selections) >>= λ _. returned loader.channels)

  unfoldable pub subdirs_of : (name : String) → List String → OrderedDict String (Option String)
  unfolding insert
  subdirs_of name targets = collect [] targets
    where
      collect :
          OrderedDict String (Option String) → List String → OrderedDict String (Option String)
      collect d [] = d
      collect d (t ∷ ts) = collect (insert t (loader.package_platform_for t name) d) ts

  unfoldable pub discover : (name : String) → Outcome Error WorkspaceLockEnvironment
  unfolding subdirs_of
  discover name = loader.platforms_for name >>= λ targets.
      returned (record { name = name; platforms = subdirs_of name targets })

  abbrev pub lock_target : (name target : String) → WorkspaceLockTarget
  lock_target name target = record {
    environment = name;
    platform = target;
    subdir = loader.package_platform_for target name;
  }

  unfoldable pub lock_targets : List (String × List String) → List WorkspaceLockTarget
  lock_targets [] = []
  lock_targets (s ∷ selections) = map (lock_target s.0) s.1 ++ lock_targets selections

-- whether the targets are reported as selected
abbrev pub is_selective :
    (select_all : Bool) → (environments platforms : Option (List String)) → Bool
is_selective select_all environments platforms =
    select_all || (not (is_absent environments) || not (is_absent platforms))

module _ (limits : Limits) where
  -- the selection, once it is made
  unfoldable pub with_selections :
      Loader
      → (report allow_empty : Bool) → List (String × List String)
      → Outcome Error WorkspaceLockInput
  unfolding total_targets read_selected discover lock_targets concat traverse dedupe
  with_selections loader report allow_empty selections =
      refuse_if (ltb limits.max_platforms (total_targets selections)) too_many_lock_targets >>= λ _.
      read_selected loader allow_empty selections >>= λ channels.
      refuse_if (ltb limits.max_channels (length (dedupe (concat channels)))) too_many_lock_channels
      >>= λ _. traverse (discover loader) loader.available_environments >>= λ environments.
          returned (record {
            loader = loader;
            environments = environments;
            selected = if report then lock_targets loader selections else [];
            channels = dedupe (concat channels);
            manifest = none;
          })

  -- `from_path`, from the data of the file
  unfoldable pub from_path :
      LockFile
      → (environments platforms : Option (List String)) → (select_all allow_empty : Bool)
      → Outcome Error WorkspaceLockInput
  unfolding with_selections select_name traverse dedupe
  from_path file environments platforms select_all allow_empty =
      let names = dedupe (or_given environments file.loader.available_environments) in
      if file.has_credentials
      then raised lock_has_credentials
      else if (is_empty names && not allow_empty) || is_given_empty platforms
      then raised select_lock_targets
      else traverse (select_name file.loader platforms) names
        >>= with_selections file.loader (is_selective select_all environments platforms) allow_empty
