-- ===== src/WorkspaceLock/Select/Chosen.antt =====
-- What a selection of saved targets holds.
use mathlib.Core.Path.{subst}
use conda_presto.Prelude.{
  ◌≤◌, String, ◌≡◌, refl, inl, inr, Bool, true, false, not, ◌&&◌, ◌||◌, Option, none, List, [], ◌∷◌,
  ltb, length, if◌then◌else◌, string_eq, option_eq, dedupe, distinct, distinct-dedupe, Bool-cases,
}
use conda_presto.Resolve.Dispatch.{Outcome, returned}
use conda_presto.Workspace.Error.{
  Error, ◌>>=◌, bind-eq-returned, traverse, Answers, no_more, answer, traverse-Answers,
  too_many_lock_targets, too_many_lock_channels,
}
use conda_presto.Workspace.Config.{Limits}
use conda_presto.Workspace.Select.{is_empty, requested_of}
use conda_presto.Workspace.Input.{Check, refuse_if, is_given_empty}
use conda_presto.Workspace.Input.Composed.{passes, not_over}
use conda_presto.WorkspaceLock.Loader.{
  Loader, LockFile, WorkspaceLockEnvironment, WorkspaceLockInput,
}
use conda_presto.WorkspaceLock.Select.{
  or_given, pick_saved, total_targets, concat, select_name, read_selected, discover, lock_targets,
  is_selective, with_selections, from_path,
}
use conda_presto.WorkspaceLock.Select.Saved.{Saved, picks-Saved}

-- The selection of each named environment.
pub data Chosen (loader : Loader) (platforms : Option (List String))
    : List String → List (String × List String) → Type 0 where
  no_names : Chosen loader platforms [] []
  chosen :
      (name : String) (declared targets : List String) (names : List String)
      (selections : List (String × List String))
      → loader.platforms_for name ≡ returned declared
      → Saved
          (λ item. loader.package_platform_for item name)
          declared
          (requested_of platforms declared)
          targets
      → Chosen loader platforms names selections
      → Chosen loader platforms (name ∷ names) ((name, dedupe targets) ∷ selections)

select_name-Chosen :
    (loader : Loader) (platforms : Option (List String)) (names : List String)
    (selections : List (String × List String))
    → Answers (select_name loader platforms) names selections
    → Chosen loader platforms names selections
unfolding select_name
select_name-Chosen loader platforms _ _ no_more = no_names
select_name-Chosen loader platforms _ _ (answer name s names selections h more) =
    let subdir : String → Option String = λ item. loader.package_platform_for item name in
    let finish : List String → Outcome Error (String × List String) =
      λ targets. returned (name, dedupe targets) in
    let rest = select_name-Chosen loader platforms names selections more in
    let (declared, found, picked) =
      bind-eq-returned (loader.platforms_for name)
        (λ declared.
          traverse (pick_saved name subdir declared) (requested_of platforms declared) >>= finish)
        s h in
    let (targets, picks, last) =
      bind-eq-returned
        (traverse (pick_saved name subdir declared) (requested_of platforms declared)) finish s
        picked in
    let requests = requested_of platforms declared in
    let saved =
      picks-Saved name subdir declared requests targets
        (traverse-Answers (pick_saved name subdir declared) requests targets picks) in
    let same : (name, dedupe targets) ≡ s = cc last in
    subst (λ one. Chosen loader platforms (name ∷ names) (one ∷ selections)) same
      (chosen name declared targets names selections found saved rest)

module _ (limits : Limits) (file : LockFile) where
  -- The names that are selected, each once, with their targets; what is reported of it; the limits.
  pub record IsSelection (environments platforms : Option (List String)) (select_all : Bool)
      (w : WorkspaceLockInput) : Type 0 where
    pub selections : List (String × List String)
    pub no_credentials : file.has_credentials ≡ false
    pub each_once :
        distinct (dedupe (or_given environments file.loader.available_environments)) ≡ true
    pub selected :
        Chosen file.loader platforms
          (dedupe (or_given environments file.loader.available_environments))
          selections
    pub reported : w.selected ≡ (
        if is_selective select_all environments platforms
        then lock_targets file.loader selections
        else [])
    pub targets_bounded : total_targets selections ≤ limits.max_platforms
    pub channels_bounded : length w.channels ≤ limits.max_channels
    pub channels_once : distinct w.channels ≡ true
    pub same_loader : w.loader ≡ file.loader

  -- What the selection reads and reports.
  record IsRead (report : Bool) (selections : List (String × List String)) (w : WorkspaceLockInput)
      : Type 0 where
    reported : w.selected ≡ (if report then lock_targets file.loader selections else [])
    targets_bounded : total_targets selections ≤ limits.max_platforms
    channels_bounded : length w.channels ≤ limits.max_channels
    channels_once : distinct w.channels ≡ true
    same_loader : w.loader ≡ file.loader

  with_selections-IsRead :
      (report allow_empty : Bool) (selections : List (String × List String))
      (w : WorkspaceLockInput)
      → with_selections limits file.loader report allow_empty selections ≡ returned w
      → IsRead report selections w
  unfolding with_selections
  with_selections-IsRead report allow_empty selections w h =
      let made : List (List String) → List WorkspaceLockEnvironment → WorkspaceLockInput =
        λ channels environments. record {
          loader = file.loader;
          environments = environments;
          selected = if report then lock_targets file.loader selections else [];
          channels = dedupe (concat channels);
          manifest = none;
        } in
      let found : List (List String) → Outcome Error WorkspaceLockInput = λ channels.
        traverse (discover file.loader) file.loader.available_environments >>= λ environments.
        returned (made channels environments) in
      let within : List (List String) → Check = λ channels.
        refuse_if (ltb limits.max_channels (length (dedupe (concat channels))))
          too_many_lock_channels in
      let ((u, few), rest) =
        passes
          (refuse_if (ltb limits.max_platforms (total_targets selections)) too_many_lock_targets)
          (read_selected file.loader allow_empty selections >>= λ channels.
            within channels >>= λ _. found channels)
          w h in
      let (channels, read, rest_2) =
        bind-eq-returned (read_selected file.loader allow_empty selections)
          (λ channels. within channels >>= λ _. found channels) w rest in
      let ((v, few_channels), rest_3) = passes (within channels) (found channels) w rest_2 in
      let (environments, _, last) =
        bind-eq-returned (traverse (discover file.loader) file.loader.available_environments)
          (λ environments. returned (made channels environments)) w rest_3 in
      let same : made channels environments ≡ w = cc last in
      subst (λ x. IsRead report selections x) same
        (record {
          reported = refl;
          targets_bounded =
              not_over limits.max_platforms (total_targets selections) too_many_lock_targets u few;
          channels_bounded =
              not_over limits.max_channels (length (dedupe (concat channels)))
                too_many_lock_channels v few_channels;
          channels_once = distinct-dedupe (concat channels);
          same_loader = refl;
        })

  -- `from_path` selects nothing from a file with credentials in URLs. It returns the environments that
  -- are named, or all, each once and in order; the targets of each are, each once and in order, what
  -- the requests stand for: the saved target of that name, or the only one on that subdir. They are at
  -- most `MAX_PLATFORMS`, its channels at most `MAX_CHANNELS` and each once; the targets are reported
  -- as selected when there are selectors or all are asked for.
  pub from_path-IsSelection :
      (environments platforms : Option (List String)) (select_all allow_empty : Bool)
      (w : WorkspaceLockInput)
      → from_path limits file environments platforms select_all allow_empty ≡ returned w
      → IsSelection environments platforms select_all w
  unfolding from_path
  from_path-IsSelection environments platforms select_all allow_empty w h =
      let names = dedupe (or_given environments file.loader.available_environments) in
      let report = is_selective select_all environments platforms in
      elim (Bool-cases file.has_credentials) [
        | inl c ↦ absurd (let h' = rw c at h in cc h')
        | inr c ↦
            elim (Bool-cases ((is_empty names && not allow_empty) || is_given_empty platforms)) [
              | inl e ↦ absurd (let h' = rw (c, e) at h in cc h')
              | inr e ↦
                  let (selections, run, last) =
                    bind-eq-returned (traverse (select_name file.loader platforms) names)
                      (with_selections limits file.loader report allow_empty) w (rw (c, e) at h) in
                  let read = with_selections-IsRead report allow_empty selections w last in
                  record {
                    selections = selections;
                    no_credentials = c;
                    each_once =
                        distinct-dedupe (or_given environments file.loader.available_environments);
                    selected =
                        select_name-Chosen file.loader platforms names selections (
                          traverse-Answers (select_name file.loader platforms) names selections
                            run);
                    reported = read.reported;
                    targets_bounded = read.targets_bounded;
                    channels_bounded = read.channels_bounded;
                    channels_once = read.channels_once;
                    same_loader = read.same_loader;
                  }
            ]
      ]
