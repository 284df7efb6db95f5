-- ===== src/Workspace/Select.antt =====
-- `WorkspaceInput.from_config` up to the composition of targets: which targets are selected.
pub mod Pick
pub mod Chosen
use conda_presto.Prelude.{
  ℕ, suc, String, Bool, true, false, not, ◌&&◌, ◌||◌, Option, none, some, List, [], ◌∷◌, ◌++◌, ltb,
  length, if◌then◌else◌, string_eq, contains, ◌==◌, dedupe,
}
use conda_presto.OrderedDict.{OrderedDict, get}
use conda_presto.Resolve.Dispatch.{Outcome, returned, raised}
use conda_presto.Workspace.Error.{
  Error, no_platforms, ambiguous_platform, unknown_platform, unknown_subdir, unknown_environment,
  too_many_targets, ◌>>=◌,
}
use conda_presto.Workspace.Config.{Resolved, Limits}

-- `(name, target, subdir)`
pub record Plan : Type 0 where
  pub environment : String
  pub target : String
  pub subdir : String

-- `targets`, of one environment, and `plans`
pub record Selecting : Type 0 where
  pub targets : List String
  pub plans : List Plan

abbrev pub is_empty {ℓ} : {A : Type ℓ} → List A → Bool
is_empty [] = true
is_empty (x ∷ xs) = false

unfoldable pub matching : (String → String) → List String → String → List String
matching subdir [] requested = []
matching subdir (item ∷ items) requested =
    let rest = matching subdir items requested in
    if subdir item == requested then item ∷ rest else rest

unfoldable pub the_match : (name requested : String) → List String → Outcome Error String
the_match name requested [] = raised (unknown_platform requested name)
the_match name requested (target ∷ []) = returned target
the_match name requested (target ∷ other ∷ targets) = raised (ambiguous_platform requested name)

-- the declared target that is requested, by its name or by its subdir
unfoldable pub pick :
    (name : String) → (String → String) → List String → String → Outcome Error String
unfolding the_match matching
pick name subdir declared requested =
    if not (is_empty declared) && not (contains declared requested)
    then the_match name requested (matching subdir declared requested)
    else returned requested

-- `platforms if platforms is not None else declared`
abbrev pub requested_of : Option (List String) → List String → List String
requested_of none declared = declared
requested_of (some platforms) declared = platforms

abbrev pub is_absent : Option (List String) → Bool
is_absent none = true
is_absent (some platforms) = false

module _ (limits : Limits) where
  unfoldable pub plan_target :
      (name : String) → (String → String) → Selecting → String → Outcome Error Selecting
  plan_target name subdir s target =
      if not (contains limits.known_subdirs (subdir target))
      then raised (unknown_subdir (subdir target))
      else if contains s.targets target
      then returned s
      else if ltb limits.max_platforms (suc (length s.plans))
      then raised (too_many_targets limits.max_platforms)
      else returned (record {
        targets = s.targets ++ (target ∷ []);
        plans =
            s.plans
            ++ (record { environment = name; target = target; subdir = subdir target } ∷ []);
      })

  unfoldable pub plan_requests :
      (name : String)
      → (String → String)
      → (declared requests : List String) → Selecting
      → Outcome Error Selecting
  unfolding pick plan_target
  plan_requests name subdir declared [] s = returned s
  plan_requests name subdir declared (requested ∷ requests) s =
      pick name subdir declared requested
      >>= plan_target name subdir s
      >>= plan_requests name subdir declared requests

  unfoldable pub plan_environment :
      Option (List String)
      → (name : String) → Option Resolved
      → List Plan
      → Outcome Error (List Plan)
  unfolding plan_requests
  plan_environment platforms name none plans = raised (unknown_environment name)
  plan_environment platforms name (some environment) plans =
      if is_absent platforms && is_empty (dedupe environment.platforms)
      then raised (no_platforms name)
      else plan_requests name environment.platform_subdir (dedupe environment.platforms)
          (requested_of platforms (dedupe environment.platforms))
          (record { targets = []; plans = plans })
        >>= λ s. returned s.plans

  -- the loop over `names`
  unfoldable pub plan_names :
      Option (List String)
      → OrderedDict String Resolved
      → List String
      → List Plan
      → Outcome Error (List Plan)
  unfolding plan_environment get
  plan_names platforms resolved [] plans = returned plans
  plan_names platforms resolved (name ∷ names) plans =
      plan_environment platforms name (get name resolved) plans
      >>= plan_names platforms resolved names
