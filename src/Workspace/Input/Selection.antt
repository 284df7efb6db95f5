-- ===== src/Workspace/Input/Selection.antt =====
-- What a selection holds.
use mathlib.Core.Path.{subst}
use conda_presto.Prelude.{
  ◌≤◌, String, ◌≡◌, sym, true, false, ◌&&◌, ◌||◌, Option, none, some, List, [], length, arith,
  Bool-cases, inl, inr, if◌then◌else◌, distinct, distinct-dedupe, string_eq, map,
}
use conda_presto.Resolve.Dispatch.{Outcome, returned}
use conda_presto.Workspace.Error.{
  Error, ◌>>=◌, bind-eq-returned, traverse, Answers, traverse-Answers,
}
use conda_presto.Workspace.Config.{
  Resolved, Declared, WorkspaceConfig, WorkspaceTarget, WorkspaceInput, Limits,
}
use conda_presto.Workspace.Select.{Plan, is_absent, plan_names}
use conda_presto.Workspace.Select.Chosen.{Selected, plan_names-Selected}
use conda_presto.Workspace.Input.{
  Libraries, target, resolve_declared, resolved_dict, names_of, is_given_empty, select_targets,
  from_config, parse_result,
}

module _ (lib : Libraries) (limits : Limits) (config : WorkspaceConfig) where
  -- The environments that are named, each once and in order, with the targets that are asked for.
  pub record IsSelection (environments platforms : Option (List String)) (w : WorkspaceInput)
      : Type 0 where
    pub pairs : List (Declared × Resolved)
    pub plans : List Plan
    pub resolved : Answers (resolve_declared config) config.environments pairs
    pub each_once : distinct (names_of environments config) ≡ true
    pub selected :
        Selected limits platforms (resolved_dict pairs) (names_of environments config) plans
    pub composed : Answers (target lib limits config) plans w.result.selected
    pub bounded : length plans ≤ limits.max_platforms

  distinct-names_of :
      (environments : Option (List String)) → distinct (names_of environments config) ≡ true
  distinct-names_of none = distinct-dedupe (map (λ declared. declared.name) config.environments)
  distinct-names_of (some names) = distinct-dedupe names

  select_targets-IsSelection :
      (format : String) (environments platforms : Option (List String))
      (pairs : List (Declared × Resolved)) (w : WorkspaceInput)
      → Answers (resolve_declared config) config.environments pairs
      → select_targets lib limits config format environments platforms pairs ≡ returned w
      → IsSelection environments platforms w
  unfolding select_targets
  select_targets-IsSelection format environments platforms pairs w answers h =
      let names = names_of environments config in
      let plan = plan_names limits platforms (resolved_dict pairs) names [] in
      let finish : List WorkspaceTarget → Outcome Error WorkspaceInput = λ selected.
        returned (record { config = config; result = parse_result format pairs selected }) in
      let (selected, both, last) =
        bind-eq-returned (plan >>= traverse (target lib limits config)) finish w h in
      let (plans, planned, composed) =
        bind-eq-returned plan (traverse (target lib limits config)) selected both in
      let (found, chosen, same, few) =
        plan_names-Selected limits platforms (resolved_dict pairs) names [] plans (omega arith)
          planned in
      let made = traverse-Answers (target lib limits config) plans selected composed in
      let result : record { config = config; result = parse_result format pairs selected } ≡ w =
        cc last in
      subst (λ v. IsSelection environments platforms v) result
        (record {
          pairs = pairs;
          plans = plans;
          resolved = answers;
          each_once = distinct-names_of environments;
          selected =
              subst (λ p. Selected limits platforms (resolved_dict pairs) names p) (sym same)
                chosen;
          composed = made;
          bounded = few;
        })

  -- With selectors, `from_config` returns the environments that are named, or all, each once and in
  -- order. Each is a declared one, and its targets are, each once and in order, what the requested or
  -- else the declared platforms stand for: the declared target of that name, or the only one with that
  -- subdir. No target has an unknown subdir, they are at most `MAX_PLATFORMS`, and the selected
  -- targets are composed of them in order, so no request is dropped.
  pub from_config-IsSelection :
      (format : String) (environments platforms : Option (List String)) (w : WorkspaceInput)
      → (is_absent environments && is_absent platforms) ≡ false
      → from_config lib limits config format environments platforms ≡ returned w
      → IsSelection environments platforms w
  unfolding from_config
  from_config-IsSelection format environments platforms w given h =
      elim (Bool-cases (is_given_empty environments || is_given_empty platforms)) [
        | inl e ↦ absurd (let h' = rw e at h in cc h')
        | inr e ↦
            let (pairs, resolved, rest) =
              bind-eq-returned (traverse (resolve_declared config) config.environments)
                (λ pairs.
                  if is_absent environments && is_absent platforms
                  then returned (record { config = config; result = parse_result format pairs [] })
                  else select_targets lib limits config format environments platforms pairs)
                w (rw e at h) in
            select_targets-IsSelection format environments platforms pairs w
              (traverse-Answers (resolve_declared config) config.environments pairs resolved)
              (rw given at rest)
      ]
