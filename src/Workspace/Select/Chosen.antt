-- ===== src/Workspace/Select/Chosen.antt =====
-- The targets that are planned are those that are asked for.
use mathlib.Core.Path.{subst}
use mathlib.Core.List.{append-nil, append_assoc, map-append}
use conda_presto.Prelude.{
  suc, ◌≤◌, String, ◌≡◌, refl, sym, ◌∙◌, ap, inl, inr, true, false, ◌&&◌, Option, none, some, List,
  [], ◌∷◌, ◌++◌, map, ltb, length, length-append, arith, string_eq, contains, dedupe, add, add_all,
  Bool-cases, ltb-false→le,
}
use conda_presto.OrderedDict.{OrderedDict, get}
use conda_presto.Resolve.Dispatch.{returned}
use conda_presto.Workspace.Error.{◌>>=◌, bind-eq-returned}
use conda_presto.Workspace.Config.{Resolved, Limits}
use conda_presto.Workspace.Select.Pick.{Picks, no_requests, picked, pick-IsPick}
use conda_presto.Workspace.Select.{
  Plan, Selecting, is_empty, pick, plan_target, plan_requests, requested_of, is_absent,
  plan_environment, plan_names,
}

abbrev pub planned : String → (String → String) → String → Plan
planned name subdir target = record { environment = name; target = target; subdir = subdir target }

module _ (limits : Limits) (name : String) (subdir : String → String) (before : List Plan) where
  -- The plans are those before, and one for each target of this environment.
  record IsSelecting (s : Selecting) : Type 0 where
    shape : s.plans ≡ before ++ map (planned name subdir) s.targets
    few : length s.plans ≤ limits.max_platforms

  abbrev grown : Selecting → String → Selecting
  grown s target = record {
    targets = s.targets ++ (target ∷ []);
    plans = s.plans ++ (planned name subdir target ∷ []);
  }

  grown-IsSelecting :
      (s : Selecting) (target : String)
      → IsSelecting s
      → suc (length s.plans) ≤ limits.max_platforms
      → IsSelecting (grown s target)
  grown-IsSelecting s target h room = record {
    shape =
        ap (λ plans. plans ++ (planned name subdir target ∷ [])) h.shape
        ∙ append_assoc before (map (planned name subdir) s.targets)
            (planned name subdir target ∷ [])
        ∙ ap (λ more. before ++ more)
            (sym (map-append (planned name subdir) s.targets (target ∷ [])));
    few = omega (arith, room, length-append s.plans (planned name subdir target ∷ []));
  }

  plan_target-adds :
      (s t : Selecting) (target : String)
      → IsSelecting s
      → plan_target limits name subdir s target ≡ returned t
      → (contains limits.known_subdirs (subdir target) ≡ true)
        × (t.targets ≡ add s.targets target)
        × IsSelecting t
  unfolding plan_target
  plan_target-adds s t target h e =
      elim (Bool-cases (contains limits.known_subdirs (subdir target))) [
        | inr k ↦ absurd (let e' = rw k at e in cc e')
        | inl k ↦ elim (Bool-cases (contains s.targets target)) [
          | inl c ↦
              let same : s ≡ t = cc (rw (k, c) at e) in
              let (adds, kept) =
                subst (λ u. (u.targets ≡ add s.targets target) × IsSelecting u) same
                  (rw c (refl, h)) in
              (k, adds, kept)
          | inr c ↦ elim (Bool-cases (ltb limits.max_platforms (suc (length s.plans)))) [
            | inl m ↦ absurd (let e' = rw (k, c, m) at e in cc e')
            | inr m ↦
                let same : grown s target ≡ t = cc (rw (k, c, m) at e) in
                let (adds, kept) =
                  subst (λ u. (u.targets ≡ add s.targets target) × IsSelecting u) same
                    (rw c (
                      refl,
                      grown-IsSelecting s target h
                          (ltb-false→le limits.max_platforms (suc (length s.plans)) m),
                    )) in
                (k, adds, kept)
          ]
        ]
      ]

  plan_requests-Picks :
      (declared requests : List String) (s t : Selecting)
      → IsSelecting s
      → plan_requests limits name subdir declared requests s ≡ returned t
      → (targets : List String) × Picks subdir declared limits.known_subdirs requests targets
        × (t.targets ≡ add_all s.targets targets)
        × IsSelecting t
  unfolding plan_requests add_all
  plan_requests-Picks declared [] s t h e =
      let same : s ≡ t = cc e in
      ([], no_requests, ap (λ u. u.targets) (sym same), subst (λ u. IsSelecting u) same h)
  plan_requests-Picks declared (r ∷ rs) s t h e =
      let (u, both, more) =
        bind-eq-returned (pick name subdir declared r >>= plan_target limits name subdir s)
          (plan_requests limits name subdir declared rs) t e in
      let (target, first, second) =
        bind-eq-returned (pick name subdir declared r) (plan_target limits name subdir s) u both in
      let (known, grows, kept) = plan_target-adds s u target h second in
      let (targets, picks, adds, selecting) = plan_requests-Picks declared rs u t kept more in
      (
        target ∷ targets,
        picked r target rs targets (pick-IsPick name subdir declared r target first) known picks,
        adds ∙ ap (λ xs. add_all xs targets) grows,
        selecting,
      )

-- The plans of one environment after another.
pub data Selected (limits : Limits) (platforms : Option (List String))
    (resolved : OrderedDict String Resolved) : List String → List Plan → Type 0 where
  no_names : Selected limits platforms resolved [] []
  selects :
      (name : String) (environment : Resolved) (targets : List String) (names : List String)
      (plans : List Plan)
      → get name resolved ≡ some environment
      → Picks environment.platform_subdir
          (dedupe environment.platforms)
          limits.known_subdirs
          (requested_of platforms (dedupe environment.platforms))
          targets
      → (is_absent platforms && is_empty (dedupe environment.platforms)) ≡ false
      → Selected limits platforms resolved names plans
      → Selected limits platforms resolved
          (name ∷ names)
          (map (planned name environment.platform_subdir) (dedupe targets) ++ plans)

module _ (limits : Limits) (platforms : Option (List String)) where
  -- What one environment adds to the plans.
  abbrev Adds : (name : String) → Resolved → (before after : List Plan) → Type 0
  Adds name environment before after =
      (targets : List String) × Picks environment.platform_subdir (dedupe environment.platforms)
        limits.known_subdirs (requested_of platforms (dedupe environment.platforms)) targets
      × ((is_absent platforms && is_empty (dedupe environment.platforms)) ≡ false)
      × (after ≡ before ++ map (planned name environment.platform_subdir) (dedupe targets))
      × (length after ≤ limits.max_platforms)

  plan_environment-Adds :
      (name : String) (environment : Resolved) (before after : List Plan)
      → length before ≤ limits.max_platforms
      → plan_environment limits platforms name (some environment) before ≡ returned after
      → Adds name environment before after
  unfolding plan_environment dedupe
  plan_environment-Adds name environment before after few h =
      elim (Bool-cases (is_absent platforms && is_empty (dedupe environment.platforms))) [
        | inl e ↦ absurd (let h' = rw e at h in cc h')
        | inr e ↦
            let declared = dedupe environment.platforms in
            let (t, ran, last) =
              bind-eq-returned
                (plan_requests limits name environment.platform_subdir declared
                  (requested_of platforms declared) (record { targets = []; plans = before }))
                (λ s. returned s.plans) after (rw e at h) in
            let (targets, picks, adds, selecting) =
              plan_requests-Picks limits name environment.platform_subdir before declared
                (requested_of platforms declared) (record { targets = []; plans = before }) t
                (record { shape = sym (append-nil before); few = few }) ran in
            let same : t.plans ≡ after = cc last in
            (
              targets,
              picks,
              e,
              sym same
                  ∙ selecting.shape
                  ∙ ap (λ ts. before ++ map (planned name environment.platform_subdir) ts) adds,
              subst (λ p. length p ≤ limits.max_platforms) same selecting.few,
            )
      ]

  plan_found :
      (resolved : OrderedDict String Resolved) (name : String) (found : Option Resolved)
      (before after : List Plan)
      → length before ≤ limits.max_platforms
      → get name resolved ≡ found
      → plan_environment limits platforms name found before ≡ returned after
      → (environment : Resolved) × (get name resolved ≡ some environment)
        × Adds name environment before after
  plan_found resolved name none before after few e h = absurd (unfold plan_environment in cc h)
  plan_found resolved name (some environment) before after few e h =
      (environment, e, plan_environment-Adds name environment before after few h)

  pub plan_names-Selected :
      (resolved : OrderedDict String Resolved) (names : List String) (before after : List Plan)
      → length before ≤ limits.max_platforms
      → plan_names limits platforms resolved names before ≡ returned after
      → (plans : List Plan) × Selected limits platforms resolved names plans
        × (after ≡ before ++ plans)
        × (length after ≤ limits.max_platforms)
  unfolding plan_names
  plan_names-Selected resolved [] before after few h =
      let same : before ≡ after = cc h in
      (
        [],
        no_names,
        sym same ∙ sym (append-nil before),
        subst (λ p. length p ≤ limits.max_platforms) same few,
      )
  plan_names-Selected resolved (name ∷ names) before after few h =
      let (middle, first, rest) =
        bind-eq-returned (plan_environment limits platforms name (get name resolved) before)
          (plan_names limits platforms resolved names) after h in
      let (environment, found, added) =
        plan_found resolved name (get name resolved) before middle few refl first in
      let (targets, picks, asks, adds, still_few) = added in
      let (plans, selected, same, few_after) =
        plan_names-Selected resolved names middle after still_few rest in
      let here = map (planned name environment.platform_subdir) (dedupe targets) in
      (
        here ++ plans,
        selects name environment targets names plans found picks asks selected,
        same ∙ ap (λ p. p ++ plans) adds ∙ append_assoc before here plans,
        few_after,
      )
