-- ===== src/WorkspaceLock/Output/Whole.antt =====
-- One document of all selected targets.
use conda_presto.Prelude.{
  suc, String, ◌≡◌, refl, sym, ◌∙◌, ap, ◌⊎◌, inl, inr, Bool, true, false, not, ◌&&◌, List, [], ◌∷◌,
  map, length, all, Bool-cases, string_eq, nat_eq, contains, ◌==◌, ==→eq, dedupe, contains-dedupe,
  distinct, distinct-length, affirmed,
}
use conda_presto.Exceptions.Text.{Text}
use conda_presto.OrderedDict.{OrderedDict}
use conda_presto.Resolve.Dispatch.{Outcome, returned}
use conda_presto.Exporter.{Exporter, rendered, render}
use conda_presto.Workspace.Error.{
  Error, ◌>>=◌, bind-eq-returned, traverse, Answers, no_more, answer, traverse-Answers,
  select_one_environment, shared_subdir, select_one_target, manifest_in_extraction,
}
use conda_presto.Workspace.Config.{Limits}
use conda_presto.Workspace.Select.{is_empty}
use conda_presto.Workspace.Input.{refuse_if}
use conda_presto.Workspace.Input.Composed.{passes, refused_if}
use conda_presto.Workspace.Output.{combined, multiplatform}
use conda_presto.Workspace.Output.Representable.{all_one, several_or_one}
use conda_presto.Workspace.Input.Composed.{length-map}
use conda_presto.WorkspaceLock.Loader.{
  SavedEnvironment, Loader, WorkspaceLockTarget, WorkspaceLockInput,
}
use conda_presto.WorkspaceLock.Input.{Conda, environment}
use conda_presto.WorkspaceLock.Input.Verified.{Verified, environment-Verified}
use conda_presto.WorkspaceLock.Output.{
  group, has_manifest, body_of, names_requested, extraction, converted, render_lock,
}
use conda_presto.WorkspaceLock.Output.Each.{body_of-returned}

module _ (conda : Conda) (limits : Limits) (self : WorkspaceLockInput) (requested : Bool) where
  -- The verified environments of targets, in order.
  pub data Loaded : List WorkspaceLockTarget → List SavedEnvironment → Type 0 where
    none_loaded : Loaded [] []
    loaded :
        (t : WorkspaceLockTarget) (env : SavedEnvironment) (ts : List WorkspaceLockTarget)
        (envs : List SavedEnvironment)
        → Verified conda limits self.loader t requested self.manifest env
        → Loaded ts envs
        → Loaded (t ∷ ts) (env ∷ envs)

  answers-Loaded :
      (ts : List WorkspaceLockTarget) (envs : List SavedEnvironment)
      → Answers (λ t. environment conda limits self t requested) ts envs
      → Loaded ts envs × (length envs ≡ length ts)
  answers-Loaded _ _ no_more = (none_loaded, refl)
  answers-Loaded _ _ (answer t env ts envs h more) =
      let (rest, same) = answers-Loaded ts envs more in
      (
        loaded t env ts envs (environment-Verified conda limits self t requested env h) rest,
        ap suc same,
      )

module _ {E : Type 0} (conda : Conda) (limits : Limits) (output : Exporter SavedEnvironment E)
    (extract : Loader → OrderedDict String (List String) → Outcome Error Text)
    (failure : E → Error) where
  -- One document of the selected targets, by an exporter of environments.
  pub record IsConverted (self : WorkspaceLockInput) (text : Text) : Type 0 where
    pub one_environment :
        (name : String) × (all (λ a. a == name) (map (λ t. t.environment) self.selected) ≡ true)
    pub envs : List SavedEnvironment
    pub loads :
        Loaded conda limits self
          (names_requested conda limits output extract failure)
          self.selected
          envs
    pub platforms : distinct (map (λ e. e.platform) envs) ≡ true
    pub one_or_several : (multiplatform output ≡ true) ⊎ (length self.selected ≡ 1)
    pub media_type : Text
    pub body : render output envs ≡ rendered text media_type

  converted-IsConverted :
      (self : WorkspaceLockInput) (text : Text)
      → converted conda limits output extract failure self ≡ returned text
      → IsConverted self text
  unfolding converted
  converted-IsConverted self text h =
      let requested = names_requested conda limits output extract failure in
      let names = map (λ t. t.environment) self.selected in
      let load : WorkspaceLockTarget → Outcome Error SavedEnvironment =
        λ t. environment conda limits self t requested in
      let shared : List SavedEnvironment → Bool =
        λ envs. not (length (dedupe (map (λ e. e.platform) envs)) == length self.selected) in
      let alone = not (multiplatform output) && not (length self.selected == 1) in
      let last : List SavedEnvironment → Outcome Error Text =
        λ envs. body_of conda limits output extract failure (render output envs) in
      let ends : List SavedEnvironment → Outcome Error Text = λ envs.
        refuse_if (shared envs) shared_subdir >>= λ _.
        refuse_if alone select_one_target >>= λ _. last envs in
      let ((u, one), rest) =
        passes (refuse_if (not (length (dedupe names) == 1)) select_one_environment)
          (traverse load self.selected >>= ends) text h in
      let (envs, found, rest_2) = bind-eq-returned (traverse load self.selected) ends text rest in
      let ((v, apart), rest_3) =
        passes (refuse_if (shared envs) shared_subdir)
          (refuse_if alone select_one_target >>= λ _. last envs) text rest_2 in
      let ((x, fits), rest_4) =
        passes (refuse_if alone select_one_target) (last envs) text rest_3 in
      let (media_type, body) =
        body_of-returned conda limits output extract failure (render output envs) text rest_4 in
      let (all_loaded, as_many) =
        answers-Loaded conda limits self requested self.selected envs
          (traverse-Answers load self.selected envs found) in
      let counted : length (dedupe names) ≡ 1 = ==→eq (length (dedupe names)) 1 (
        affirmed (length (dedupe names) == 1)
          (refused_if (not (length (dedupe names) == 1)) select_one_environment u one)) in
      let subdirs = map (λ e. e.platform) envs in
      let distinct_many : length (dedupe subdirs) ≡ length self.selected =
        ==→eq (length (dedupe subdirs)) (length self.selected) (
          affirmed (length (dedupe subdirs) == length self.selected)
            (refused_if (shared envs) shared_subdir v apart)) in
      record {
        one_environment = all_one names (dedupe names) (λ a p. contains-dedupe names a ∙ p) counted;
        envs = envs;
        loads = all_loaded;
        platforms =
            distinct-length subdirs
              (distinct_many ∙ sym as_many ∙ sym (length-map (λ e. e.platform) envs));
        one_or_several =
            several_or_one (multiplatform output) (length self.selected)
              (refused_if alone select_one_target x fits);
        media_type = media_type;
        body = body;
      }

  -- What `render` may have written.
  pub data Exported (self : WorkspaceLockInput) (text : Text) : Type 0 where
    extracted :
        combined output ≡ true
        → has_manifest self.manifest ≡ false
        → extract self.loader (group [] self.selected) ≡ returned text
        → Exported self text
    converts : combined output ≡ false → IsConverted self text → Exported self text

  extraction-Exported :
      (self : WorkspaceLockInput) (text : Text)
      → combined output ≡ true
      → extraction conda limits output extract failure self ≡ returned text
      → Exported self text
  unfolding extraction
  extraction-Exported self text c h =
      let ((u, no_manifest), rest) =
        passes (refuse_if (has_manifest self.manifest) manifest_in_extraction)
          (extract self.loader (group [] self.selected)) text h in
      extracted c (refused_if (has_manifest self.manifest) manifest_in_extraction u no_manifest)
        rest

  -- `render` writes a document of at least one selected target. The exporter of combined locks gets
  -- the saved entries of the targets, and no manifest may change these. Any other gets the verified
  -- environments of all targets, in order: of one environment, on distinct platforms, and a single
  -- one if it writes no file for several; and it is none of the two lockfile exporters, which would
  -- lose metadata.
  pub render_lock-Exported :
      (self : WorkspaceLockInput) (text : Text)
      → render_lock conda limits output extract failure self ≡ returned text
      → (is_empty self.selected ≡ false)
        × ((combined output ≡ true)
            ⊎ (contains ("conda-lock-v1" ∷ "rattler-lock-v6" ∷ []) output.name ≡ false))
        × Exported self text
  unfolding render_lock
  render_lock-Exported self text h = elim (Bool-cases (is_empty self.selected)) [
    | inl e ↦ absurd (let h' = rw e at h in cc h')
    | inr e ↦ elim (Bool-cases (combined output)) [
      | inl c ↦ (e, inl c, extraction-Exported self text c (rw (e, c) at h))
      | inr c ↦
          let lockfile = contains ("conda-lock-v1" ∷ "rattler-lock-v6" ∷ []) output.name in
          elim (Bool-cases lockfile) [
            | inl l ↦ absurd (let h' = rw (e, c, l) at h in cc h')
            | inr l ↦ (e, inr l, converts c (converted-IsConverted self text (rw (e, c, l) at h)))
          ]
    ]
  ]
