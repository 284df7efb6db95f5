-- ===== src/WorkspaceLock/Output/Each.antt =====
-- One document for each selected target.
use mathlib.Core.Path.{subst}
use conda_presto.Prelude.{String, ◌≡◌, ap, Bool, false, List, [], ◌∷◌, Bool-cases, inl, inr}
use conda_presto.Exceptions.Text.{Text}
use conda_presto.OrderedDict.{OrderedDict}
use conda_presto.Resolve.Dispatch.{Outcome, returned}
use conda_presto.Exporter.{Exporter, Rendered, rendered, unknown_format, fails, render}
use conda_presto.Workspace.Error.{
  Error, ◌>>=◌, bind-eq-returned, Answers, no_more, answer, traverse-Answers,
}
use conda_presto.Workspace.Config.{Limits}
use conda_presto.Workspace.Select.{is_empty}
use conda_presto.WorkspaceLock.Loader.{
  SavedEnvironment, Loader, WorkspaceLockTarget, WorkspaceLockInput,
}
use conda_presto.WorkspaceLock.Input.{Conda, environment}
use conda_presto.WorkspaceLock.Input.Verified.{Verified, environment-Verified}
use conda_presto.WorkspaceLock.Output.{
  WorkspaceLockExport, body_of, names_requested, render_target, render_each,
}

module _ {E : Type 0} (conda : Conda) (limits : Limits) (output : Exporter SavedEnvironment E)
    (extract : Loader → OrderedDict String (List String) → Outcome Error Text)
    (failure : E → Error) where
  pub body_of-returned :
      (r : Rendered E) (text : Text)
      → body_of conda limits output extract failure r ≡ returned text
      → (media_type : Text) × (r ≡ rendered text media_type)
  body_of-returned (rendered body media_type) text h =
      let same : body ≡ text = cc h in (media_type, ap (λ t. rendered t media_type) same)
  body_of-returned (unknown_format name) text h = cc h
  body_of-returned (fails e) text h = cc h

  abbrev requested : Bool
  requested = names_requested conda limits output extract failure

  -- The documents of the targets, in order, each of its target's verified environment alone.
  pub data Written (self : WorkspaceLockInput)
      : List WorkspaceLockTarget → List WorkspaceLockExport → Type 0 where
    none_written : Written self [] []
    written :
        (t : WorkspaceLockTarget) (env : SavedEnvironment) (text media_type : Text)
        (ts : List WorkspaceLockTarget) (exports : List WorkspaceLockExport)
        → Verified conda limits self.loader t requested self.manifest env
        → render output (env ∷ []) ≡ rendered text media_type
        → Written self ts exports
        → Written self (t ∷ ts) (
            record {
              environment = t.environment;
              platform = t.platform;
              subdir = env.platform;
              content = text;
            }
            ∷ exports)

  targets-Written :
      (self : WorkspaceLockInput) (ts : List WorkspaceLockTarget)
      (exports : List WorkspaceLockExport)
      → Answers (render_target conda limits output extract failure self) ts exports
      → Written self ts exports
  unfolding render_target
  targets-Written self _ _ no_more = none_written
  targets-Written self _ _ (answer t export ts exports h more) =
      let made : SavedEnvironment → Text → WorkspaceLockExport = λ env text. record {
        environment = t.environment;
        platform = t.platform;
        subdir = env.platform;
        content = text;
      } in
      let rest = targets-Written self ts exports more in
      let (env, found, body) =
        bind-eq-returned (environment conda limits self t requested)
          (λ env. body_of conda limits output extract failure (render output (env ∷ [])) >>= λ text.
            returned (made env text))
          export h in
      let (text, writes, last) =
        bind-eq-returned (body_of conda limits output extract failure (render output (env ∷ [])))
          (λ text. returned (made env text)) export body in
      let (media_type, whole) = body_of-returned (render output (env ∷ [])) text writes in
      let same : made env text ≡ export = cc last in
      subst (λ one. Written self (t ∷ ts) (one ∷ exports)) same
        (written t env text media_type ts exports
          (environment-Verified conda limits self t requested env found) whole rest)

  -- `render_each` returns a document for every selected target, at least one, in order, or none at
  -- all: each is what the exporter, which is not one of lockfiles, writes for the verified
  -- environment of that target alone, and says which target it is of.
  pub render_each-Written :
      (self : WorkspaceLockInput) (exports : List WorkspaceLockExport)
      → render_each conda limits output extract failure self ≡ returned exports
      → (output.is_lockfile ≡ false)
        × (is_empty self.selected ≡ false)
        × Written self self.selected exports
  unfolding render_each render
  render_each-Written self exports h = elim (Bool-cases output.is_lockfile) [
    | inl l ↦ absurd (let h' = rw l at h in cc h')
    | inr l ↦ elim (Bool-cases (is_empty self.selected)) [
      | inl e ↦ absurd (let h' = rw (l, e) at h in cc h')
      | inr e ↦ (
        l,
        e,
        targets-Written self self.selected exports (
            traverse-Answers (render_target conda limits output extract failure self) self.selected
              exports (rw (l, e) at h)),
      )
    ]
  ]
