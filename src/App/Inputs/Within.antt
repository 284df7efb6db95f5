-- ===== src/App/Inputs/Within.antt =====
-- What `inputs` lets through.
use conda_presto.Prelude.{
  String, ◌≡◌, refl, ◌≢◌, Bool, true, false, not, ◌&&◌, Bool-cases, Option, none, some, List, [],
  ◌∷◌, All, if◌then◌else◌, inl, inr,
}
use conda_presto.App.Response.{Response, workspace_overrides_refused, workspace_sbom_unsupported}
use conda_presto.App.Caps.{Settings, validate_caps, IsWithin, validate_caps-IsWithin}
use conda_presto.App.Request.{ResolveRequest, or_empty}
use conda_presto.App.Inputs.{
  Target, Selection, selected, value_error, ParsedInputFile, ParseRun, parsed, timed_out, raises,
  Inputs, to_solve, workspace_to_solve, refused, Parser, is_empty, first_given, unless, or_else,
  solvable, conclude, target_error, select, inputs_of, inputs_after, inputs_with, inputs,
}

both_none : (a b : Option Response) → or_else a b ≡ none → (a ≡ none) × (b ≡ none)
both_none none b h = (refl, h)
both_none (some response) b h = cc h

module _ (settings : Settings) where
  abbrev pub TargetIsWithin : Target → Type 0
  TargetIsWithin t = IsWithin settings t.specs t.solve_channels (t.subdir ∷ [])

  -- A request keeps its other fields, selects no environment and has something to solve; all that
  -- is to be solved is within the limits.
  abbrev pub IsChecked : ResolveRequest → Inputs → Type 0
  IsChecked self (refused response) = Unit
  IsChecked self (workspace_to_solve targets) = All TargetIsWithin targets
  IsChecked self (to_solve request) =
      (self.environments ≡ none)
      × (specs : List String) × (channels : List String) × (platforms : List String) × (request
          ≡ record self {
            specs = some specs;
            channels = some channels;
            platforms = some platforms;
          })
      × (specs ≢ [])
      × IsWithin settings specs channels platforms

  unless-IsChecked :
      (self : ResolveRequest) (o : Option Response) (result : Inputs)
      → (o ≡ none → IsChecked self result)
      → IsChecked self (unless o result)
  unless-IsChecked self none result h = h refl
  unless-IsChecked self (some response) result h = tt

  solvable-IsChecked :
      (self : ResolveRequest) (specs channels platforms : List String)
      → self.environments ≡ none
      → specs ≢ []
      → IsChecked self (solvable settings self specs channels platforms)
  unfolding solvable
  solvable-IsChecked self specs channels platforms e n =
      unless-IsChecked self (validate_caps settings specs channels platforms true) _ (λ v. (
        e,
        specs,
        channels,
        platforms,
        refl,
        n,
        validate_caps-IsWithin settings specs channels platforms v,
      ))

  conclude-IsChecked :
      (self : ResolveRequest) (file : Option ParsedInputFile) (environments : Option (List String))
      (specs channels platforms : List String)
      → self.environments ≡ environments
      → IsChecked self (conclude settings self file environments specs channels platforms)
  unfolding conclude
  conclude-IsChecked self file (some environments) specs channels platforms e = tt
  conclude-IsChecked self file none [] channels platforms e = tt
  conclude-IsChecked self file none (spec ∷ specs) channels platforms e =
      solvable-IsChecked self (spec ∷ specs) (first_given channels settings.default_channels)
        platforms e (λ c. cc c)

  target_error-within :
      (targets : List Target) → target_error settings targets ≡ none → All TargetIsWithin targets
  unfolding target_error
  target_error-within [] h = tt
  target_error-within (t ∷ ts) h =
      let (first, rest) =
        both_none (validate_caps settings t.specs t.solve_channels (t.subdir ∷ []) true)
          (target_error settings ts) h in
      (
        validate_caps-IsWithin settings t.specs t.solve_channels (t.subdir ∷ []) first,
        target_error-within ts rest,
      )

  select-IsChecked : (self : ResolveRequest) (s : Selection) → IsChecked self (select settings s)
  unfolding select
  select-IsChecked self (value_error message) = tt
  select-IsChecked self (selected targets) =
      unless-IsChecked self (target_error settings targets) _ (target_error-within targets)

  workspace_only :
      (alone allow_lockfile : Bool) (self : ResolveRequest) (s : Selection)
      → IsChecked self (
          if alone
          then select settings s
          else if allow_lockfile
          then refused workspace_overrides_refused
          else refused workspace_sbom_unsupported)
  workspace_only true allow_lockfile self s = select-IsChecked self s
  workspace_only false true self s = tt
  workspace_only false false self s = tt

  inputs_of-IsChecked :
      (allow_lockfile : Bool) (self : ResolveRequest) (file : ParsedInputFile)
      (workspace : Option (Option (List String) → Option (List String) → Selection))
      → IsChecked self (inputs_of settings allow_lockfile self file workspace)
  unfolding inputs_of
  inputs_of-IsChecked allow_lockfile self file (some workspace) =
      workspace_only
        (allow_lockfile && (is_empty (or_empty self.specs) && is_empty (or_empty self.channels)))
        allow_lockfile self (workspace self.environments self.platforms)
  inputs_of-IsChecked allow_lockfile self file none =
      elim (Bool-cases (file.is_lockfile && not allow_lockfile)) [
        | inl e ↦ rw e tt
        | inr e ↦ rw e (conclude-IsChecked self (some file) self.environments _ _ _ refl)
      ]

  inputs_after-IsChecked :
      (allow_lockfile : Bool) (self : ResolveRequest) (run : ParseRun)
      → IsChecked self (inputs_after settings allow_lockfile self run)
  unfolding inputs_after
  inputs_after-IsChecked allow_lockfile self timed_out = tt
  inputs_after-IsChecked allow_lockfile self (raises message) = tt
  inputs_after-IsChecked allow_lockfile self (parsed file) =
      elim (Bool-cases (file.has_workspace_lock && allow_lockfile)) [
        | inl e ↦ rw e tt
        | inr e ↦ rw e (inputs_of-IsChecked allow_lockfile self file file.workspace)
      ]

  inputs_with-IsChecked :
      (parse : Parser) (allow_lockfile : Bool) (self : ResolveRequest) (file : Option String)
      → IsChecked self (inputs_with settings parse allow_lockfile self file)
  unfolding inputs_with
  inputs_with-IsChecked parse allow_lockfile self none =
      conclude-IsChecked self none self.environments _ _ _ refl
  inputs_with-IsChecked parse allow_lockfile self (some content) =
      inputs_after-IsChecked allow_lockfile self
        (parse content self.filename self.platforms self.environments)

  -- Whatever the request and its file, `inputs` refuses, or what it gives to be solved is within
  -- the limits and the allowlist: each selected target of a workspace, or the request itself, which
  -- then keeps its other fields, has specs and selects no environment.
  pub inputs-IsChecked :
      (parse : Parser) (allow_lockfile : Bool) (self : ResolveRequest)
      → IsChecked self (inputs settings parse allow_lockfile self)
  unfolding inputs
  inputs-IsChecked parse allow_lockfile self =
      inputs_with-IsChecked parse allow_lockfile self self.file
