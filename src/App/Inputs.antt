-- ===== src/App/Inputs.antt =====
-- `ResolveRequest.inputs` and `parse_input_for_request`: what a request asks to solve.
pub mod Within
use conda_presto.Prelude.{
  ℕ, String, Bool, true, false, not, ◌&&◌, Option, none, some, List, [], ◌∷◌, ◌++◌, all, contains,
  string_eq, if◌then◌else◌,
}
use conda_presto.App.Response.{
  Response, parse_timeout, parse_failed, lockfile_not_solvable, selection_failed,
  workspace_overrides_refused, workspace_sbom_unsupported, locked_sbom_needs_workspace,
  environments_need_workspace, lockfile_records_unavailable, lockfile_lacks_platforms,
  nothing_to_solve,
}
use conda_presto.App.Caps.{Settings, validate_caps}
use conda_presto.App.Request.{ResolveRequest, or_empty}

-- A selected target of a workspace, with `workspace.solve_channels(target)`.
pub record Target : Type 0 where
  pub specs : List String
  pub solve_channels : List String
  pub subdir : String

-- What `workspace.select` returns or raises.
pub data Selection : Type 0 where
  selected : List Target → Selection
  value_error : String → Selection

-- The fields of a parsed file that `inputs` reads. Workspaces are selected from by environments and
-- platforms.
pub record ParsedInputFile : Type 0 where
  pub specs : List String
  pub channels : List String
  pub is_lockfile : Bool
  pub available_platforms : List String
  pub has_workspace_lock : Bool
  pub workspace : Option (Option (List String) → Option (List String) → Selection)

-- How the parse ends: in time, or past its deadline, or with an error of conda or `ValueError`.
pub data ParseRun : Type 0 where
  parsed : ParsedInputFile → ParseRun
  timed_out : ParseRun
  raises : String → ParseRun

pub data Inputs : Type 0 where
  to_solve : ResolveRequest → Inputs
  workspace_to_solve : List Target → Inputs
  refused : Response → Inputs

-- The parse itself (inputs.py and conda), by content, filename, platforms and environments.
abbrev pub Parser : Type 0
Parser = String → Option String → Option (List String) → Option (List String) → ParseRun

abbrev pub is_empty : List String → Bool
is_empty [] = true
is_empty (x ∷ xs) = false

-- `xs or ys`
abbrev pub first_given : List String → List String → List String
first_given [] ys = ys
first_given (x ∷ xs) ys = x ∷ xs

-- `if error := ...: return error`
abbrev pub unless : Option Response → Inputs → Inputs
unless none result = result
unless (some response) result = refused response

abbrev pub or_else : Option Response → Option Response → Option Response
or_else none rest = rest
or_else (some response) rest = some response

module _ (settings : Settings) where
  -- the end of `inputs`, when there is something to solve
  unfoldable pub solvable : ResolveRequest → List String → List String → List String → Inputs
  unfolding validate_caps
  solvable self specs channels platforms =
      unless (validate_caps settings specs channels platforms true) (
        to_solve (record self {
          specs = some specs;
          channels = some channels;
          platforms = some platforms;
        }))

  -- why there is nothing to solve
  unfoldable pub unsolvable : List String → Option ParsedInputFile → Response
  unsolvable platforms none = nothing_to_solve
  unsolvable platforms (some file) =
      if not file.is_lockfile
      then nothing_to_solve
      else if all (contains file.available_platforms)
          (first_given platforms (settings.native_subdir ∷ []))
      then lockfile_records_unavailable
      else lockfile_lacks_platforms

  unfoldable pub conclude :
      ResolveRequest
      → Option ParsedInputFile
      → Option (List String)
      → (specs channels platforms : List String) → Inputs
  unfolding solvable unsolvable
  conclude self file (some environments) specs channels platforms =
      refused environments_need_workspace
  conclude self file none [] channels platforms = refused (unsolvable platforms file)
  conclude self file none (spec ∷ specs) channels platforms =
      solvable self (spec ∷ specs) (first_given channels settings.default_channels) platforms

  -- the first target that is over a limit decides
  unfoldable pub target_error : List Target → Option Response
  unfolding validate_caps
  target_error [] = none
  target_error (t ∷ ts) =
      or_else (validate_caps settings t.specs t.solve_channels (t.subdir ∷ []) true)
        (target_error ts)

  unfoldable pub select : Selection → Inputs
  unfolding target_error
  select (value_error message) = refused (selection_failed message)
  select (selected targets) = unless (target_error targets) (workspace_to_solve targets)

  unfoldable pub inputs_of :
      Bool
      → ResolveRequest
      → ParsedInputFile
      → Option (Option (List String) → Option (List String) → Selection)
      → Inputs
  unfolding select conclude
  inputs_of allow_lockfile self file (some workspace) =
      if allow_lockfile && (is_empty (or_empty self.specs) && is_empty (or_empty self.channels))
      then select (workspace self.environments self.platforms)
      else if allow_lockfile
      then refused workspace_overrides_refused
      else refused workspace_sbom_unsupported
  inputs_of allow_lockfile self file none =
      if file.is_lockfile && not allow_lockfile
      then refused locked_sbom_needs_workspace
      else conclude self (some file) self.environments (or_empty self.specs ++ file.specs)
          (first_given (or_empty self.channels) file.channels) (or_empty self.platforms)

  unfoldable pub inputs_after : Bool → ResolveRequest → ParseRun → Inputs
  unfolding inputs_of
  inputs_after allow_lockfile self timed_out = refused parse_timeout
  inputs_after allow_lockfile self (raises message) = refused (parse_failed message)
  inputs_after allow_lockfile self (parsed file) =
      if file.has_workspace_lock && allow_lockfile
      then refused lockfile_not_solvable
      else inputs_of allow_lockfile self file file.workspace

  unfoldable pub inputs_with : Parser → Bool → ResolveRequest → Option String → Inputs
  unfolding inputs_after conclude
  inputs_with parse allow_lockfile self none =
      conclude self none self.environments (or_empty self.specs) (or_empty self.channels)
        (or_empty self.platforms)
  inputs_with parse allow_lockfile self (some content) =
      inputs_after allow_lockfile self
        (parse content self.filename self.platforms self.environments)

  -- `ResolveRequest.inputs`
  unfoldable pub inputs : Parser → Bool → ResolveRequest → Inputs
  unfolding inputs_with
  inputs parse allow_lockfile self = inputs_with parse allow_lockfile self self.file
