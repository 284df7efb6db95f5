-- ===== src/Tests/App.antt =====
-- Requests at a server with a small allowlist.
use conda_presto.Prelude.{
  ℕ, suc, String, ◌≡◌, refl, true, false, Option, none, some, List, [], ◌∷◌, All, string_eq,
  list_eq, nat_eq, ◌==◌, if◌then◌else◌,
}
use conda_presto.Exceptions.Text.{Text, codes, text_eq, take_while, drop_while}
use conda_presto.App.Response.{unsupported_channels}
use conda_presto.App.Channels.{
  validate_channels, allowed_urls, check, invalid_channels, is_invalid, split_raises,
  resolved_channel_urls, reject, removesuffix, scheme,
}
use conda_presto.App.Channels.Allowed.{IsAllowed, validate_channels-IsAllowed}
use conda_presto.App.Caps.{Settings}
use conda_presto.App.Request.{ResolveRequest}
use conda_presto.App.Inputs.{Parser, parsed, inputs}
use conda_presto.App.Inputs.Within.{IsChecked, inputs-IsChecked}
use conda_presto.Resolve.Snapshot.{Snapshot, is_cacheable_after, markers_eq}
use conda_presto.App.Solve.{
  ResultStore, payload, known, Job, answered, keep, is_retained, solve_after, after_lookup, look_up,
  serve, serve_format, run_cached_solve,
}
use conda_presto.App.Solve.Honest.{IsHonest, run_cached_solve-IsHonest}

abbrev urls : String → Option (List Text)
urls channel =
    if channel == "conda-forge"
    then some (codes "https://conda.anaconda.org/conda-forge/noarch" ∷ [])
    else if channel == "local"
    then some (codes "file:///srv/local/noarch" ∷ [])
    else none

abbrev settings : Settings
settings = record {
  max_specs = 2;
  max_channels = 1;
  max_platforms = 1;
  channel_allowlist = "conda-forge" ∷ [];
  default_channels = "conda-forge" ∷ [];
  known_subdirs = "linux-64" ∷ "osx-64" ∷ [];
  native_subdir = "linux-64";
  urls = urls;
  malformed = λ url. false;
}

local_refused :
    validate_channels urls (λ url. false) ("*" ∷ []) ("local" ∷ []) ≡ some unsupported_channels
unfolding validate_channels allowed_urls check invalid_channels is_invalid split_raises
    resolved_channel_urls reject removesuffix scheme text_eq take_while drop_while string_eq list_eq
    nat_eq
local_refused = refl

forge_accepted :
    validate_channels urls (λ url. false) ("conda-forge" ∷ []) ("conda-forge" ∷ []) ≡ none
unfolding validate_channels allowed_urls check invalid_channels is_invalid split_raises
    resolved_channel_urls reject removesuffix scheme text_eq take_while drop_while string_eq list_eq
    nat_eq
forge_accepted = refl

validate_channels-IsAllowed_example : All (IsAllowed urls ("conda-forge" ∷ [])) ("conda-forge" ∷ [])
validate_channels-IsAllowed_example =
    validate_channels-IsAllowed urls (λ url. false) ("conda-forge" ∷ []) ("conda-forge" ∷ [])
      forge_accepted

abbrev parse : Parser
parse content filename platforms environments = parsed (record {
  specs = "numpy" ∷ [];
  channels = [];
  is_lockfile = false;
  available_platforms = [];
  has_workspace_lock = false;
  workspace = none;
})

abbrev request : ResolveRequest
request = record {
  specs = some ("python" ∷ []);
  file = some "dependencies: [numpy]";
  filename = some "environment.yml";
  channels = none;
  platforms = some ("linux-64" ∷ []);
  environments = none;
}

inputs-IsChecked_example : IsChecked settings request (inputs settings parse true request)
inputs-IsChecked_example = inputs-IsChecked settings parse true request

-- a cache in which nothing is stored, which counts what it is asked to keep
abbrev forgetful : ResultStore ℕ String
forgetful = record {
  get_response = λ key kept. (none, kept);
  remember = λ key body media_type retain kept. (media_type, (if retain then suc kept else kept));
}

abbrev unchanged : Snapshot
unchanged = record { records = []; stale = false }

abbrev job : Job
job = record {
  has_credentials = false;
  format = known (some "conda-lockfiles 1");
  late = λ stage. false;
  key_for = λ snapshot. "digest";
  initial = unchanged;
  current = unchanged;
  last = unchanged;
  result = payload (123 ∷ 125 ∷ []) "application/json";
}

result_kept : run_cached_solve forgetful job 0 ≡ (answered "application/json", 1)
unfolding run_cached_solve serve_format serve look_up after_lookup solve_after keep is_retained
    is_cacheable_after markers_eq
result_kept = refl

run_cached_solve-IsHonest_example : IsHonest forgetful job 0 (run_cached_solve forgetful job 0)
run_cached_solve-IsHonest_example = run_cached_solve-IsHonest forgetful job 0
