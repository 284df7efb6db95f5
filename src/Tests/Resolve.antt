-- ===== src/Tests/Resolve.antt =====
-- The platform context, dispatch, snapshots and the index cache on concrete data.
use conda_presto.Prelude.{
  ℕ, ◌≡◌, refl, String, true, false, none, some, List, [], ◌∷◌, All, inl, arith, string_eq, ◌==◌,
  if◌then◌else◌,
}
use conda_presto.OrderedDict
use conda_presto.Resolve.Platform.{Versions, Context, virtual_packages, find_overrides}
use conda_presto.Resolve.Dispatch.{Outcome, returned, raised, handle, IsCompletion, some_raised}
use conda_presto.Resolve.Snapshot.{Conda, Options, Snapshot, Stamp, capture, has_local_sources}
use conda_presto.Resolve.Snapshot.Local.{IsComplete, capture-IsComplete}
use conda_presto.Resolve.Index.{Helper, Indexes}

abbrev versions : Versions
versions = record { glibc = "2.17"; linux = "5.15"; osx = "11.0"; win = "0" }

abbrev fresh_context : Context
fresh_context = record {
  current_platform = none;
  subdir = none;
  overrides = [];
  json = false;
  solver = none;
  context_configured = false;
}

linux_overrides :
    find_overrides (virtual_packages versions) "linux-64"
    ≡ ("glibc", "2.17") ∷ ("linux", "5.15") ∷ []
unfolding find_overrides
linux_overrides = refl

-- a solver that fails on one platform
abbrev solver : String → Outcome String String
solver p = if p == "win-64" then raised "no such package" else returned p

abbrev as_result : String → String → String
as_result p message = message

abbrev value : String → String
value p = if p == "win-64" then "no such package" else p

abbrev completions : List (String × Outcome String String)
completions = ("win-64", solver "win-64") ∷ ("linux-64", solver "linux-64") ∷ []

completion : IsCompletion solver ("linux-64" ∷ "win-64" ∷ []) completions
unfolding string_eq
completion = record { outcomes = (refl, (refl, tt)); every = (refl, (refl, tt)) }

handled : (p : String) → handle (some as_result) p (solver p) ≡ returned (value p)
unfolding handle
handled p = ground arith

one_raised : some_raised completions ≡ true
unfolding string_eq
one_raised = refl

abbrev stamp : Stamp
stamp = record { mtime_ns = 1; ctime_ns = 2; dev = 3; ino = 4 }

abbrev conda : Conda
conda = record {
  urls = λ channel platform. "https://c/x" ∷ "https://c/noarch" ∷ [];
  credentialed_urls = λ channel platform. "https://c/x" ∷ "https://c/noarch" ∷ [];
  has_secret = λ channel. false;
  should_check_shards = λ url. false;
  stat = λ url source. some (10, stamp);
  cache_stale = λ url source. false;
}

abbrev options : Options
options = record { repodata_fn = "repodata.json"; use_shards = false; use_index_cache = false }

abbrev captured : Snapshot
captured = capture conda options ("c" ∷ []) ("x" ∷ []) none

captured_fresh : captured.stale ≡ false
unfolding capture string_eq OrderedDict.insert
captured_fresh = refl

capture-IsComplete_example :
    (captured.stale ≡ false)
    × (has_local_sources captured ≡ false)
    × All IsComplete captured.records
capture-IsComplete_example =
    capture-IsComplete conda options ("c" ∷ []) ("x" ∷ []) none none (inl captured_fresh)

-- an index is the list of the channels that were read
abbrev helper : Helper (List String)
helper = record {
  create = λ channels platform. channels;
  reload_channel = λ index channel. channel ∷ index;
}

abbrev key : List String → String → String
key channels platform = platform

abbrev unchanged : ℕ → Snapshot
unchanged n = record { records = []; stale = false }

abbrev no_indexes : Indexes String (List String)
no_indexes = record { cache = []; captures = 0 }
