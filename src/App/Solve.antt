-- ===== src/App/Solve.antt =====
-- `run_cached_solve`: a solve through the result cache.
pub mod Honest
use conda_presto.Prelude.{
  ℕ, String, Bool, true, false, not, ◌&&◌, Option, none, some, List, ◌==◌, if◌then◌else◌,
}
use conda_presto.Task.{Task}
use conda_presto.Cache.Types.{request_key}
use conda_presto.Resolve.Snapshot.{Snapshot, markers_eq, is_cacheable_after}
use conda_presto.App.Response.{Response, unknown_format, solve_timeout}

-- What of `ResultCache` is called: a world `W` and the replies are the cache's.
pub record ResultStore (W Reply : Type 0) : Type 0 where
  pub get_response : String → Task W (Option Reply)
  pub remember : String → List ℕ → String → Bool → Task W Reply

-- What `run_solve` returns: a body with its media type, or an error response.
pub data Payload : Type 0 where
  payload : List ℕ → String → Payload
  error_response : Response → Payload

-- The export format, if one is wanted: known with its exporter's identity, or unknown.
pub data Format : Type 0 where
  native : Format
  known : (identity : Option String) → Format
  unknown : (available : List String) → Format

-- Where the deadline may have passed: at the start, once the state is captured, after the lookup,
-- once the state is captured again, after the solve, after the last capture, and after the result
-- is stored.
pub data Stage : Type 0 where
  entered captured looked_up confirmed solved refreshed remembered : Stage

-- One request, and what happens while it is served: the snapshots that the captures take, in their
-- order, and what the solve comes to. `key_for` is the digest of the request with a snapshot.
pub record Job : Type 0 where
  pub has_credentials : Bool
  pub format : Format
  pub late : Stage → Bool
  pub key_for : Snapshot → String
  pub initial : Snapshot
  pub current : Snapshot
  pub last : Snapshot
  pub result : Payload

pub data Outcome (Reply : Type 0) : Type 0 where
  answered : Reply → Outcome Reply
  refused : Response → Outcome Reply

abbrev pub key_of : Job → Snapshot → String
key_of job snapshot = request_key (job.key_for snapshot)

-- Whether the result of a solve after `before` may be kept.
unfoldable pub is_retained : Job → Bool → Snapshot → Bool
unfolding is_cacheable_after
is_retained job retain_result before =
    retain_result
    && (job.last.records == before.records && is_cacheable_after job.last (some before))

abbrev pub has_identity : Format → Bool
has_identity native = true
has_identity (known none) = false
has_identity (known (some identity)) = true
has_identity (unknown available) = false

module _ {W Reply : Type 0} (store : ResultStore W Reply) (job : Job) where
  unfoldable pub keep : Bool → Snapshot → Payload → Task W (Outcome Reply)
  unfolding is_retained
  keep retain_result before (error_response response) w = (refused response, w)
  keep retain_result before (payload body media_type) w =
      if job.late refreshed
      then (refused solve_timeout, w)
      else (let (reply, w') =
            store.remember (key_of job job.last) body media_type
              (is_retained job retain_result before) w in
          (if job.late remembered then refused solve_timeout else answered reply, w'))

  unfoldable pub solve_after : Bool → Snapshot → Task W (Outcome Reply)
  unfolding keep
  solve_after retain_result before w =
      if job.late solved then (refused solve_timeout, w) else keep retain_result before job.result w

  -- Whether a retained response is still that of the state on disk.
  abbrev pub is_current : Bool
  is_current = not job.current.stale && (job.current.records == job.initial.records)

  unfoldable pub after_lookup : Bool → Option Reply → Task W (Outcome Reply)
  unfolding solve_after
  after_lookup retain_result none w =
      if job.late looked_up
      then (refused solve_timeout, w)
      else solve_after retain_result job.initial w
  after_lookup retain_result (some reply) w =
      if job.late looked_up
      then (refused solve_timeout, w)
      else if is_current
      then (if job.late confirmed then refused solve_timeout else answered reply, w)
      else solve_after retain_result job.current w

  unfoldable pub look_up : Bool → Task W (Outcome Reply)
  unfolding after_lookup
  look_up retain_result w =
      if retain_result && not job.initial.stale
      then (let (cached, w') = store.get_response (key_of job job.initial) w in
          after_lookup retain_result cached w')
      else solve_after retain_result job.initial w

  unfoldable pub serve : Bool → Task W (Outcome Reply)
  unfolding look_up
  serve retain_result w =
      if job.late entered
      then (refused solve_timeout, w)
      else if job.late captured
      then (refused solve_timeout, w)
      else look_up retain_result w

  unfoldable pub serve_format : Format → Task W (Outcome Reply)
  unfolding serve
  serve_format native w = serve (not job.has_credentials) w
  serve_format (known identity) w =
      serve (not job.has_credentials && has_identity (known identity)) w
  serve_format (unknown available) w = (refused (unknown_format available), w)

  -- `run_cached_solve`
  unfoldable pub run_cached_solve : Task W (Outcome Reply)
  unfolding serve_format
  run_cached_solve w = serve_format job.format w
