-- ===== src/Cache/Stored.antt =====
-- The asynchronous methods of `ResultCache`. Between a request to the persistent store and its
-- reply, other tasks of the event loop may run and change the cache: an oracle gives, for each
-- request, the reply and what the others did meanwhile.
pub mod Sound
pub mod Writes
pub mod Runs
pub mod Publication
use text.Mathlib.Text.{starts_with}
use conda_presto.Prelude.{
  ℕ, suc, String, ◌<>◌, Bool, true, false, not, ◌&&◌, ◌||◌, Option, none, some, List, [], ◌∷◌, ◌++◌,
  length, ltb, ◌==◌, if◌then◌else◌, string_eq,
}
use conda_presto.OrderedDict
use conda_presto.Task.{Task, pure, gets, modify, ◌>>=◌, ◌>>◌}
use conda_presto.Cache.Types.{
  StoredResult, Codec, ResultCache, stored_entry_has_credentials, digest, resolve_key,
  result_cache_store_prefix, result_cache_max_stored_bytes,
}
use conda_presto.Cache.Memory.{forget, remember_memory}

-- What is asked of `StoreOperationCoordinator`, and its answer: the operation completed, with the
-- payload of a get; it missed the deadline; it raised.
pub data Request : Type 0 where
  fetch : String → Request
  store : String → List ℕ → Request
  delete : String → Request

pub data Reply : Type 0 where
  completed : Option (List ℕ) → Reply
  timed_out failed : Reply

pub record Event : Type 0 where
  pub reply : Reply
  pub others : ResultCache → ResultCache

pub record World : Type 0 where
  pub cache : ResultCache
  -- the number of requests that were answered, and the requests in order
  pub time : ℕ
  pub sent : List Request

abbrev on_cache : (ResultCache → ResultCache) → World → World
on_cache f w = record w { cache = f w.cache }

touch : String → ResultCache → ResultCache
touch key cache = record cache { entries = OrderedDict.move_to_end key cache.entries }

pub record Response : Type 0 where
  pub body : List ℕ
  pub media_type : String
  pub cache_control : String
  pub location : Option String

-- `ResultCache.response_for`
unfoldable pub response_for : StoredResult → String → Bool → Bool → Response
response_for stored location immutable retained = record {
  body = stored.body;
  media_type = stored.media_type;
  cache_control = if immutable then "public, max-age=86400, immutable" else "no-store";
  location = if retained then some location else none;
}

-- the permanent path of an artifact, `f"/r/{digest}"`
abbrev pub result_path : String → String
result_path digest = "/r/" <> digest

-- `location if immutable and location is not None else f"/r/{digest}"`
path_for : Option String → String → Bool → String
path_for none digest immutable = result_path digest
path_for (some location) digest immutable = if immutable then location else result_path digest

module _ (c : Codec) where
  -- The key names an artifact by another digest than the result has.
  unfoldable pub is_mismatched : String → StoredResult → Bool
  is_mismatched key s =
      starts_with key result_cache_store_prefix && not (key == resolve_key (digest c s))

module _ (c : Codec) (oracle : ℕ → Event) where
  pub ask : Request → Task World Reply
  ask request w = (
    (oracle w.time).reply,
    record {
      cache = (oracle w.time).others w.cache;
      time = suc w.time;
      sent = w.sent ++ (request ∷ []);
    },
  )

  -- `ResultCache.delete_persistent`: what the store answers is only logged
  unfoldable pub delete_persistent : String → Task World (Unit {0})
  unfolding ask pure ◌>>=◌
  delete_persistent key w =
      (if w.cache.persistent then (do ask (delete key); pure tt) else pure tt) w

  -- `ResultCache.discard`
  unfoldable pub discard : String → Task World (Unit {0})
  unfolding delete_persistent
  discard key = do modify (on_cache (forget key)); delete_persistent key

  from_memory : String → StoredResult → Task World (Option StoredResult)
  unfolding discard touch is_mismatched
  from_memory key stored =
      if is_mismatched c key stored
      then (do discard key; pure none)
      else if stored_entry_has_credentials c stored
      then (do discard key; pure none)
      else (do modify (on_cache (touch key)); pure (some stored))

  -- An entry that another task wrote during the read is preferred to the one that was read.
  settle_with : String → StoredResult → Option StoredResult → Task World (Option StoredResult)
  unfolding touch
  settle_with key stored (some current) = do modify (on_cache (touch key)); pure (some current)
  settle_with key stored none = do
    modify (on_cache (λ cache. (remember_memory c key stored cache).1))
    pure (some stored)

  settle : String → StoredResult → Task World (Option StoredResult)
  unfolding settle_with
  settle key stored w = settle_with key stored (OrderedDict.get key w.cache.entries) w

  accept : String → Option StoredResult → Task World (Option StoredResult)
  unfolding settle is_mismatched
  accept key none = do delete_persistent key; pure none
  accept key (some stored) =
      if is_mismatched c key stored
      then (do delete_persistent key; pure none)
      else if stored_entry_has_credentials c stored
      then (do delete_persistent key; pure none)
      else settle key stored

  from_reply : String → Reply → Task World (Option StoredResult)
  unfolding accept
  from_reply key timed_out = pure none
  from_reply key failed = pure none
  from_reply key (completed none) = pure none
  from_reply key (completed (some payload)) =
      if ltb result_cache_max_stored_bytes (length payload)
      then (do delete_persistent key; pure none)
      else accept key (c.msgpack_decode payload)

  read_through : String → Option StoredResult → Bool → Task World (Option StoredResult)
  unfolding from_memory from_reply ask
  read_through key (some stored) persistent = from_memory key stored
  read_through key none false = pure none
  read_through key none true = do reply ← ask (fetch key); from_reply key reply

  -- `ResultCache.get_stored`
  unfoldable pub get_stored : String → Task World (Option StoredResult)
  unfolding read_through
  get_stored key w = read_through key (OrderedDict.get key w.cache.entries) w.cache.persistent w

  -- a write counts as published only when the store has completed it
  publish : String → StoredResult → Reply → Task World Bool
  publish key stored timed_out = pure false
  publish key stored failed = pure false
  publish key stored (completed _) = do
    modify (on_cache (λ cache. (remember_memory c key stored cache).1))
    pure true

  remember_locally : String → StoredResult → Task World Bool
  remember_locally key stored w =
      let (kept, cache) = remember_memory c key stored w.cache in (kept, record w { cache = cache })

  store_remotely : String → StoredResult → Task World Bool
  unfolding publish ask
  store_remotely key stored = do
    modify (on_cache (forget key))
    if ltb result_cache_max_stored_bytes (length (c.msgpack_encode stored))
        then pure false
        else do reply ← ask (store key (c.msgpack_encode stored)); publish key stored reply

  -- `ResultCache.store_entry`
  unfoldable pub store_entry : String → StoredResult → Task World Bool
  unfolding discard remember_locally store_remotely
  store_entry key stored =
      if stored_entry_has_credentials c stored then (do discard key; pure false) else λ w.
      (if w.cache.persistent then store_remotely key stored else remember_locally key stored) w

  respond : Option StoredResult → Option String → Bool → Task World (Option Response)
  respond none location immutable = pure none
  respond (some stored) location immutable = do
    retained ← (if immutable then pure true else store_entry (resolve_key (digest c stored)) stored)
    pure (
        some
          (response_for stored (path_for location (digest c stored) immutable) immutable retained))

  -- `ResultCache.get_response`
  unfoldable pub get_response : String → Option String → Bool → Task World (Option Response)
  unfolding get_stored respond store_entry path_for
  get_response key location immutable = do
    stored ← get_stored key
    respond stored location immutable

  -- both entries of a new result: under the request, and under its digest
  retain_both : String → StoredResult → Task World Response
  unfolding store_entry
  retain_both key stored = do
    store_entry key stored
    retained ← store_entry (resolve_key (digest c stored)) stored
    pure (response_for stored (result_path (digest c stored)) false retained)

  -- `ResultCache.remember`
  unfoldable pub remember : String → List ℕ → String → Bool → Task World Response
  unfolding retain_both
  remember key body media_type retain =
      let stored : StoredResult = record { body = body; media_type = media_type } in
      if retain
      then retain_both key stored
      else pure (response_for stored (result_path (digest c stored)) false false)
