-- ===== src/Tests/Cache.antt =====
-- The result cache: a codec that can be run, a store that answers, and runs.
use conda_presto.Prelude.{
  ℕ, ◌≤◌, ◌≡◌, refl, Bool, true, false, Option, none, some, List, [], ◌∷◌, ◌++◌, length, ltb, any,
  ◌==◌, nat_eq, string_eq, inr, arith, if◌then◌else◌,
}
use conda_presto.OrderedDict
use conda_presto.OrderedDict.{OrderedDict}
use conda_presto.Exceptions.Value.{Value, raw}
use conda_presto.Cache.Types.{
  StoredResult, Codec, ResultCache, memory_size, digest, stored_entry_has_credentials, resolve_key,
  request_key,
}
use conda_presto.Cache.Memory.{remember_memory}
use conda_presto.Cache.Memory.Bounds.{IsAccounted, IsSound}
use conda_presto.Cache.Memory.Eviction.{IsMinimalEviction, remember_memory-get}
use conda_presto.Cache.Stored.{
  Event, World, Reply, completed, timed_out, Response, response_for, get_response, get_stored,
  store_entry, store, is_mismatched,
}
use conda_presto.Cache.Stored.Runs.{
  Call, lookup, retain, new_cache, run, run-IsSound, new_cache-IsSound, get_response-digest,
}
use conda_presto.Cache.Stored.Publication.{store_entry-published, store_entry-get_stored}

abbrev decode_json_body : List ℕ → Option StoredResult
decode_json_body [] = none
decode_json_body (_ ∷ body) = some (record { body = body; media_type = "application/json" })

-- an `@` in the body stands for a credential
abbrev has_at : Value → Bool
has_at (raw body) = any (λ b. b == 64) body
has_at _ = false

abbrev codec : Codec
codec = record {
  sha256 = λ data'. if ltb (length data') 4 then "short" else "long";
  encode = λ s. [];
  json_decode = λ body. none;
  msgpack_encode = λ s. 1 ∷ s.body;
  msgpack_decode = decode_json_body;
  contains_credentials = has_at;
}

abbrev small : StoredResult
small = record { body = 7 ∷ []; media_type = "application/json" }

abbrev large : StoredResult
large = record { body = 1 ∷ 2 ∷ 3 ∷ 4 ∷ 5 ∷ []; media_type = "application/json" }

abbrev memory_cache : ResultCache
memory_cache = record {
  max_size = 2;
  max_bytes = 40;
  entries = ("a", small) ∷ ("b", small) ∷ [];
  current_bytes = 34;
  persistent = false;
}

size_small : memory_size small ≡ 17
unfolding memory_size
size_small = refl

memory_cache-IsAccounted : IsAccounted memory_cache.entries memory_cache.current_bytes
unfolding memory_size OrderedDict.get string_eq
memory_cache-IsAccounted = record { unique = (refl, (refl, tt)); exact = refl }

-- writing "c" evicts "a", the oldest
evicts_oldest :
    (remember_memory codec "c" small memory_cache).1.entries ≡ ("b", small) ∷ ("c", small) ∷ []
unfolding remember_memory stored_entry_has_credentials memory_size OrderedDict.insert
    OrderedDict.move_to_end OrderedDict.get OrderedDict.erase string_eq nat_eq
evicts_oldest = refl

large_is_acceptable : (stored_entry_has_credentials codec large ≡ false) × (memory_size large ≤ 40)
unfolding stored_entry_has_credentials memory_size nat_eq
large_is_acceptable = (refl, omega arith)

remember_memory-get_example :
    let (kept, cache') = remember_memory codec "b" large memory_cache in
    (kept ≡ true)
    × (OrderedDict.get "b" cache'.entries ≡ some large)
    × IsMinimalEviction 2 40
        (OrderedDict.move_to_end "b" (OrderedDict.insert "b" large memory_cache.entries))
        cache'.entries
remember_memory-get_example =
    remember_memory-get codec "b" large memory_cache
      (large_is_acceptable.0, omega arith, inr large_is_acceptable.1) memory_cache-IsAccounted

-- a store that completes every operation with the encoded large result
abbrev answering : Reply → ℕ → Event
answering reply n = record { reply = reply; others = λ cache. cache }

abbrev calls : List Call
calls =
    retain "q" (1 ∷ 2 ∷ []) "application/json" true
    ∷ lookup (request_key "q") none false
    ∷ lookup (resolve_key "long") (some "/r/long") true
    ∷ []

run-IsSound_example :
    IsSound codec (run codec (answering timed_out) (new_cache 2 40 true) calls).cache
run-IsSound_example = run-IsSound codec (answering timed_out) (λ n cache h. h) 2 40 true calls

abbrev empty_world : World
empty_world = new_cache 2 40 true

abbrev stored_payload : Reply
stored_payload = completed (some (codec.msgpack_encode large))

abbrev answer : Response
answer = record {
  body = large.body;
  media_type = large.media_type;
  cache_control = "public, max-age=86400, immutable";
  location = some "/r/long";
}

served_from_store :
    (get_response codec
      (answering stored_payload)
      (resolve_key "long")
      (some "/r/long")
      true
      empty_world).0
    ≡ some answer
unfolding get_response response_for is_mismatched digest resolve_key stored_entry_has_credentials
    remember_memory memory_size OrderedDict.insert OrderedDict.move_to_end OrderedDict.get
    OrderedDict.erase string_eq nat_eq
served_from_store = refl

empty_world-IsSound : IsSound codec empty_world.cache
empty_world-IsSound = new_cache-IsSound 2 40 true

get_response-digest_example :
    ("long" ≡ digest codec large) × (stored_entry_has_credentials codec large ≡ false)
get_response-digest_example =
    get_response-digest codec (answering stored_payload) (λ n cache h. h) "long" (some "/r/long")
      true empty_world answer empty_world-IsSound served_from_store

store_entry-published_example :
    let (published, w') = store_entry codec (answering timed_out) "k" large empty_world in
    (published ≡ false)
    × (w'.sent ≡ store "k" (codec.msgpack_encode large) ∷ [])
    × (published ≡ false → OrderedDict.get "k" w'.cache.entries ≡ none)
store_entry-published_example =
    store_entry-published codec (answering timed_out) "k" large empty_world refl
      large_is_acceptable.0 (omega arith) (λ n cache h. h)

large_matches : is_mismatched codec "k" large ≡ false
unfolding is_mismatched
large_matches = refl

get_empty : OrderedDict.get "k" empty_world.cache.entries ≡ none
unfolding OrderedDict.get
get_empty = refl

abbrev written : Bool × World
written = store_entry codec (answering (completed none)) "k" large empty_world

large_published :
    (written.0 ≡ true)
    × (written.1.sent ≡ empty_world.sent ++ (store "k" (codec.msgpack_encode large) ∷ []))
    × (written.0 ≡ false → OrderedDict.get "k" written.1.cache.entries ≡ none)
large_published =
    store_entry-published codec (answering (completed none)) "k" large empty_world refl
      large_is_acceptable.0 (omega arith) (λ n cache h. h)

store_entry-get_stored_example :
    (get_stored codec (answering stored_payload) "k" empty_world).0 ≡ some large
store_entry-get_stored_example =
    store_entry-get_stored codec (answering (completed none)) (answering stored_payload) "k" large
      empty_world empty_world (codec.msgpack_encode large) refl large_published.0 large_published.1
      large_matches refl get_empty refl (λ n cache h. h)
