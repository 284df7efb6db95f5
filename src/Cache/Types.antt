-- ===== src/Cache/Types.antt =====
-- `StoredResult`, `ResultCache`'s fields and keys, and the libraries that cache.py calls.
use conda_presto.Prelude.{
  ℕ, ◌+◌, ◌*◌, String, ◌<>◌, ◌≡◌, Bool, Option, none, some, List, ◌∷◌, ◌++◌, length,
}
use Prim.Native.String.{count}
use conda_presto.Exceptions.Value.{Value, raw}
use conda_presto.OrderedDict.{OrderedDict}

pub record StoredResult : Type 0 where
  pub body : List ℕ
  pub media_type : String

-- What cache.py calls and does not implement: `hashlib`, `str.encode`, `msgspec`, and the walk
-- of exceptions.py over a decoded body.
pub record Codec : Type 0 where
  pub sha256 : List ℕ → String
  pub encode : String → List ℕ
  pub json_decode : List ℕ → Option Value
  pub msgpack_encode : StoredResult → List ℕ
  pub msgpack_decode : List ℕ → Option StoredResult
  pub contains_credentials : Value → Bool

-- msgspec's documented contract, at one result: decoding what encoding gave returns the result.
abbrev pub RoundTrips : Codec → StoredResult → Type 0
RoundTrips c s = c.msgpack_decode (c.msgpack_encode s) ≡ some s

-- `len(self.body) + len(self.media_type)`
unfoldable pub memory_size : StoredResult → ℕ
memory_size s = length s.body + count s.media_type

pub record ResultCache : Type 0 where
  pub max_size : ℕ
  pub max_bytes : ℕ
  pub entries : OrderedDict String StoredResult
  pub current_bytes : ℕ
  -- whether `store_operations` is set
  pub persistent : Bool

abbrev pub result_cache_store_prefix : String
result_cache_store_prefix = "resolve-v1:"

abbrev pub request_cache_store_prefix : String
request_cache_store_prefix = "request-v1:"

abbrev pub result_cache_max_stored_bytes : ℕ
result_cache_max_stored_bytes = 64 * 1024 * 1024

unfoldable pub resolve_key : String → String
resolve_key key = result_cache_store_prefix <> key

unfoldable pub request_key : String → String
request_key key = request_cache_store_prefix <> key

module _ (c : Codec) where
  unfoldable pub digest : StoredResult → String
  digest s = c.sha256 (c.encode s.media_type ++ (0 ∷ s.body))

  abbrev decoded_body : List ℕ → Option Value → Value
  decoded_body body none = raw body
  decoded_body body (some v) = v

  unfoldable pub stored_entry_has_credentials : StoredResult → Bool
  stored_entry_has_credentials s =
      c.contains_credentials (decoded_body s.body (c.json_decode s.body))
