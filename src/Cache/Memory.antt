-- ===== src/Cache/Memory.antt =====
-- `ResultCache.remember_memory`: the in-process part of the result cache.
pub mod Bounds
pub mod Eviction
use conda_presto.Prelude.{
  ℕ, ◌+◌, ◌-◌, String, Bool, true, false, ◌&&◌, ◌||◌, Option, none, some, List, [], ◌∷◌, length,
  ltb, if◌then◌else◌, string_eq,
}
use conda_presto.OrderedDict
use conda_presto.OrderedDict.{OrderedDict}
use conda_presto.OrderedDict.Order.{weight?}
use conda_presto.Cache.Types.{
  StoredResult, Codec, ResultCache, memory_size, stored_entry_has_credentials,
}

-- The test of the eviction loop.
abbrev over_limits : ℕ → ℕ → ℕ → ℕ → Bool
over_limits max_size max_bytes size bytes =
    ltb max_size size || (ltb 0 max_bytes && ltb max_bytes bytes)

-- The eviction loop, over the entries that are left and `current_bytes`. Python's `popitem` would
-- raise on an empty dict; `Bounds` has that the accounting keeps the loop from getting there.
evict : ℕ → ℕ → OrderedDict String StoredResult → ℕ → OrderedDict String StoredResult × ℕ
evict max_size max_bytes [] bytes = ([], bytes)
evict max_size max_bytes ((k, v) ∷ d) bytes =
    let rest = evict max_size max_bytes d (bytes - memory_size v) in
    if over_limits max_size max_bytes (length ((k, v) ∷ d)) bytes then rest else ((k, v) ∷ d, bytes)

abbrev pub size? : Option StoredResult → ℕ
size? = weight? memory_size

-- `if previous := self.entries.pop(key, None): self.current_bytes -= previous.memory_size`
unfoldable pub forget : String → ResultCache → ResultCache
forget key cache = record cache {
  entries = OrderedDict.erase key cache.entries;
  current_bytes = cache.current_bytes - size? (OrderedDict.get key cache.entries);
}

-- An entry that is accepted: written at the end, then the oldest go until the limits hold.
admit : String → StoredResult → ResultCache → ResultCache
unfolding evict
admit key stored cache =
    let bytes =
      cache.current_bytes - size? (OrderedDict.get key cache.entries) + memory_size stored in
    let d = OrderedDict.move_to_end key (OrderedDict.insert key stored cache.entries) in
    let (entries, current_bytes) = evict cache.max_size cache.max_bytes d bytes in
    record cache { entries = entries; current_bytes = current_bytes }

abbrev is_present : Option StoredResult → Bool
is_present none = false
is_present (some v) = true

module _ (c : Codec) where
  unfoldable pub remember_memory : String → StoredResult → ResultCache → Bool × ResultCache
  unfolding admit forget
  remember_memory key stored cache =
      if stored_entry_has_credentials c stored
        || (ltb 0 cache.max_bytes && ltb cache.max_bytes (memory_size stored))
      then (false, forget key cache)
      else let cache' = admit key stored cache in
        (is_present (OrderedDict.get key cache'.entries), cache')
