-- ===== src/Cache/Memory/Bounds.antt =====
-- The invariant of the in-process cache, and that `remember_memory` keeps it.
use conda_presto.Prelude.{
  ℕ, ◌+◌, ◌-◌, ◌≤◌, String, ◌≡◌, ◌⊎◌, true, false, [], ◌∷◌, arith, length, string_eq, Bool-cases,
  inl, inr,
}
use text.Mathlib.Text.{starts_with}
use conda_presto.OrderedDict
use conda_presto.OrderedDict.{OrderedDict, NodupKeys}
use conda_presto.OrderedDict.Laws.{insert-NodupKeys, erase-NodupKeys, move_to_end-NodupKeys}
use conda_presto.OrderedDict.Order.{
  weight, Each, weight-erase, weight-insert, weight-move_to_end, weight?-get-le, length-erase,
  Each-erase, Each-insert, Each-move_to_end,
}
use conda_presto.Cache.Types.{
  StoredResult, Codec, ResultCache, memory_size, stored_entry_has_credentials,
  result_cache_store_prefix, resolve_key, digest,
}
use conda_presto.Cache.Memory.{over_limits, evict, forget, admit, remember_memory, size?}

-- Keys are unique and the byte count is exact.
pub record IsAccounted (d : OrderedDict String StoredResult) (bytes : ℕ) : Type 0 where
  pub unique : NodupKeys d
  pub exact : bytes ≡ weight memory_size d

abbrev pub Within : ℕ → ℕ → OrderedDict String StoredResult → ℕ → Type 0
Within max_size max_bytes d bytes = (length d ≤ max_size) × ((max_bytes ≡ 0) ⊎ (bytes ≤ max_bytes))

evict-IsAccounted :
    (m b : ℕ) (d : OrderedDict String StoredResult) (n : ℕ)
    → IsAccounted d n
    → IsAccounted (evict m b d n).0 (evict m b d n).1
unfolding evict
evict-IsAccounted m b [] n a = a
evict-IsAccounted m b ((k, v) ∷ d) n a = ground (arith, evict-IsAccounted m b d (n - memory_size v))

-- The loop ends because its test fails, never because no entry is left to pop.
evict-Within :
    (m b : ℕ) (d : OrderedDict String StoredResult) (n : ℕ)
    → IsAccounted d n
    → Within m b (evict m b d n).0 (evict m b d n).1
unfolding evict
evict-Within m b [] n a = ground arith
evict-Within m b ((k, v) ∷ d) n a = ground (arith, evict-Within m b d (n - memory_size v))

evict-Each {μ} :
    (P : String → StoredResult → Type μ) (m b : ℕ) (d : OrderedDict String StoredResult) (n : ℕ)
    → Each P d
    → Each P (evict m b d n).0
unfolding evict
evict-Each P m b [] n h = h
evict-Each P m b ((k, v) ∷ d) n h = elim (Bool-cases (over_limits m b (length ((k, v) ∷ d)) n)) [
  | inl e ↦ rw e (evict-Each P m b d (n - memory_size v) h.1)
  | inr e ↦ rw e h
]

-- The entries and the byte count from which the loop starts.
pub admitted-IsAccounted :
    (key : String) (s : StoredResult) (cache : ResultCache)
    → IsAccounted cache.entries cache.current_bytes
    → IsAccounted
        (OrderedDict.move_to_end key (OrderedDict.insert key s cache.entries))
        (cache.current_bytes - size? (OrderedDict.get key cache.entries) + memory_size s)
admitted-IsAccounted key s cache a =
    let u = insert-NodupKeys key s cache.entries a.unique in
    record {
      unique = move_to_end-NodupKeys key (OrderedDict.insert key s cache.entries) u;
      exact = omega (
        arith,
        a.exact,
        weight-insert memory_size key s cache.entries,
        weight?-get-le memory_size key cache.entries,
        weight-move_to_end memory_size key (OrderedDict.insert key s cache.entries) u,
      );
    }

forget-IsAccounted :
    (key : String) (cache : ResultCache)
    → IsAccounted cache.entries cache.current_bytes
    → IsAccounted (forget key cache).entries (forget key cache).current_bytes
unfolding forget
forget-IsAccounted key cache a = record {
  unique = erase-NodupKeys key cache.entries a.unique;
  exact = omega (arith, a.exact, weight-erase memory_size key cache.entries a.unique);
}

module _ (c : Codec) where
  abbrev pub IsClean : String → StoredResult → Type 0
  IsClean key s = stored_entry_has_credentials c s ≡ false

  -- An entry under an immutable key has the digest that the key names.
  abbrev pub IsAddressed : String → StoredResult → Type 0
  IsAddressed key s =
      starts_with key result_cache_store_prefix ≡ true → key ≡ resolve_key (digest c s)

  -- What every operation on the result cache keeps: unique keys, an exact byte count, both
  -- limits, no entry with credentials, and content addresses that are right.
  pub record IsSound (cache : ResultCache) : Type 0 where
    pub accounted : IsAccounted cache.entries cache.current_bytes
    pub within : Within cache.max_size cache.max_bytes cache.entries cache.current_bytes
    pub clean : Each IsClean cache.entries
    pub addressed : Each IsAddressed cache.entries

  pub forget-IsSound :
      (key : String) (cache : ResultCache) → IsSound cache → IsSound (forget key cache)
  unfolding forget
  forget-IsSound key cache h = record {
    accounted = unfold forget in forget-IsAccounted key cache h.accounted;
    within = ground (arith, length-erase key cache.entries);
    clean = Each-erase IsClean key cache.entries h.clean;
    addressed = Each-erase IsAddressed key cache.entries h.addressed;
  }

  admit-Each {μ} :
      (P : String → StoredResult → Type μ) (key : String) (s : StoredResult) (cache : ResultCache)
      → Each P cache.entries
      → P key s
      → Each P (admit key s cache).entries
  unfolding admit
  admit-Each P key s cache h p =
      evict-Each P _ _ _ _ (Each-move_to_end P key _ (Each-insert P key s cache.entries h p))

  admit-IsSound :
      (key : String) (s : StoredResult) (cache : ResultCache)
      → IsSound cache
      → IsClean key s
      → IsAddressed key s
      → IsSound (admit key s cache)
  admit-IsSound key s cache h clean addressed = record {
    accounted =
        unfold admit in evict-IsAccounted _ _ _ _ (admitted-IsAccounted key s cache h.accounted);
    within = unfold admit in evict-Within _ _ _ _ (admitted-IsAccounted key s cache h.accounted);
    clean = admit-Each IsClean key s cache h.clean clean;
    addressed = admit-Each IsAddressed key s cache h.addressed addressed;
  }

  remember_memory_cases :
      (key : String) (s : StoredResult) (cache : ResultCache)
      → ((remember_memory c key s cache).1 ≡ forget key cache)
        ⊎ ((stored_entry_has_credentials c s ≡ false)
            × ((remember_memory c key s cache).1 ≡ admit key s cache))
  unfolding remember_memory
  remember_memory_cases key s cache = ground arith

  -- `remember_memory` keeps the invariant, whether it accepts the entry or not.
  pub remember_memory-IsSound :
      (key : String) (s : StoredResult) (cache : ResultCache)
      → IsSound cache
      → IsAddressed key s
      → IsSound (remember_memory c key s cache).1
  remember_memory-IsSound key s cache h a = elim (remember_memory_cases key s cache) [
    | inl e ↦ rw e (forget-IsSound key cache h)
    | inr (clean, e) ↦ rw e (admit-IsSound key s cache h clean a)
  ]
