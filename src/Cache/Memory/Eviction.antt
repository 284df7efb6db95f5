-- ===== src/Cache/Memory/Eviction.antt =====
-- What the eviction loop takes away, and when a new entry is kept.
use conda_presto.Prelude.{
  ℕ, zero, suc, ◌-◌, ◌≤◌, ◌<◌, String, ◌≡◌, refl, ◌⊎◌, true, false, none, some, [], ◌∷◌, ◌++◌,
  arith, length, drop, string_eq, Bool-cases, inl, inr,
}
use conda_presto.OrderedDict
use conda_presto.OrderedDict.{OrderedDict, NodupKeys, move_to_end}
use conda_presto.OrderedDict.Laws.{
  get-cons, get-append_one, get-insert, get-erase, move_to_end_present,
}
use conda_presto.OrderedDict.Order.{weight}
use conda_presto.Cache.Types.{
  StoredResult, Codec, ResultCache, memory_size, stored_entry_has_credentials,
}
use conda_presto.Cache.Memory.{over_limits, evict, admit, remember_memory, is_present}
use conda_presto.Cache.Memory.Bounds.{IsAccounted, admitted-IsAccounted}

-- The loop keeps the entries behind a number `i` of the oldest ones, and each longer rest is over a limit.
abbrev pub IsMinimalEviction :
    ℕ → ℕ → OrderedDict String StoredResult → OrderedDict String StoredResult → Type 0
IsMinimalEviction m b d kept =
    (i : ℕ) × (kept ≡ drop i d)
    × ((j : ℕ) → j < i → over_limits m b (length (drop j d)) (weight memory_size (drop j d)) ≡ true)

IsMinimalEviction-cons :
    (m b : ℕ) (k : String) (v : StoredResult) (d kept : OrderedDict String StoredResult)
    → over_limits m b (length ((k, v) ∷ d)) (weight memory_size ((k, v) ∷ d)) ≡ true
    → IsMinimalEviction m b d kept
    → IsMinimalEviction m b ((k, v) ∷ d) kept
IsMinimalEviction-cons m b k v d kept over (i, e, longer) = (suc i, e, go)
  where
    go :
        (j : ℕ)
        → j < suc i
        → over_limits m b (length (drop j ((k, v) ∷ d))) (weight memory_size (drop j ((k, v) ∷ d)))
          ≡ true
    go zero h = over
    go (suc j) h = longer j (omega arith)

IsAccounted-tail :
    (k : String) (v : StoredResult) (d : OrderedDict String StoredResult) (n : ℕ)
    → IsAccounted ((k, v) ∷ d) n
    → IsAccounted d (n - memory_size v)
IsAccounted-tail k v d n a = record { unique = a.unique.1; exact = omega (arith, a.exact) }

evict-IsMinimalEviction :
    (m b : ℕ) (d : OrderedDict String StoredResult) (n : ℕ)
    → IsAccounted d n
    → IsMinimalEviction m b d (evict m b d n).0
unfolding evict
evict-IsMinimalEviction m b [] n a = (0, refl, λ j h. absurd (omega arith))
evict-IsMinimalEviction m b ((k, v) ∷ d) n a =
    elim (Bool-cases (over_limits m b (length ((k, v) ∷ d)) n)) [
      | inl e ↦ rw e (
          IsMinimalEviction-cons m b k v d _ (rw (← a.exact) e)
            (evict-IsMinimalEviction m b d (n - memory_size v) (IsAccounted-tail k v d n a)))
      | inr e ↦ rw e (0, refl, λ j h. absurd (omega arith))
    ]

evict-get_last :
    (m b : ℕ) (key : String) (s : StoredResult) (d : OrderedDict String StoredResult) (n : ℕ)
    → 0 < m
    → (b ≡ 0) ⊎ (memory_size s ≤ b)
    → OrderedDict.get key d ≡ none
    → IsAccounted (d ++ ((key, s) ∷ [])) n
    → OrderedDict.get key (evict m b (d ++ ((key, s) ∷ [])) n).0 ≡ some s
unfolding evict
evict-get_last m b key s [] n pos fits absent a =
    let e : over_limits m b 1 n ≡ false = ground arith in
    rw e (ground (arith, get-cons key key s []))
evict-get_last m b key s ((k, v) ∷ d) n pos fits absent a =
    let absent' : OrderedDict.get key d ≡ none = ground (arith, get-cons key k v d) in
    elim (Bool-cases (over_limits m b (length ((k, v) ∷ (d ++ ((key, s) ∷ [])))) n)) [
      | inl e ↦ rw e (
          evict-get_last m b key s d (n - memory_size v) pos fits absent'
            (IsAccounted-tail k v (d ++ ((key, s) ∷ [])) n a))
      | inr e ↦ rw e (
          ground (
            arith,
            get-cons key k v d,
            get-cons key k v (d ++ ((key, s) ∷ [])),
            get-append_one key key s d,
          ))
    ]

-- The entries from which the loop starts: those of the other keys in their order, the new one last.
admitted_lem :
    (key : String) (s : StoredResult) (d : OrderedDict String StoredResult)
    → move_to_end key (OrderedDict.insert key s d)
      ≡ OrderedDict.erase key (OrderedDict.insert key s d) ++ ((key, s) ∷ [])
admitted_lem key s d =
    move_to_end_present key s (OrderedDict.insert key s d) (ground (arith, get-insert key key s d))

module _ (c : Codec) (key : String) (s : StoredResult) (cache : ResultCache) where
  -- A result is accepted if it has no credentials and alone fits the byte limit.
  abbrev pub IsAcceptable : Type 0
  IsAcceptable =
      (stored_entry_has_credentials c s ≡ false)
      × (0 < cache.max_size)
      × ((cache.max_bytes ≡ 0) ⊎ (memory_size s ≤ cache.max_bytes))

  remember_memory-admit :
      IsAcceptable
      → remember_memory c key s cache
        ≡ (is_present (OrderedDict.get key (admit key s cache).entries), admit key s cache)
  unfolding remember_memory
  remember_memory-admit ok = ground arith

  get-admit :
      IsAcceptable
      → IsAccounted cache.entries cache.current_bytes
      → OrderedDict.get key (admit key s cache).entries ≡ some s
  unfolding admit
  get-admit ok a = rw admitted_lem (
      evict-get_last cache.max_size cache.max_bytes key s _ _ ok.1 ok.2
        (ground (arith, get-erase key key (OrderedDict.insert key s cache.entries)))
        (rw admitted_lem at (admitted-IsAccounted key s cache a)))

  -- An acceptable result is kept: `remember_memory` answers true and a lookup finds the result. Of
  -- the entries, with the new one last, the oldest go, and no more of them than the limits ask for.
  pub remember_memory-get :
      IsAcceptable
      → IsAccounted cache.entries cache.current_bytes
      → let (kept, cache') = remember_memory c key s cache in
        (kept ≡ true)
        × (OrderedDict.get key cache'.entries ≡ some s)
        × IsMinimalEviction cache.max_size cache.max_bytes
            (move_to_end key (OrderedDict.insert key s cache.entries))
            cache'.entries
  remember_memory-get ok a = rw (remember_memory-admit ok) (
    (rw (get-admit ok a)),
    get-admit ok a,
    (unfold admit in evict-IsMinimalEviction _ _ _ _ (admitted-IsAccounted key s cache a)),
  )
