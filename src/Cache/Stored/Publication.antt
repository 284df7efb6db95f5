-- ===== src/Cache/Stored/Publication.antt =====
-- Publication to the persistent store: a write that the store did not complete leaves no local
-- entry, and what was published is read back by a cache that does not have it.
use conda_presto.Prelude.{
  ℕ, suc, ◌≤◌, String, ◌≡◌, ◌≢◌, refl, sym, ap, ◌∙◌, Bool-cases, inl, inr, List, ltb-false→le, Bool,
  true, false, none, some, [], ◌∷◌, ◌++◌, arith, length, ltb, string_eq,
}
use conda_presto.OrderedDict
use conda_presto.OrderedDict.Laws.{get-erase}
use conda_presto.Task.{◌>>=◌}
use conda_presto.Cache.Types.{
  StoredResult, Codec, RoundTrips, ResultCache, stored_entry_has_credentials,
  result_cache_max_stored_bytes,
}
use conda_presto.Cache.Memory.{forget}
use conda_presto.Cache.Stored.{
  Reply, completed, timed_out, failed, Event, World, ask, is_mismatched, get_stored, read_through,
  from_reply, accept, settle, settle_with, publish, store_entry, fetch, store,
}

abbrev pub is_completed : Reply → Bool
is_completed (completed _) = true
is_completed timed_out = false
is_completed failed = false

-- Other tasks do not write the key during a wait.
abbrev pub LeavesAbsent : (ℕ → Event) → String → Type 0
LeavesAbsent oracle key =
    (n : ℕ) (cache : ResultCache)
    → OrderedDict.get key cache.entries ≡ none
    → OrderedDict.get key ((oracle n).others cache).entries ≡ none

module _ (c : Codec) (oracle : ℕ → Event) (key : String) (s : StoredResult) (w : World) where
  get-forget : (cache : ResultCache) → OrderedDict.get key (forget key cache).entries ≡ none
  unfolding forget
  get-forget cache = ground (arith, get-erase key key cache.entries)

  publish-absent :
      (r : Reply) (v : World)
      → OrderedDict.get key v.cache.entries ≡ none
      → ((publish c oracle key s r v).0 ≡ is_completed r)
        × ((publish c oracle key s r v).1.sent ≡ v.sent)
        × ((publish c oracle key s r v).0 ≡ false
            → OrderedDict.get key (publish c oracle key s r v).1.cache.entries ≡ none)
  unfolding publish ◌>>=◌
  publish-absent timed_out v h = (refl, refl, λ _. h)
  publish-absent failed v h = (refl, refl, λ _. h)
  publish-absent (completed o) v h = (refl, refl, λ e. cc)

  -- the world when the reply arrives
  abbrev waited : World
  waited = record {
    cache = (oracle w.time).others (forget key w.cache);
    time = suc w.time;
    sent = w.sent ++ (store key (c.msgpack_encode s) ∷ []);
  }

  store_entry-sent :
      w.cache.persistent ≡ true
      → stored_entry_has_credentials c s ≡ false
      → length (c.msgpack_encode s) ≤ result_cache_max_stored_bytes
      → store_entry c oracle key s w ≡ publish c oracle key s (oracle w.time).reply waited
  unfolding store_entry ◌>>=◌
  store_entry-sent persistent clean small =
      let e : ltb result_cache_max_stored_bytes (length (c.msgpack_encode s)) ≡ false =
        ground arith in
      rw (clean, persistent, e)

  -- With a persistent store, a result with no credentials and within the size limit is sent to the
  -- store as the one request. `store_entry` answers true exactly if the store completes it; if
  -- not, the cache has no entry under the key, when other tasks write none during the wait.
  pub store_entry-published :
      w.cache.persistent ≡ true
      → stored_entry_has_credentials c s ≡ false
      → length (c.msgpack_encode s) ≤ result_cache_max_stored_bytes
      → LeavesAbsent oracle key
      → let (published, w') = store_entry c oracle key s w in
        (published ≡ is_completed (oracle w.time).reply)
        × (w'.sent ≡ w.sent ++ (store key (c.msgpack_encode s) ∷ []))
        × (published ≡ false → OrderedDict.get key w'.cache.entries ≡ none)
  store_entry-published persistent clean small quiet =
      rw (store_entry-sent persistent clean small) (
        publish-absent (oracle w.time).reply waited
          (quiet w.time (forget key w.cache) (get-forget w.cache)))

module _ (c : Codec) (oracle : ℕ → Event) (key : String) (s : StoredResult)
    (law : RoundTrips c s) where
  settle-absent :
      (v : World)
      → OrderedDict.get key v.cache.entries ≡ none
      → (settle c oracle key s v).0 ≡ some s
  unfolding settle settle_with ◌>>=◌
  settle-absent v h = rw (h, settle_with)

  from_reply-published :
      length (c.msgpack_encode s) ≤ result_cache_max_stored_bytes
      → stored_entry_has_credentials c s ≡ false
      → is_mismatched c key s ≡ false
      → from_reply c oracle key (completed (some (c.msgpack_encode s))) ≡ settle c oracle key s
  unfolding from_reply accept
  from_reply-published small clean matched =
      let e : ltb result_cache_max_stored_bytes (length (c.msgpack_encode s)) ≡ false =
        ground arith in
      rw (e, law, accept, matched, clean)

  read_through-answered :
      (w : World) (r : Reply)
      → (oracle w.time).reply ≡ r
      → OrderedDict.get key w.cache.entries ≡ none
      → w.cache.persistent ≡ true
      → get_stored c oracle key w ≡ from_reply c oracle key r (ask c oracle (fetch key) w).1
  unfolding get_stored ◌>>=◌
  read_through-answered w r answered absent persistent =
      rw (absent, persistent, read_through, answered)

  get_stored-answered :
      (w : World)
      → w.cache.persistent ≡ true
      → OrderedDict.get key w.cache.entries ≡ none
      → (oracle w.time).reply ≡ completed (some (c.msgpack_encode s))
      → length (c.msgpack_encode s) ≤ result_cache_max_stored_bytes
      → stored_entry_has_credentials c s ≡ false
      → is_mismatched c key s ≡ false
      → LeavesAbsent oracle key
      → (get_stored c oracle key w).0 ≡ some s
  get_stored-answered w persistent absent answered small clean matched quiet =
      rw
        (
          read_through-answered w _ answered absent persistent,
          from_reply-published small clean matched,
        )
        (settle-absent (ask c oracle (fetch key) w).1 (unfold ask in quiet w.time w.cache absent))

append_last {ℓ} : {A : Type ℓ} (xs : List A) (x y : A) → xs ++ (x ∷ []) ≡ xs ++ (y ∷ []) → x ≡ y
append_last [] x y h = cc h
append_last (z ∷ xs) x y h = append_last xs x y (cc h)

not_longer {ℓ} : {A : Type ℓ} (xs : List A) (x : A) → xs ≢ xs ++ (x ∷ [])
not_longer [] x h = cc h
not_longer (z ∷ xs) x h = not_longer xs x (cc h)

module _ (c : Codec) (oracle : ℕ → Event) (key : String) (s : StoredResult) (w : World) where
  publish-sent : (r : Reply) (v : World) → (publish c oracle key s r v).1.sent ≡ v.sent
  unfolding publish ◌>>=◌
  publish-sent timed_out v = refl
  publish-sent failed v = refl
  publish-sent (completed o) v = refl

  -- A result whose publication succeeded with a request to the store.
  published-sent :
      (bytes : List ℕ)
      → (store_entry c oracle key s w).0 ≡ true
      → (store_entry c oracle key s w).1.sent ≡ w.sent ++ (store key bytes ∷ [])
      → (stored_entry_has_credentials c s ≡ false)
        × (length (c.msgpack_encode s) ≤ result_cache_max_stored_bytes)
        × (c.msgpack_encode s ≡ bytes)
  unfolding store_entry ◌>>=◌
  published-sent bytes h sent = elim (Bool-cases (stored_entry_has_credentials c s)) [
    | inl e ↦ let no : false ≡ true = rw e at h in cc no
    | inr clean ↦ elim (Bool-cases w.cache.persistent) [
      | inr e ↦
          let same : w.sent ≡ w.sent ++ (store key bytes ∷ []) = rw (clean, e) at sent in
          absurd (not_longer w.sent (store key bytes) same)
      | inl persistent ↦
          elim (Bool-cases (ltb result_cache_max_stored_bytes (length (c.msgpack_encode s)))) [
            | inl e ↦ let no : false ≡ true = rw (clean, persistent, e) at h in cc no
            | inr e ↦
                let small =
                  ltb-false→le result_cache_max_stored_bytes (length (c.msgpack_encode s)) e in
                let same : w.sent ++ (store key (c.msgpack_encode s) ∷ [])
                    ≡ w.sent ++ (store key bytes ∷ []) =
                  sym (publish-sent (oracle w.time).reply (waited c oracle key s w))
                  ∙ sym (
                      ap (λ x. x.1.sent) (store_entry-sent c oracle key s w persistent clean small))
                  ∙ sent in
                let last : store key (c.msgpack_encode s) ≡ store key bytes =
                  append_last w.sent _ _ same in
                (clean, small, cc last)
          ]
    ]
  ]

-- What one cache publishes another reads: if `store_entry` answers true with the one request that
-- sends some bytes to the store, then a cache with a persistent store and no entry under the key,
-- whose read the store answers with these bytes, returns that very result, if msgspec decodes what
-- it encoded, a key of an artifact names the result's digest, and no other task writes the key
-- during the read.
pub store_entry-get_stored :
    (c : Codec) (here there : ℕ → Event) (key : String) (s : StoredResult) (w v : World)
    (bytes : List ℕ)
    → RoundTrips c s
    → (store_entry c here key s w).0 ≡ true
    → (store_entry c here key s w).1.sent ≡ w.sent ++ (store key bytes ∷ [])
    → is_mismatched c key s ≡ false
    → v.cache.persistent ≡ true
    → OrderedDict.get key v.cache.entries ≡ none
    → (there v.time).reply ≡ completed (some bytes)
    → LeavesAbsent there key
    → (get_stored c there key v).0 ≡ some s
store_entry-get_stored c here there key s w v bytes law stored sent matched persistent absent
      answered quiet =
    let (clean, small, same) = published-sent c here key s w bytes stored sent in
    get_stored-answered c there key s law v persistent absent
      (answered ∙ ap (λ b. completed (some b)) (sym same)) small clean matched quiet
