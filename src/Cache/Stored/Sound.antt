-- ===== src/Cache/Stored/Sound.antt =====
-- The asynchronous methods keep the invariant of the cache, whatever the store answers and other
-- tasks do, as long as the others keep it too; and what they hand out is clean and rightly
-- addressed.
use conda_presto.Prelude.{
  ℕ, String, ◌≡◌, refl, Bool, true, false, Option, none, some, arith, length, ltb, string_eq,
}
use conda_presto.OrderedDict
use conda_presto.OrderedDict.Laws.{move_to_end-NodupKeys}
use conda_presto.OrderedDict.Order.{
  weight-move_to_end, length-move_to_end, Each-move_to_end, Each-get,
}
use conda_presto.Task.{Task, pure, modify, ◌>>◌}
use conda_presto.Task.Meets.{
  Meets, Keeps, Meets-pure, Meets-if, Keeps-modify, Meets-bind, Meets-choose,
}
use conda_presto.Cache.Types.{
  StoredResult, Codec, ResultCache, stored_entry_has_credentials, result_cache_max_stored_bytes,
  memory_size,
}
use conda_presto.Cache.Memory.{forget, remember_memory}
use conda_presto.Cache.Memory.Bounds.{
  IsSound, IsClean, IsAddressed, forget-IsSound, remember_memory-IsSound,
}
use conda_presto.Cache.Stored.{
  Request, Reply, completed, timed_out, failed, Event, World, on_cache, touch, ask,
  delete_persistent, discard, is_mismatched, from_memory, settle_with, settle, accept, from_reply,
  read_through, get_stored, fetch, delete,
}

module _ (c : Codec) where
  touch-IsSound :
      (key : String) (cache : ResultCache) → IsSound c cache → IsSound c (touch key cache)
  unfolding touch
  touch-IsSound key cache h = record {
    accounted = record {
      unique = move_to_end-NodupKeys key cache.entries h.accounted.unique;
      exact = omega (
        arith,
        h.accounted.exact,
        weight-move_to_end memory_size key cache.entries h.accounted.unique,
      );
    };
    within = (omega (arith, h.within.0, length-move_to_end key cache.entries), h.within.1);
    clean = Each-move_to_end (IsClean c) key cache.entries h.clean;
    addressed = Each-move_to_end (IsAddressed c) key cache.entries h.addressed;
  }

  of_match-IsAddressed :
      (key : String) (s : StoredResult) → is_mismatched c key s ≡ false → IsAddressed c key s
  unfolding is_mismatched
  of_match-IsAddressed key s h = ground arith

  -- What a read may hand out for a key: a result with no credentials, and with the digest that an
  -- immutable key names.
  abbrev pub IsServable : String → Option StoredResult → Type 0
  IsServable key none = Unit
  IsServable key (some s) = IsClean c key s × IsAddressed c key s

  get-IsServable :
      (key : String) (cache : ResultCache)
      → IsSound c cache
      → IsServable key (OrderedDict.get key cache.entries)
  get-IsServable key cache h = go (OrderedDict.get key cache.entries) refl
    where
      go : (o : Option StoredResult) → OrderedDict.get key cache.entries ≡ o → IsServable key o
      go none e = tt
      go (some s) e = (
        Each-get (IsClean c) key s cache.entries h.clean e,
        Each-get (IsAddressed c) key s cache.entries h.addressed e,
      )

  abbrev pub SoundWorld : World → Type 0
  SoundWorld w = IsSound c w.cache

  -- Whatever other tasks do during a wait, they keep the invariant.
  abbrev pub IsFair : (ℕ → Event) → Type 0
  IsFair oracle =
      (n : ℕ) (cache : ResultCache) → IsSound c cache → IsSound c ((oracle n).others cache)

  module _ (oracle : ℕ → Event) (fair : IsFair oracle) where
    pub on_cache-Keeps :
        (f : ResultCache → ResultCache)
        → ((cache : ResultCache) → IsSound c cache → IsSound c (f cache))
        → Keeps SoundWorld (modify (on_cache f))
    on_cache-Keeps f k = Keeps-modify (on_cache f) (λ w h. k w.cache h)

    pub ask-Keeps : (r : Request) → Keeps SoundWorld (ask c oracle r)
    unfolding ask
    ask-Keeps r = record { at = λ w h. (fair w.time w.cache h, tt) }

    pub delete_persistent-Keeps : (key : String) → Keeps SoundWorld (delete_persistent c oracle key)
    unfolding delete_persistent
    delete_persistent-Keeps key =
        Meets-choose (λ w. w.cache.persistent) (do ask c oracle (delete key); pure tt) (pure tt)
          (Meets-bind _ _ (ask-Keeps (delete key)) (λ _ _. Meets-pure tt tt)) (Meets-pure tt tt)

    pub discard-Keeps : (key : String) → Keeps SoundWorld (discard c oracle key)
    unfolding discard
    discard-Keeps key =
        Meets-bind _ _ (on_cache-Keeps (forget key) (forget-IsSound c key))
          (λ _ _. delete_persistent-Keeps key)

    abbrev Serves : String → Task World (Option StoredResult) → Type 0
    Serves key m = Meets SoundWorld (IsServable key) m

    -- an entry that is rejected: it is removed and nothing is handed out
    rejects :
        (key : String) (m : Task World (Unit {0}))
        → Keeps SoundWorld m
        → Serves key (do m; pure none)
    rejects key m k = Meets-bind m (λ _. pure none) k (λ _ _. Meets-pure none tt)

    from_memory-Serves : (key : String) (s : StoredResult) → Serves key (from_memory c oracle key s)
    unfolding from_memory
    from_memory-Serves key s =
        Meets-if (is_mismatched c key s) _ _ (λ _. rejects key _ (discard-Keeps key))
          λ matched.
            Meets-if (stored_entry_has_credentials c s) _ _ (λ _. rejects key _ (discard-Keeps key))
              λ clean.
                Meets-bind _ _ (on_cache-Keeps (touch key) (touch-IsSound key))
                  λ _ _. Meets-pure (some s) (clean, of_match-IsAddressed key s matched)

    pub remembers :
        (key : String) (s : StoredResult)
        → IsAddressed c key s
        → Keeps SoundWorld (modify (on_cache (λ cache. (remember_memory c key s cache).1)))
    remembers key s a = on_cache-Keeps _ (λ cache h. remember_memory-IsSound c key s cache h a)

    settle_with-Serves :
        (key : String) (s : StoredResult) (o : Option StoredResult)
        → IsServable key (some s)
        → IsServable key o
        → Serves key (settle_with c oracle key s o)
    unfolding settle_with
    settle_with-Serves key s none ok h =
        Meets-bind _ _ (remembers key s ok.1) (λ _ _. Meets-pure (some s) ok)
    settle_with-Serves key s (some current) ok h =
        Meets-bind _ _ (on_cache-Keeps (touch key) (touch-IsSound key))
          (λ _ _. Meets-pure (some current) h)

    settle-Serves :
        (key : String) (s : StoredResult)
        → IsServable key (some s)
        → Serves key (settle c oracle key s)
    unfolding settle
    settle-Serves key s ok = record {
      at = λ w h.
          (settle_with-Serves key s (OrderedDict.get key w.cache.entries) ok
              (get-IsServable key w.cache h)).at
            w h;
    }

    accept-Serves : (key : String) (o : Option StoredResult) → Serves key (accept c oracle key o)
    unfolding accept
    accept-Serves key none = rejects key _ (delete_persistent-Keeps key)
    accept-Serves key (some s) =
        Meets-if (is_mismatched c key s) _ _ (λ _. rejects key _ (delete_persistent-Keeps key))
          λ matched.
            Meets-if (stored_entry_has_credentials c s) _ _
              (λ _. rejects key _ (delete_persistent-Keeps key))
              λ clean. settle-Serves key s (clean, of_match-IsAddressed key s matched)

    from_reply-Serves : (key : String) (r : Reply) → Serves key (from_reply c oracle key r)
    unfolding from_reply
    from_reply-Serves key timed_out = Meets-pure none tt
    from_reply-Serves key failed = Meets-pure none tt
    from_reply-Serves key (completed none) = Meets-pure none tt
    from_reply-Serves key (completed (some payload)) =
        Meets-if (ltb result_cache_max_stored_bytes (length payload)) _ _
          (λ _. rejects key _ (delete_persistent-Keeps key))
          (λ _. accept-Serves key (c.msgpack_decode payload))

    read_through-Serves :
        (key : String) (o : Option StoredResult) (b : Bool)
        → Serves key (read_through c oracle key o b)
    unfolding read_through
    read_through-Serves key (some s) b = from_memory-Serves key s
    read_through-Serves key none false = Meets-pure none tt
    read_through-Serves key none true =
        Meets-bind _ _ (ask-Keeps (fetch key)) (λ r _. from_reply-Serves key r)

    pub get_stored-Serves : (key : String) → Serves key (get_stored c oracle key)
    unfolding get_stored
    get_stored-Serves key = record {
      at = λ w h.
          (read_through-Serves key (OrderedDict.get key w.cache.entries) w.cache.persistent).at w h;
    }
