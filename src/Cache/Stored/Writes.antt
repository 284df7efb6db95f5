-- ===== src/Cache/Stored/Writes.antt =====
-- The writing methods and whole runs of calls keep the invariant.
use conda_presto.Prelude.{
  ℕ, String, refl, Bool, true, false, Option, none, some, List, length, ltb, string_eq,
}
use conda_presto.Task.{pure, ◌>>=◌}
use conda_presto.Task.Meets.{Keeps, Meets-pure, Meets-if, Meets-bind, Meets-choose}
use conda_presto.Cache.Types.{
  StoredResult, Codec, digest, resolve_key, request_key, result_cache_max_stored_bytes,
}
use conda_presto.Cache.Keys.{starts_with-request_key}
use conda_presto.Cache.Memory.{forget}
use conda_presto.Cache.Memory.Bounds.{IsAddressed, forget-IsSound, remember_memory-IsSound}
use conda_presto.Cache.Stored.Sound.{
  SoundWorld, IsFair, get_stored-Serves, ask-Keeps, on_cache-Keeps, discard-Keeps, remembers,
}
use conda_presto.Cache.Stored.{
  retain_both, response_for, result_path, Reply, completed, timed_out, failed, Event, ask, publish,
  remember_locally, store_remotely, store_entry, respond, get_response, remember, store,
}

module _ (c : Codec) (oracle : ℕ → Event) (fair : IsFair c oracle) where
  publish-Keeps :
      (key : String) (s : StoredResult) (r : Reply)
      → IsAddressed c key s
      → Keeps (SoundWorld c) (publish c oracle key s r)
  unfolding publish
  publish-Keeps key s timed_out a = Meets-pure false tt
  publish-Keeps key s failed a = Meets-pure false tt
  publish-Keeps key s (completed _) a =
      Meets-bind _ _ (remembers c oracle fair key s a) (λ _ _. Meets-pure true tt)

  store_remotely-Keeps :
      (key : String) (s : StoredResult)
      → IsAddressed c key s
      → Keeps (SoundWorld c) (store_remotely c oracle key s)
  unfolding store_remotely
  store_remotely-Keeps key s a =
      Meets-bind _ _ (on_cache-Keeps c oracle fair (forget key) (forget-IsSound c key)) λ _ _.
        Meets-if (ltb result_cache_max_stored_bytes (length (c.msgpack_encode s))) _
          (do r ← ask c oracle (store key (c.msgpack_encode s)); publish c oracle key s r)
          (λ _. Meets-pure false tt)
          λ _.
            Meets-bind _ _ (ask-Keeps c oracle fair (store key (c.msgpack_encode s)))
              (λ r _. publish-Keeps key s r a)

  remember_locally-Keeps :
      (key : String) (s : StoredResult)
      → IsAddressed c key s
      → Keeps (SoundWorld c) (remember_locally c oracle key s)
  unfolding remember_locally
  remember_locally-Keeps key s a = record {
    at = λ w h. (remember_memory-IsSound c key s w.cache h a, tt);
  }

  -- `store_entry` keeps the invariant if the key, where it is immutable, names the digest.
  pub store_entry-Keeps :
      (key : String) (s : StoredResult)
      → IsAddressed c key s
      → Keeps (SoundWorld c) (store_entry c oracle key s)
  unfolding store_entry
  store_entry-Keeps key s a =
      Meets-if _ _ _
        (λ _. Meets-bind _ _ (discard-Keeps c oracle fair key) (λ _ _. Meets-pure false tt))
        λ _.
          Meets-choose (λ w. w.cache.persistent) _ _ (store_remotely-Keeps key s a)
            (remember_locally-Keeps key s a)

  resolve_key-IsAddressed : (s : StoredResult) → IsAddressed c (resolve_key (digest c s)) s
  resolve_key-IsAddressed s _ = refl

  request_key-IsAddressed : (k : String) (s : StoredResult) → IsAddressed c (request_key k) s
  request_key-IsAddressed k s h = cc (h, starts_with-request_key k)

  -- what `respond` needs of the result that it answers with
  respond-Keeps :
      (o : Option StoredResult) (location : Option String) (b : Bool)
      → Keeps (SoundWorld c) (respond c oracle o location b)
  unfolding respond
  respond-Keeps none location b = Meets-pure none tt
  respond-Keeps (some s) location b =
      Meets-bind _ _
        (Meets-if b (pure true) (store_entry c oracle (resolve_key (digest c s)) s)
          (λ _. Meets-pure true tt) (λ _. store_entry-Keeps _ s (resolve_key-IsAddressed s)))
        (λ _ _. Meets-pure _ tt)

  pub get_response-Keeps :
      (key : String) (location : Option String) (b : Bool)
      → Keeps (SoundWorld c) (get_response c oracle key location b)
  unfolding get_response
  get_response-Keeps key location b =
      Meets-bind _ _ (get_stored-Serves c oracle fair key) (λ o _. respond-Keeps o location b)

  retain_both-Keeps :
      (key : String) (s : StoredResult)
      → IsAddressed c key s
      → Keeps (SoundWorld c) (retain_both c oracle key s)
  unfolding retain_both
  retain_both-Keeps key s a =
      Meets-bind (store_entry c oracle key s) _ (store_entry-Keeps key s a) λ _ _.
        Meets-bind (store_entry c oracle (resolve_key (digest c s)) s) _
          (store_entry-Keeps (resolve_key (digest c s)) s (resolve_key-IsAddressed s))
          (λ b _. Meets-pure (response_for s (result_path (digest c s)) false b) tt)

  pub remember-Keeps :
      (k : String) (body : List ℕ) (media_type : String) (retain : Bool)
      → Keeps (SoundWorld c) (remember c oracle (request_key k) body media_type retain)
  unfolding remember
  remember-Keeps k body media_type retain =
      let s : StoredResult = record { body = body; media_type = media_type } in
      Meets-if retain (retain_both c oracle (request_key k) s) _
        (λ _. retain_both-Keeps (request_key k) s (request_key-IsAddressed k s))
        (λ _. Meets-pure (response_for s (result_path (digest c s)) false false) tt)
