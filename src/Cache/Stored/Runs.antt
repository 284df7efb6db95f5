-- ===== src/Cache/Stored/Runs.antt =====
-- Whole runs of the result cache, and what its answers are.
use conda_presto.Prelude.{
  ℕ, String, ◌≡◌, refl, Bool, true, false, Option, none, some, List, [], ◌∷◌, inr, arith,
  if◌then◌else◌,
}
use mathlib.Core.Path.{subst}
use conda_presto.Task.Meets.{Meets, Meets-pure, Meets-if, Meets-bind}
use conda_presto.Task.{pure}
use conda_presto.Cache.Types.{
  StoredResult, Codec, digest, resolve_key, request_key, stored_entry_has_credentials,
}
use conda_presto.Cache.Keys.{starts_with-resolve_key, resolve_key-injective}
use conda_presto.Cache.Memory.Bounds.{IsSound}
use conda_presto.Cache.Stored.{
  Event, World, Response, get_stored, get_response, respond, remember, response_for, store_entry,
}
use conda_presto.Cache.Stored.Sound.{IsFair, IsServable, SoundWorld, get_stored-Serves}
use conda_presto.Cache.Stored.Writes.{get_response-Keeps, remember-Keeps, store_entry-Keeps}

-- The calls that the application makes.
pub data Call : Type 0 where
  lookup : String → Option String → Bool → Call
  retain : String → List ℕ → String → Bool → Call

-- `ResultCache(max_size, max_bytes)`, with or without a persistent store
abbrev pub new_cache : ℕ → ℕ → Bool → World
new_cache max_size max_bytes persistent = record {
  cache = record {
    max_size = max_size;
    max_bytes = max_bytes;
    entries = [];
    current_bytes = 0;
    persistent = persistent;
  };
  time = 0;
  sent = [];
}

pub new_cache-IsSound :
    {c : Codec} (max_size max_bytes : ℕ) (persistent : Bool)
    → IsSound c (new_cache max_size max_bytes persistent).cache
new_cache-IsSound max_size max_bytes persistent = record {
  accounted = record { unique = tt; exact = refl };
  within = (omega arith, inr (omega arith));
  clean = tt;
  addressed = tt;
}

module _ (c : Codec) (oracle : ℕ → Event) where
  perform : World → Call → World
  perform w (lookup key location immutable) = (get_response c oracle key location immutable w).1
  perform w (retain key body media_type keep) =
      (remember c oracle (request_key key) body media_type keep w).1

  pub run : World → List Call → World
  run w [] = w
  run w (call ∷ calls) = run (perform w call) calls

  module _ (fair : IsFair c oracle) where
    run-SoundWorld : (w : World) (calls : List Call) → SoundWorld c w → SoundWorld c (run w calls)
    unfolding run perform
    run-SoundWorld w [] h = h
    run-SoundWorld w (lookup key location immutable ∷ calls) h =
        run-SoundWorld (perform w (lookup key location immutable)) calls
          ((get_response-Keeps c oracle fair key location immutable).at w h).0
    run-SoundWorld w (retain key body media_type keep ∷ calls) h =
        run-SoundWorld (perform w (retain key body media_type keep)) calls
          ((remember-Keeps c oracle fair key body media_type keep).at w h).0

    -- From a new cache, after any calls, whatever the persistent store answers and other tasks do
    -- in between (if they keep the invariant): keys are unique, the byte count is exact, the entries
    -- and their bytes are within the limits, no entry has credentials, and an entry under an
    -- immutable key has the digest that the key names.
    pub run-IsSound :
        (max_size max_bytes : ℕ) (persistent : Bool) (calls : List Call)
        → IsSound c (run (new_cache max_size max_bytes persistent) calls).cache
    run-IsSound max_size max_bytes persistent calls =
        run-SoundWorld (new_cache max_size max_bytes persistent) calls
          (new_cache-IsSound max_size max_bytes persistent)

    abbrev Answers : String → Option Response → Type 0
    Answers key none = Unit
    Answers key (some r) =
        IsServable c key (some (record { body = r.body; media_type = r.media_type }))

    respond-Answers :
        (key : String) (o : Option StoredResult) (location : Option String) (immutable : Bool)
        → IsServable c key o
        → Meets (SoundWorld c) (Answers key) (respond c oracle o location immutable)
    unfolding respond response_for
    respond-Answers key none location immutable h = Meets-pure none tt
    respond-Answers key (some s) location immutable h =
        Meets-bind
          (if immutable then pure true else store_entry c oracle (resolve_key (digest c s)) s) _
          (Meets-if immutable (pure true) (store_entry c oracle (resolve_key (digest c s)) s)
            (λ _. Meets-pure true tt)
            (λ _. store_entry-Keeps c oracle fair (resolve_key (digest c s)) s (λ _. refl)))
          (λ b _. Meets-pure _ h)

    get_response-Answers :
        (key : String) (location : Option String) (immutable : Bool)
        → Meets (SoundWorld c) (Answers key) (get_response c oracle key location immutable)
    unfolding get_response
    get_response-Answers key location immutable =
        Meets-bind (get_stored c oracle key) _ (get_stored-Serves c oracle fair key)
          (λ o h. respond-Answers key o location immutable h)

    -- What is answered for a permanent link has the digest in the link and holds no credentials, on
    -- a sound cache and whatever bytes the persistent store returns.
    pub get_response-digest :
        (d : String) (location : Option String) (immutable : Bool) (w : World) (r : Response)
        → SoundWorld c w
        → (get_response c oracle (resolve_key d) location immutable w).0 ≡ some r
        → let s : StoredResult = record { body = r.body; media_type = r.media_type } in
          (d ≡ digest c s) × (stored_entry_has_credentials c s ≡ false)
    get_response-digest d location immutable w r h e =
        let k =
          subst (Answers (resolve_key d)) e
            ((get_response-Answers (resolve_key d) location immutable).at w h).1 in
        (resolve_key-injective d _ (k.1 (starts_with-resolve_key d)), k.0)
