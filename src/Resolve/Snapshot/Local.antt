-- ===== src/Resolve/Snapshot/Local.antt =====
-- A snapshot that can be used for caching is complete: it has no local source and no file is
-- missing.
use text.Mathlib.Text.{starts_with}
use conda_presto.Prelude.{
  ℕ, String, ◌≡◌, refl, Bool, true, false, ◌||◌, Option, none, some, List, [], ◌∷◌, ◌++◌, All,
  All-append, any, string_eq, arith, ◌⊎◌,
}
use conda_presto.OrderedDict.{OrderedDict}
use conda_presto.Resolve.Snapshot.{
  Snapshot, Marker, Stamp, Conda, Options, marker, markers, capture, has_local_sources,
  is_cacheable_after, source_of, is_sharded, select_all, choose_pairs,
}

-- A marker of a file that was there, under a remote URL.
abbrev pub IsComplete : Marker → Type 0
IsComplete m =
    (starts_with m.url "file://" ≡ false)
    × (size : ℕ) × (stamp : Stamp) × (m.size ≡ some size)
    × (m.stamp ≡ some stamp)

or_left : (a b : Bool) → (a || b) ≡ false → a ≡ false
or_left a b h = ground arith

or_right : (a b : Bool) → (a || b) ≡ false → b ≡ false
or_right a b h = ground arith

fresh_of :
    (s : Snapshot) (previous : Option Snapshot)
    → (s.stale ≡ false) ⊎ (is_cacheable_after s previous ≡ true)
    → s.stale ≡ false
unfolding is_cacheable_after
fresh_of s previous h = ground arith

module _ (conda : Conda) where
  marker-IsComplete :
      (o : Options) (url credentialed source : String) (sharded : Bool) (st : Option (ℕ × Stamp))
      → (marker conda o url credentialed source sharded st).1 ≡ false
      → IsComplete (marker conda o url credentialed source sharded st).0
  unfolding marker
  marker-IsComplete o url credentialed source sharded none h = cc
  marker-IsComplete o url credentialed source sharded (some (size, stamp)) h =
      (ground arith, size, stamp, refl, refl)

  markers-IsComplete :
      (o : Options) (any_sharded : Bool) (selected : OrderedDict String String) (s : Snapshot)
      → (s.stale ≡ false → All IsComplete s.records)
      → (markers conda o any_sharded selected s).stale ≡ false
      → All IsComplete (markers conda o any_sharded selected s).records
  unfolding markers
  markers-IsComplete o any_sharded [] s h fresh = h fresh
  markers-IsComplete o any_sharded ((url, credentialed) ∷ selected) s h fresh =
      let sharded = is_sharded conda o credentialed in
      let source = source_of conda o any_sharded sharded in
      let (m, stale) =
        marker conda o url credentialed source sharded (conda.stat credentialed source) in
      markers-IsComplete o any_sharded selected
        (record { records = s.records ++ (m ∷ []); stale = s.stale || stale })
        (λ e. All-append IsComplete s.records (m ∷ []) (h (or_left s.stale stale e)) (
          marker-IsComplete o url credentialed source sharded (conda.stat credentialed source)
              (or_right s.stale stale e),
          tt,
        ))
        fresh

  no_local :
      (ms : List Marker) → All IsComplete ms → any (λ m. starts_with m.url "file://") ms ≡ false
  no_local [] h = refl
  no_local (m ∷ ms) h = rw (h.0.0, no_local ms h.1)

  capture-fresh :
      (o : Options) (channels platforms : List String)
      (channel_platforms : Option (List (String × String)))
      → (capture conda o channels platforms channel_platforms).stale ≡ false
      → All IsComplete (capture conda o channels platforms channel_platforms).records
  unfolding capture
  capture-fresh o channels platforms channel_platforms fresh =
      let selected =
        select_all conda (choose_pairs conda channel_platforms channels platforms) [] in
      markers-IsComplete o (any (λ r. is_sharded conda o r.1) selected) selected
        (record { records = []; stale = false }) (λ _. tt) fresh

  -- A captured snapshot that `is_cacheable_after` accepts is not stale and has no local source, and
  -- each of its files was there, with size and stamp: so is any snapshot that is not stale.
  pub capture-IsComplete :
      (o : Options) (channels platforms : List String)
      (channel_platforms : Option (List (String × String))) (previous : Option Snapshot)
      → let s = capture conda o channels platforms channel_platforms in
        (s.stale ≡ false) ⊎ (is_cacheable_after s previous ≡ true)
        → (s.stale ≡ false) × (has_local_sources s ≡ false) × All IsComplete s.records
  capture-IsComplete o channels platforms channel_platforms previous h =
      let s = capture conda o channels platforms channel_platforms in
      let fresh = fresh_of s previous h in
      let complete = capture-fresh o channels platforms channel_platforms fresh in
      (fresh, unfold has_local_sources in no_local s.records complete, complete)
