-- ===== src/Resolve/Index/Kept.antt =====
-- The index cache stays within its limit, and an index that was built is used again.
use conda_presto.Prelude.{
  ℕ, suc, ◌≤◌, ◌<◌, ◌≡◌, refl, String, Bool, false, not, ◌||◌, Option, none, some, List, [], ◌∷◌,
  ◌++◌, length, ltb, leb, ◌==◌, Eq, arith, ◌∙◌, Bool-cases, inl, inr,
}
use conda_presto.OrderedDict
use conda_presto.OrderedDict.{OrderedDict, NodupKeys}
use conda_presto.OrderedDict.Laws.{
  insert-NodupKeys, move_to_end-NodupKeys, get-insert, get-move_to_end, get-append_one,
  insert_absent, get-cons,
}
use conda_presto.OrderedDict.Order.{length-insert, length-move_to_end}
use conda_presto.Resolve.Snapshot.{Snapshot, markers_eq}
use conda_presto.Resolve.Index.{
  Helper, Indexes, trim, reload_all, reuse, create, lookup_or_create, build_index,
  clear_index_cache,
}

length-trim {ℓ} : {A : Type ℓ} (max : ℕ) (xs : List A) → length (trim max xs) ≤ max
unfolding trim
length-trim max [] = omega arith
length-trim max (x ∷ xs) = ground (arith, length-trim max xs)

module _ {K V : Type 0} ⦃e : Eq K⦄ where
  trim-NodupKeys : (max : ℕ) (d : OrderedDict K V) → NodupKeys d → NodupKeys (trim max d)
  unfolding trim
  trim-NodupKeys max [] u = tt
  trim-NodupKeys max (x ∷ d) u = elim (Bool-cases (ltb max (length (x ∷ d)))) [
    | inl c ↦ rw c (trim-NodupKeys max d u.1)
    | inr c ↦ rw c u
  ]

  get-trim_last :
      (max : ℕ) (k : K) (v : V) (d : OrderedDict K V)
      → 0 < max
      → OrderedDict.get k d ≡ none
      → OrderedDict.get k (trim max (d ++ ((k, v) ∷ []))) ≡ some v
  unfolding trim
  get-trim_last max k v [] pos h =
      let c : ltb max 1 ≡ false = ground arith in rw c (ground (arith, get-cons k k v []))
  get-trim_last max k v ((j, w) ∷ d) pos h = ground (
    arith,
    get-cons k j w d,
    get-cons k j w (d ++ ((k, v) ∷ [])),
    get-append_one k k v d,
    get-trim_last max k v d,
  )

module _ {Index K : Type 0} ⦃e : Eq K⦄ (h : Helper Index) (key : List String → String → K)
    (snapshots : ℕ → Snapshot) (max : ℕ) where
  pub record IsBounded (s : Indexes K Index) : Type 0 where
    pub unique : NodupKeys s.cache
    pub within : length s.cache ≤ max

  -- the test of `build_index`: the files on disk are not those that the index was built from
  abbrev pub is_outdated : Snapshot → Snapshot → Bool
  is_outdated snapshot cached = snapshot.stale || not (snapshot.records == cached.records)

  touched :
      (k : K) (d : OrderedDict K (Index × Snapshot))
      → NodupKeys d
      → length d ≤ max
      → (n : ℕ) → IsBounded (record { cache = OrderedDict.move_to_end k d; captures = n })
  touched k d u l n = record {
    unique = move_to_end-NodupKeys k d u;
    within = omega (arith, length-move_to_end k d, l);
  }

  reuse-IsBounded :
      (channels : List String) (k : K) (c : Index × Snapshot) (s : Indexes K Index)
      → OrderedDict.get k s.cache ≡ some c
      → IsBounded s
      → IsBounded (reuse h key snapshots max channels k c s).1
  unfolding reuse
  reuse-IsBounded channels k (index, cached) s found b =
      elim (Bool-cases (is_outdated (snapshots s.captures) cached)) [
        | inl o ↦ rw o (
            touched k _ (insert-NodupKeys k _ s.cache b.unique)
              (ground (
                arith,
                length-insert k (reload_all h channels index, snapshots (suc s.captures)) s.cache,
                b.within,
              ))
              _)
        | inr o ↦ rw o (touched k s.cache b.unique b.within _)
      ]

  create-IsBounded :
      (channels : List String) (platform : String) (k : K) (s : Indexes K Index)
      → IsBounded s
      → IsBounded (create h key snapshots max channels platform k s).1
  unfolding create
  create-IsBounded channels platform k s b = elim (Bool-cases (leb max 0)) [
    | inl o ↦ rw o b
    | inr o ↦ rw o (record {
      unique = trim-NodupKeys max _ (insert-NodupKeys k _ s.cache b.unique);
      within = length-trim max _;
    })
  ]

  lookup_or_create-IsBounded :
      (channels : List String) (platform : String) (k : K) (o : Option (Index × Snapshot))
      (s : Indexes K Index)
      → OrderedDict.get k s.cache ≡ o
      → IsBounded s
      → IsBounded (lookup_or_create h key snapshots max channels platform k o s).1
  unfolding lookup_or_create
  lookup_or_create-IsBounded channels platform k (some c) s g b = reuse-IsBounded channels k c s g b
  lookup_or_create-IsBounded channels platform k none s g b =
      create-IsBounded channels platform k s b

  -- The index cache never has two entries for a key nor more entries than its limit.
  pub build_index-IsBounded :
      (channels : List String) (platform : String) (s : Indexes K Index)
      → IsBounded s
      → IsBounded (build_index h key snapshots max channels platform s).1
        × IsBounded (clear_index_cache h key snapshots max s)
  unfolding build_index clear_index_cache
  build_index-IsBounded channels platform s b = (
    lookup_or_create-IsBounded channels platform (key channels platform) _ s refl b,
    record { unique = tt; within = omega arith },
  )

  -- What the cache holds for a request after it was served.
  abbrev Holds : K → Index × Indexes K Index → Type 0
  Holds k r = (snapshot : Snapshot) × (OrderedDict.get k r.1.cache ≡ some (r.0, snapshot))

  reuse-Holds :
      (channels : List String) (k : K) (c : Index × Snapshot) (s : Indexes K Index)
      → OrderedDict.get k s.cache ≡ some c
      → Holds k (reuse h key snapshots max channels k c s)
  unfolding reuse
  reuse-Holds channels k (index, cached) s found =
      elim (Bool-cases (is_outdated (snapshots s.captures) cached)) [
        | inl o ↦ rw o (
          snapshots (suc s.captures),
          get-move_to_end k k _
              ∙ ground (
                arith,
                get-insert k k (reload_all h channels index, snapshots (suc s.captures)) s.cache,
              ),
        )
        | inr o ↦ rw o (cached, get-move_to_end k k s.cache ∙ found)
      ]

  create-Holds :
      (channels : List String) (platform : String) (k : K) (s : Indexes K Index)
      → 0 < max
      → OrderedDict.get k s.cache ≡ none
      → Holds k (create h key snapshots max channels platform k s)
  unfolding create
  create-Holds channels platform k s pos absent =
      let o : leb max 0 ≡ false = ground arith in
      rw (o, insert_absent k _ s.cache absent)
        (snapshots s.captures, get-trim_last max k _ s.cache pos absent)

  lookup_or_create-Holds :
      (channels : List String) (platform : String) (k : K) (o : Option (Index × Snapshot))
      (s : Indexes K Index)
      → 0 < max
      → OrderedDict.get k s.cache ≡ o
      → Holds k (lookup_or_create h key snapshots max channels platform k o s)
  unfolding lookup_or_create
  lookup_or_create-Holds channels platform k (some c) s pos g = reuse-Holds channels k c s g
  lookup_or_create-Holds channels platform k none s pos g = create-Holds channels platform k s pos g

  reuse-same :
      (channels : List String) (k : K) (index : Index) (cached : Snapshot) (s : Indexes K Index)
      → is_outdated (snapshots s.captures) cached ≡ false
      → (reuse h key snapshots max channels k (index, cached) s).0 ≡ index
  unfolding reuse
  reuse-same channels k index cached s o = rw o

  build_index-Holds :
      (channels : List String) (platform : String) (s : Indexes K Index)
      → 0 < max
      → Holds (key channels platform) (build_index h key snapshots max channels platform s)
  unfolding build_index
  build_index-Holds channels platform s pos =
      lookup_or_create-Holds channels platform (key channels platform) _ s pos refl

  build_index-same :
      (channels : List String) (platform : String) (s : Indexes K Index) (index : Index)
      (cached : Snapshot)
      → OrderedDict.get (key channels platform) s.cache ≡ some (index, cached)
      → is_outdated (snapshots s.captures) cached ≡ false
      → (build_index h key snapshots max channels platform s).0 ≡ index
  unfolding build_index lookup_or_create
  build_index-same channels platform s index cached g o =
      rw (g, lookup_or_create) (reuse-same channels (key channels platform) index cached s o)

  -- With room for an entry: after `build_index` the cache holds, for the same request, the index
  -- that it returned with a snapshot; and while the files on disk are those of that snapshot, a
  -- second call returns this index again.
  pub build_index-reuses :
      (channels : List String) (platform : String) (s : Indexes K Index)
      → 0 < max
      → let (index, s') = build_index h key snapshots max channels platform s in
        (snapshot : Snapshot) × (OrderedDict.get (key channels platform) s'.cache
          ≡ some (index, snapshot))
        × (is_outdated (snapshots s'.captures) snapshot ≡ false
            → (build_index h key snapshots max channels platform s').0 ≡ index)
  build_index-reuses channels platform s pos =
      let (snapshot, found) = build_index-Holds channels platform s pos in
      (snapshot, found, build_index-same channels platform _ _ snapshot found)
