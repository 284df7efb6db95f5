-- ===== src/Resolve/Index.antt =====
-- `build_index` and `clear_index_cache`: the solver indexes that are kept between solves.
pub mod Kept
use conda_presto.Prelude.{
  ℕ, zero, suc, ◌-◌, String, Bool, true, false, not, ◌&&◌, ◌||◌, Option, none, some, List, [], ◌∷◌,
  map, length, ltb, leb, ◌==◌, Eq, if◌then◌else◌,
}
use conda_presto.OrderedDict
use conda_presto.OrderedDict.{OrderedDict}
use conda_presto.Resolve.Snapshot.{Snapshot, markers_eq}

-- conda's `RattlerIndexHelper`: building one, and reading a channel again. An index is a value
-- here: `build_index` is the only one to reload it, and callers are done with it by then, since
-- they hold `platform_lock` for the whole solve.
pub record Helper (Index : Type 0) : Type 0 where
  pub create : List String → String → Index
  pub reload_channel : Index → String → Index

-- The dict, and how many snapshots were captured. The n-th capture gives the n-th snapshot.
pub record Indexes (K Index : Type 0) : Type 0 where
  pub cache : OrderedDict K (Index × Snapshot)
  pub captures : ℕ

-- `while len(index_cache) > MAX_INDEX_CACHE_ENTRIES: index_cache.popitem(last=False)`
trim {ℓ} : {A : Type ℓ} → ℕ → List A → List A
trim max [] = []
trim max (x ∷ xs) = let rest = trim max xs in if ltb max (length (x ∷ xs)) then rest else x ∷ xs

reload_all : {Index : Type 0} → Helper Index → List String → Index → Index
reload_all h [] index = index
reload_all h (channel ∷ channels) index = reload_all h channels (h.reload_channel index channel)

module _ {Index K : Type 0} ⦃e : Eq K⦄ (h : Helper Index) (key : List String → String → K)
    (snapshots : ℕ → Snapshot) (max : ℕ) where
  -- the cached index is used as it is, or reloaded and stored with a second snapshot
  reuse : List String → K → Index × Snapshot → Indexes K Index → Index × Indexes K Index
  unfolding reload_all
  reuse channels k (index, cached) s =
      let snapshot = snapshots s.captures in
      if snapshot.stale || not (snapshot.records == cached.records)
      then (let index' = reload_all h channels index in
          (
            index',
            record {
              cache =
                  OrderedDict.move_to_end k
                    (OrderedDict.insert k (index', snapshots (suc s.captures)) s.cache);
              captures = suc (suc s.captures);
            },
          ))
      else (index, record { cache = OrderedDict.move_to_end k s.cache; captures = suc s.captures })

  create : List String → String → K → Indexes K Index → Index × Indexes K Index
  unfolding trim
  create channels platform k s =
      let index = h.create channels platform in
      if leb max 0 then (index, s) else (
        index,
        record {
          cache = trim max (OrderedDict.insert k (index, snapshots s.captures) s.cache);
          captures = suc s.captures;
        },
      )

  lookup_or_create :
      List String
      → String
      → K
      → Option (Index × Snapshot)
      → Indexes K Index
      → Index × Indexes K Index
  unfolding reuse create
  lookup_or_create channels platform k (some cached) s = reuse channels k cached s
  lookup_or_create channels platform k none s = create channels platform k s

  unfoldable pub build_index : List String → String → Indexes K Index → Index × Indexes K Index
  unfolding lookup_or_create
  build_index channels platform s =
      let k = key channels platform in
      lookup_or_create channels platform k (OrderedDict.get k s.cache) s

  unfoldable pub clear_index_cache : Indexes K Index → Indexes K Index
  clear_index_cache s = record s { cache = [] }
