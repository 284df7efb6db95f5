-- ===== src/Resolve/Snapshot.antt =====
-- `RepodataSnapshot`: which repodata cache files a solve has read, and whether they are fresh.
pub mod Local
use native.Mathlib.Decide.{ℕ_discrete}
use text.Mathlib.Text.{starts_with}
use conda_presto.Prelude.{
  ℕ, String, ◌≡◌, Bool, true, false, not, ◌&&◌, ◌||◌, Option, none, some, List, [], ◌∷◌, ◌++◌, map,
  any, contains, ◌==◌, Eq, string_eq, option_eq, if◌then◌else◌,
}
use conda_presto.OrderedDict
use conda_presto.OrderedDict.{OrderedDict}

-- `st_mtime_ns`, `st_ctime_ns`, `st_dev`, `st_ino`
pub record Stamp : Type 0 where
  pub mtime_ns : ℕ
  pub ctime_ns : ℕ
  pub dev : ℕ
  pub ino : ℕ

pub record Marker : Type 0 where
  pub url : String
  pub source : String
  pub size : Option ℕ
  pub stamp : Option Stamp

string_discrete : Discrete String
unfolding string_eq
string_discrete = string_eq.dec

Marker-discrete : Discrete Marker
Marker-discrete = hlevel (ℕ_discrete, string_discrete)

instance unfoldable pub marker_eq : Eq Marker
unfolding Marker-discrete string_discrete
marker_eq = record { dec = Marker-discrete }

Markers-discrete : Discrete (List Marker)
Markers-discrete = hlevel (Marker-discrete)

instance unfoldable pub markers_eq : Eq (List Marker)
unfolding Markers-discrete Marker-discrete string_discrete
markers_eq = record { dec = Markers-discrete }

pub record Snapshot : Type 0 where
  pub records : List Marker
  pub stale : Bool

abbrev pub sharded_repodata_source : String
sharded_repodata_source = "repodata_shards.msgpack.zst"

-- `has_local_sources`
unfoldable pub has_local_sources : Snapshot → Bool
has_local_sources s = any (λ m. starts_with m.url "file://") s.records

abbrev is_shard_fallback : List Marker → List Marker → Bool
is_shard_fallback records previous =
    any (λ m. m.source == sharded_repodata_source && contains records m) previous

-- `is_cacheable_after`
unfoldable pub is_cacheable_after : Snapshot → Option Snapshot → Bool
is_cacheable_after s none = false
is_cacheable_after s (some previous) =
    if s.stale then false else not (previous.stale && is_shard_fallback s.records previous.records)

-- What `capture` asks of conda and the file system: a channel's URLs for a platform (and noarch)
-- without and with credentials, whether it has credentials, whether shards are to be used for a
-- URL, and for a URL and a source the cache file's `stat` and `cache.stale()`.
pub record Conda : Type 0 where
  pub urls : String → String → List String
  pub credentialed_urls : String → String → List String
  pub has_secret : String → Bool
  pub should_check_shards : String → Bool
  pub stat : String → String → Option (ℕ × Stamp)
  pub cache_stale : String → String → Bool

pub record Options : Type 0 where
  pub repodata_fn : String
  pub use_shards : Bool
  pub use_index_cache : Bool

-- `[(channel, platform) for channel in channels for platform in platforms]`
abbrev pairs_with : String → List String → List (String × String)
pairs_with channel = map (λ platform. (channel, platform))

all_pairs : List String → List String → List (String × String)
all_pairs [] platforms = []
all_pairs (channel ∷ channels) platforms =
    pairs_with channel platforms ++ all_pairs channels platforms

-- one channel's URLs: a URL that is new, or that this channel has credentials for, is selected.
-- The two lists have equal lengths (`strict=True` raises otherwise).
select_urls :
    Bool → List String → List String → OrderedDict String String → OrderedDict String String
select_urls secret (p ∷ ps) (c ∷ cs) selected = select_urls secret ps cs (
    if not (contains (OrderedDict.keys selected) p) || secret
    then OrderedDict.insert p c selected
    else selected)
select_urls secret _ _ selected = selected

module _ (conda : Conda) where
  select_all : List (String × String) → OrderedDict String String → OrderedDict String String
  unfolding select_urls
  select_all [] selected = selected
  select_all ((channel, platform) ∷ pairs) selected = select_all pairs (
      select_urls (conda.has_secret channel) (conda.urls channel platform)
        (conda.credentialed_urls channel platform) selected)

  abbrev is_sharded : Options → String → Bool
  is_sharded o credentialed = o.use_shards && conda.should_check_shards credentialed

  source_of : Options → Bool → Bool → String
  source_of o any_sharded sharded =
      if any_sharded
      then (if sharded then sharded_repodata_source else "repodata.json")
      else o.repodata_fn

  -- one repository: its marker, and whether it makes the snapshot stale
  marker : Options → String → String → String → Bool → Option (ℕ × Stamp) → Marker × Bool
  marker o url credentialed source sharded none =
      (record { url = url; source = source; size = none; stamp = none }, true)
  marker o url credentialed source sharded (some (size, stamp)) = (
    record { url = url; source = source; size = some size; stamp = some stamp },
    starts_with url "file://"
        || (conda.cache_stale credentialed source && (sharded || not o.use_index_cache)),
  )

  markers : Options → Bool → OrderedDict String String → Snapshot → Snapshot
  unfolding source_of marker
  markers o any_sharded [] s = s
  markers o any_sharded ((url, credentialed) ∷ selected) s =
      let sharded = is_sharded o credentialed in
      let source = source_of o any_sharded sharded in
      let (m, stale) = marker o url credentialed source sharded (conda.stat credentialed source) in
      markers o any_sharded selected
        (record { records = s.records ++ (m ∷ []); stale = s.stale || stale })

  abbrev choose_pairs :
      Option (List (String × String)) → List String → List String → List (String × String)
  choose_pairs none channels platforms = all_pairs channels platforms
  choose_pairs (some pairs) channels platforms = pairs

  -- `RepodataSnapshot.capture`
  unfoldable pub capture :
      Options → List String → List String → Option (List (String × String)) → Snapshot
  unfolding select_all markers all_pairs
  capture o channels platforms channel_platforms =
      let selected = select_all (choose_pairs channel_platforms channels platforms) [] in
      let any_sharded = any (λ (r : String × String). is_sharded o r.1) selected in
      markers o any_sharded selected (record { records = []; stale = false })
