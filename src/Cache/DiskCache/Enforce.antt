-- ===== src/Cache/DiskCache/Enforce.antt =====
-- src/cache/disk_cache_manager.cpp: `enforce`, which evicts until the budget is kept, and `measure`.
-- A time of last use is a number, since only its order matters.
use nuvio_engine.Common.{
  ℕ, zero, suc, ◌-◌, Bool, true, false, List, [], ◌∷◌, ◌++◌, Option, none, some, Bytes,
  bytes_eq_instance, ltb, leb, ◌==◌, if◌then◌else◌, min, saturating_add, increment,
}
use nuvio_engine.Std.Results.{Exception, Result, ok, throws}
use nuvio_engine.Std.UnorderedMap.{erase}
use nuvio_engine.Std.Sort.{stable_sort}
use nuvio_engine.Cache.DiskCache.{DiskCacheStats, Candidate, Root, visit_torrent_directories}
use nuvio_engine.Cache.DiskCache.Survey.{Sizes, Survey, empty_survey, survey, measure_entry}

-- `operator<` of `std::string`.
unfoldable pub bytes_lt : Bytes → Bytes → Bool
bytes_lt xs [] = false
bytes_lt [] (y ∷ ys) = true
bytes_lt (x ∷ xs) (y ∷ ys) = if x == y then bytes_lt xs ys else ltb x y

unfoldable pub older : Candidate → Candidate → Bool
unfolding bytes_lt
older left right =
    if left.last_use == right.last_use
    then bytes_lt left.torrent_id right.torrent_id
    else ltb left.last_use right.last_use

pub record DiskCacheManager : Type 0 where
  pub stats : DiskCacheStats
  pub measured_sizes : Sizes

unfoldable pub disk_cache_manager : ℕ → DiskCacheManager
disk_cache_manager capacity_bytes = record {
  stats = record {
    capacity_bytes = capacity_bytes;
    used_bytes = 0;
    protected_bytes = 0;
    evictions = 0;
    reclaimed_bytes = 0;
    over_budget = false;
  };
  measured_sizes = [];
}

-- The manager, the used bytes, the torrents whose directories `remove_all` was called for, and
-- what was thrown.
pub record Eviction : Type 0 where
  pub manager : DiskCacheManager
  pub used : ℕ
  pub tried : List Bytes
  pub error : Option Exception

unfoldable pub try_candidate : Candidate → Eviction → Eviction
try_candidate candidate e = record e { tried = e.tried ++ candidate.torrent_id ∷ [] }

-- A candidate whose directory is removed.
unfoldable pub take_out : Candidate → Eviction → Eviction
unfolding erase saturating_add increment
take_out candidate e = record e {
  manager = record {
    stats = record e.manager.stats {
      reclaimed_bytes = saturating_add e.manager.stats.reclaimed_bytes candidate.size;
      evictions = increment e.manager.stats.evictions;
    };
    measured_sizes = erase candidate.torrent_id e.manager.measured_sizes;
  };
  used = if ltb e.used candidate.size then 0 else e.used - candidate.size;
}

-- The loop over the sorted candidates.
unfoldable pub evict : ℕ → List Candidate → Eviction → Eviction
unfolding try_candidate take_out
evict target [] e = e
evict target (candidate ∷ rest) e = elim (leb e.used target) [
  | true ↦ e
  | false ↦ elim candidate.removal [
    | throws x ↦ record (try_candidate candidate e) { error = some x }
    | ok zero ↦ evict target rest (try_candidate candidate e)
    | ok (suc n) ↦ evict target rest (take_out candidate (try_candidate candidate e))
  ]
]

-- The statistics are set from what is used and protected now.
unfoldable pub account : ℕ → ℕ → DiskCacheManager → DiskCacheManager
account used protected_bytes m = record m {
  stats = record m.stats {
    used_bytes = used;
    protected_bytes = protected_bytes;
    over_budget = ltb m.stats.capacity_bytes used;
  };
}

-- The manager after a call, the torrents that it tried to remove, and its result.
pub record Enforced : Type 0 where
  pub manager : DiskCacheManager
  pub tried : List Bytes
  pub result : Result DiskCacheStats

unfoldable pub conclude : ℕ → Eviction → Option Exception → Enforced
unfolding account
conclude protected_bytes e (some x) = record {
  manager = e.manager;
  tried = e.tried;
  result = throws x;
}
conclude protected_bytes e none = record {
  manager = account e.used protected_bytes e.manager;
  tried = e.tried;
  result = ok (account e.used protected_bytes e.manager).stats;
}

-- The loop over the candidates of a survey, in the order of their last use.
unfoldable pub evict_surveyed : ℕ → Survey → DiskCacheManager → Eviction
unfolding evict stable_sort older
evict_surveyed target s m = evict target (stable_sort older s.candidates) (record {
  manager = record m { measured_sizes = s.sizes };
  used = s.used;
  tried = [];
  error = none;
})

unfoldable pub enforce_surveyed : ℕ → DiskCacheManager → Result Survey → Enforced
unfolding conclude evict_surveyed
enforce_surveyed target m (throws x) = record { manager = m; tried = []; result = throws x }
enforce_surveyed target m (ok s) =
    let e = evict_surveyed target s m in conclude s.protected_bytes e e.error

unfoldable pub enforce_target : List Bytes → ℕ → Root → DiskCacheManager → Enforced
unfolding survey enforce_surveyed
enforce_target protected_torrents requested_target_bytes root m =
    enforce_surveyed (min requested_target_bytes m.stats.capacity_bytes) m
      (survey protected_torrents root)

unfoldable pub enforce : List Bytes → Root → DiskCacheManager → Enforced
unfolding enforce_target
enforce protected_torrents root m = enforce_target protected_torrents m.stats.capacity_bytes root m

unfoldable pub measured : DiskCacheManager → Result Survey → Enforced
unfolding account
measured m (throws x) = record { manager = m; tried = []; result = throws x }
measured m (ok s) =
    let after = account s.used s.protected_bytes (record m { measured_sizes = s.sizes }) in
    record { manager = after; tried = []; result = ok after.stats }

unfoldable pub measure : List Bytes → Root → DiskCacheManager → Enforced
unfolding measured visit_torrent_directories measure_entry
measure protected_torrents root m = measured m (
    visit_torrent_directories (measure_entry protected_torrents m.measured_sizes) root empty_survey)
