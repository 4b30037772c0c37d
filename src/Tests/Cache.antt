-- ===== src/Tests/Cache.antt =====
-- The piece cache with a budget of five bytes.
use nuvio_engine.Std.Results.{ok}
use nuvio_engine.Cache.DiskCache.{Scan, entries, regular, directory, known, Root, directories}
use nuvio_engine.Cache.DiskCache.Enforce.{
  DiskCacheManager, disk_cache_manager, Enforced, enforce_target,
}
use nuvio_engine.Std.UnorderedMap.{erase}
use nuvio_engine.Common.{ℕ, zero, suc, Bytes, ◌∷◌, ◌≤◌, inl, ◌≡◌, refl, [], some, arith}
use nuvio_engine.Text.{codes}
use nuvio_engine.Cache.PieceCache.{key_eq, PieceCacheKey, VerifiedPieceCache, get, put}
use nuvio_engine.Std.UnorderedMap.{lookup}
use nuvio_engine.Cache.PieceCache.Budget.{put_within_capacity}
use nuvio_engine.Cache.PieceCache.Accounting.{total, IsAccounted, put-IsAccounted, get-put}

abbrev repeated : ℕ → ℕ → Bytes
repeated zero c = []
repeated (suc n) c = c ∷ repeated n c

abbrev first_key : PieceCacheKey
first_key = record { torrent_id = codes "t1"; piece = 0 }

abbrev second_key : PieceCacheKey
second_key = record { torrent_id = codes "t1"; piece = 1 }

abbrev empty_cache : VerifiedPieceCache
empty_cache = record {
  capacity_bytes = 5;
  used_bytes = 0;
  hits = 0;
  misses = 0;
  evictions = 0;
  recency = [];
  entries = [];
}

abbrev empty_cache-IsAccounted : IsAccounted empty_cache
empty_cache-IsAccounted = record { unique = tt; accounted = refl }

eviction_run :
    (put second_key (some (codes "def")) (put first_key (some (codes "abc")) empty_cache)).evictions
    ≡ 1
unfolding put key_eq erase
eviction_run = refl

put-IsAccounted_example : IsAccounted (put first_key (some (codes "abc")) empty_cache)
put-IsAccounted_example =
    put-IsAccounted first_key (some (codes "abc")) empty_cache empty_cache-IsAccounted

get-put_example :
    (get first_key (put first_key (some (codes "abc")) empty_cache)).1 ≡ some (codes "abc")
get-put_example = get-put first_key (codes "abc") empty_cache (omega arith) (omega arith)

abbrev filled_cache : VerifiedPieceCache
filled_cache = put first_key (some (codes "abc")) empty_cache

abbrev full_cache : VerifiedPieceCache
full_cache = record empty_cache {
  used_bytes = 3;
  recency = first_key ∷ [];
  entries = (first_key, codes "abc") ∷ [];
}

abbrev full_cache-IsAccounted : IsAccounted full_cache
unfolding lookup
full_cache-IsAccounted = record { unique = (refl, tt); accounted = refl }

put_within_capacity_example :
    total (put second_key (some (codes "def")) full_cache).entries ≤ full_cache.capacity_bytes
put_within_capacity_example =
    put_within_capacity second_key (some (codes "def")) full_cache full_cache-IsAccounted
      (inl refl, tt) (omega arith) (omega arith)

-- The budget of the disk cache: two torrents of six bytes in all, of which four may stay.
abbrev old_torrent : Bytes
old_torrent = repeated 40 b'a'

abbrev new_torrent : Bytes
new_torrent = repeated 40 b'b'

abbrev payload : ℕ → Scan
payload size = entries (record { type = ok regular; stat = known size 1 } ∷ [])

abbrev two_torrents : Root
two_torrents = directories (
    record {
      name = new_torrent;
      type = ok directory;
      scan = payload 4;
      last_use = ok 20;
      removal = ok 2;
    }
    ∷ record {
      name = old_torrent;
      type = ok directory;
      scan = payload 2;
      last_use = ok 10;
      removal = ok 2;
    }
    ∷ [])

abbrev four_bytes : DiskCacheManager
four_bytes = disk_cache_manager 4

abbrev four_bytes_kept : Enforced
four_bytes_kept = enforce_target [] 100 two_torrents four_bytes

oldest_run : four_bytes_kept.tried ≡ old_torrent ∷ []
unfolding enforce_target disk_cache_manager
oldest_run = refl
