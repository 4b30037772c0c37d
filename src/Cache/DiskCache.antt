-- ===== src/Cache/DiskCache.antt =====
-- src/cache/disk_cache_manager.cpp and disk_cache_manager.hpp: the budget of the torrents' payload
-- directories. What the file system says of them is given: the manager keeps its statistics and the
-- measured sizes.
pub mod Survey
pub mod Enforce
pub mod Evictions
pub mod Budget
use nuvio_engine.Common.{
  ℕ, ◌+◌, ◌*◌, ◌/◌, Bool, true, false, ◌&&◌, not, List, [], ◌∷◌, Option, none, some, Bytes, length,
  all_of, ltb, ◌==◌, if◌then◌else◌, min, u64_max, saturating_add,
}
use nuvio_engine.Text.{to_lower, is_xdigit}
use nuvio_engine.Std.Results.{Exception, Result, ok, throws, runtime_error, system_error}

-- What a path names: the `file_type` of `symlink_status`.
pub data FileType : Type 0 where
  regular directory other : FileType

-- The result of `stat`: no such file, an error number, or the size and the count of blocks.
pub data Stat : Type 0 where
  missing : Stat
  failed : ℕ → Stat
  known : ℕ → ℕ → Stat

-- An entry of a payload directory; an error of the iterator at it is one of its status.
pub record PayloadEntry : Type 0 where
  pub type : Result FileType
  pub stat : Stat

-- What the recursive iterator over a payload directory finds.
pub data Scan : Type 0 where
  vanished : Scan
  unreadable : ℕ → Scan
  entries : List PayloadEntry → Scan

-- An entry of the root: its name, what it is, what it holds, its time of last use, and what
-- `remove_all` returns for it.
pub record TorrentDirectory : Type 0 where
  pub name : Bytes
  pub type : Result FileType
  pub scan : Scan
  pub last_use : Result ℕ
  pub removal : Result ℕ

pub data Root : Type 0 where
  absent not_directory : Root
  uninspected unreadable : ℕ → Root
  directories : List TorrentDirectory → Root

pub record DiskCacheStats : Type 0 where
  pub capacity_bytes : ℕ
  pub used_bytes : ℕ
  pub protected_bytes : ℕ
  pub evictions : ℕ
  pub reclaimed_bytes : ℕ
  pub over_budget : Bool

pub record Candidate : Type 0 where
  pub torrent_id : Bytes
  pub last_use : ℕ
  pub size : ℕ
  pub removal : Result ℕ

unfoldable pub canonical_torrent_id : Bytes → Bool
unfolding is_xdigit to_lower
canonical_torrent_id value =
    if not (length value == 40) && not (length value == 64)
    then false
    else all_of (λ c. is_xdigit c && (c == to_lower c)) value

-- `stored_file_size`, as it is built for POSIX systems.
unfoldable pub stored_file_size : Stat → Result ℕ
stored_file_size missing = ok 0
stored_file_size (failed error) = throws (system_error error)
stored_file_size (known size blocks) =
    ok (min size (if ltb (u64_max / 512) blocks then u64_max else blocks * 512))

-- The size of an entry: what is no regular file has none.
unfoldable pub entry_size : PayloadEntry → Result ℕ
unfolding stored_file_size
entry_size entry = elim entry.type [
  | throws e ↦ throws e
  | ok regular ↦ stored_file_size entry.stat
  | ok directory ↦ ok 0
  | ok other ↦ ok 0
]

-- The loop over the entries, with the size so far and the count of inspected entries.
unfoldable pub sum_entries : List PayloadEntry → ℕ → ℕ → Result (ℕ × ℕ)
unfolding entry_size saturating_add
sum_entries [] size inspected = ok (size, inspected)
sum_entries (entry ∷ rest) size inspected = elim (ltb 99999 inspected) [
  | true ↦ throws runtime_error
  | false ↦ elim (entry_size entry) [
    | throws e ↦ throws e
    | ok stored ↦ sum_entries rest (saturating_add size stored) (inspected + 1)
  ]
]

unfoldable pub directory_size : Scan → ℕ → Result (ℕ × ℕ)
unfolding sum_entries
directory_size vanished inspected = ok (0, inspected)
directory_size (unreadable error) inspected = throws (system_error error)
directory_size (entries list) inspected = sum_entries list 0 inspected

-- Whether an entry of the root is a torrent's directory, which is visited.
unfoldable pub is_visited : TorrentDirectory → Result Bool
unfolding canonical_torrent_id
is_visited entry = elim entry.type [
  | throws e ↦ throws e
  | ok directory ↦ ok (canonical_torrent_id entry.name)
  | ok regular ↦ if canonical_torrent_id entry.name then throws runtime_error else ok false
  | ok other ↦ if canonical_torrent_id entry.name then throws runtime_error else ok false
]

-- The visit of an entry with the visitor's state, or nothing.
unfoldable pub visit_entry :
    {S : Type 0} → (TorrentDirectory → S → Result S) → TorrentDirectory → S → Result Bool → Result S
visit_entry visit entry s (throws e) = throws e
visit_entry visit entry s (ok false) = ok s
visit_entry visit entry s (ok true) = visit entry s

-- The loop over the entries of the root, after so many.
unfoldable pub visit_entries :
    {S : Type 0} → (TorrentDirectory → S → Result S) → List TorrentDirectory → ℕ → S → Result S
unfolding is_visited visit_entry
visit_entries visit [] inspected s = ok s
visit_entries visit (entry ∷ rest) inspected s = elim (ltb 4095 inspected) [
  | true ↦ throws runtime_error
  | false ↦ elim (visit_entry visit entry s (is_visited entry)) [
    | throws e ↦ throws e
    | ok next ↦ visit_entries visit rest (inspected + 1) next
  ]
]

unfoldable pub visit_torrent_directories :
    {S : Type 0} → (TorrentDirectory → S → Result S) → Root → S → Result S
unfolding visit_entries
visit_torrent_directories visit absent s = ok s
visit_torrent_directories visit not_directory s = throws runtime_error
visit_torrent_directories visit (uninspected error) s = throws (system_error error)
visit_torrent_directories visit (unreadable error) s = throws (system_error error)
visit_torrent_directories visit (directories list) s = visit_entries visit list 0 s

-- The result of `symlink_status` of the torrent's path and of `last_write_time`.
pub data Touched : Type 0 where
  not_found : Touched
  status_error : ℕ → Touched
  found : FileType → Option ℕ → Touched

-- `touch`: whether the time of last use is set.
unfoldable pub touch : Bytes → Touched → Result Bool
unfolding canonical_torrent_id
touch torrent_id touched =
    if canonical_torrent_id torrent_id
    then (elim touched [
      | not_found ↦ ok false
      | status_error error ↦ throws (system_error error)
      | found directory none ↦ ok true
      | found directory (some error) ↦ throws (system_error error)
      | found regular error ↦ throws runtime_error
      | found other error ↦ throws runtime_error
    ])
    else throws Exception.invalid_argument
