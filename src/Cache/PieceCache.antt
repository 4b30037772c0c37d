-- ===== src/Cache/PieceCache.antt =====
-- src/cache/verified_piece_cache.cpp and verified_piece_cache.hpp: the cache of verified pieces with
-- a budget of bytes and eviction by recency. The piece's data is shared and not changed, so it is a
-- value; the recency iterator of an entry stands for the element with the entry's key.
pub mod Accounting
pub mod Torrents
pub mod Budget
use nuvio_engine.Common.{
  ℕ, ◌+◌, ◌-◌, ◌%◌, ◌≡◌, ◌↔◌, Bool, true, false, ◌&&◌, List, [], ◌∷◌, reverse, Option, none, some,
  Bytes, bytes_eq, bytes_eq_iff, Eq, arith, length, u64_mod, increment, ltb, leb, ◌==◌,
  if◌then◌else◌,
}
use nuvio_engine.Std.UnorderedMap.{lookup, erase}

pub record PieceCacheKey : Type 0 where
  pub torrent_id : Bytes
  pub piece : ℕ

unfoldable pub key_eq : PieceCacheKey → PieceCacheKey → Bool
unfolding bytes_eq
key_eq left right = bytes_eq left.torrent_id right.torrent_id && (left.piece == right.piece)

same_key :
    (left right : PieceCacheKey)
    → left.torrent_id ≡ right.torrent_id
    → left.piece ≡ right.piece
    → left ≡ right
same_key left right e f = λ i. record { torrent_id = e i; piece = f i }

pub key_eq_iff : (left right : PieceCacheKey) → (key_eq left right ≡ true) ↔ (left ≡ right)
unfolding key_eq
key_eq_iff left right = (
  λ h.
      same_key left right (ground (arith, bytes_eq_iff left.torrent_id right.torrent_id))
        (ground arith),
  λ e. rw e (ground (arith, bytes_eq_iff right.torrent_id right.torrent_id)),
)

instance abbrev pub key_eq_instance : Eq PieceCacheKey
key_eq_instance = record { beq = key_eq; beq_iff = key_eq_iff }

abbrev pub Entries : Type 0
Entries = List (PieceCacheKey × Bytes)

pub record VerifiedPieceCache : Type 0 where
  pub capacity_bytes : ℕ
  pub used_bytes : ℕ
  pub hits : ℕ
  pub misses : ℕ
  pub evictions : ℕ
  pub recency : List PieceCacheKey
  pub entries : Entries

pub record PieceCacheStats : Type 0 where
  pub capacity_bytes : ℕ
  pub used_bytes : ℕ
  pub hits : ℕ
  pub misses : ℕ
  pub evictions : ℕ
  pub entries : ℕ

unfoldable pub init : ℕ → VerifiedPieceCache
init capacity_bytes = record {
  capacity_bytes = capacity_bytes;
  used_bytes = 0;
  hits = 0;
  misses = 0;
  evictions = 0;
  recency = [];
  entries = [];
}

-- `recency_.erase(iterator)`.
unfoldable pub unlink : PieceCacheKey → List PieceCacheKey → List PieceCacheKey
unfolding key_eq
unlink key [] = []
unlink key (first ∷ rest) = if key_eq first key then rest else first ∷ unlink key rest

unfoldable pub pop_back : List PieceCacheKey → List PieceCacheKey
pop_back [] = []
pop_back (last ∷ []) = []
pop_back (first ∷ second ∷ rest) = first ∷ pop_back (second ∷ rest)

-- `get`, with the data if the piece is cached.
unfoldable pub get : PieceCacheKey → VerifiedPieceCache → VerifiedPieceCache × Option Bytes
unfolding lookup unlink increment
get key c = elim (lookup key c.entries) [
  | none ↦ (record c { misses = increment c.misses }, none)
  | some bytes ↦
      (record c { recency = key ∷ unlink key c.recency; hits = increment c.hits }, some bytes)
]

unfoldable pub contains : PieceCacheKey → VerifiedPieceCache → Bool
contains key c = elim (lookup key c.entries) [ none ↦ false | some bytes ↦ true ]

-- The private `erase` of the entry with this key and data.
unfoldable pub erase_entry : PieceCacheKey → Bytes → VerifiedPieceCache → VerifiedPieceCache
erase_entry key bytes c = record c {
  used_bytes = (c.used_bytes + (u64_mod - length bytes % u64_mod)) % u64_mod;
  recency = unlink key c.recency;
  entries = erase key c.entries;
}

-- The body of the loop of `put`, where `found` is what the map has for the least recent key.
unfoldable pub evict_found : PieceCacheKey → Option Bytes → VerifiedPieceCache → VerifiedPieceCache
unfolding pop_back erase_entry increment
evict_found key none c = record c { recency = pop_back c.recency }
evict_found key (some bytes) c =
    let erased = erase_entry key bytes c in record erased { evictions = increment erased.evictions }

-- The loop of `put` over the keys from the least recent one on.
unfoldable pub evict : List PieceCacheKey → ℕ → VerifiedPieceCache → VerifiedPieceCache
unfolding lookup evict_found
evict [] size c = c
evict (least_recent ∷ newer) size c = elim (leb c.used_bytes (c.capacity_bytes - size)) [
  | true ↦ c
  | false ↦ evict newer size (evict_found least_recent (lookup least_recent c.entries) c)
]

-- From `push_front` on; an entry that is there already takes the addition back.
unfoldable pub store : PieceCacheKey → Bytes → VerifiedPieceCache → VerifiedPieceCache
store key bytes c = elim (lookup key c.entries) [
  | some existing ↦ c
  | none ↦ record c {
    used_bytes = (c.used_bytes + length bytes) % u64_mod;
    recency = key ∷ c.recency;
    entries = (key, bytes) ∷ c.entries;
  }
]

unfoldable pub erase_found : PieceCacheKey → Option Bytes → VerifiedPieceCache → VerifiedPieceCache
unfolding erase_entry
erase_found key none c = c
erase_found key (some bytes) c = erase_entry key bytes c

-- The entry with the key, if there is one, is erased.
unfoldable pub erase_existing : PieceCacheKey → VerifiedPieceCache → VerifiedPieceCache
unfolding lookup erase_found
erase_existing key c = erase_found key (lookup key c.entries) c

unfoldable pub fits : Bytes → VerifiedPieceCache → Bool
fits bytes c = ltb 0 (length bytes) && leb (length bytes) c.capacity_bytes

-- `put`; the data is `none` for a null pointer.
unfoldable pub put : PieceCacheKey → Option Bytes → VerifiedPieceCache → VerifiedPieceCache
unfolding erase_existing evict store fits
put key none c = erase_existing key c
put key (some bytes) c =
    let kept = erase_existing key c in
    if fits bytes kept
    then store key bytes (evict (reverse kept.recency) (length bytes) kept)
    else kept

-- The loop of `erase_torrent` over the entries.
unfoldable pub erase_all : Bytes → Entries → VerifiedPieceCache → VerifiedPieceCache
unfolding bytes_eq
erase_all torrent_id [] c = c
erase_all torrent_id ((key, bytes) ∷ rest) c =
    erase_all torrent_id rest
      (if bytes_eq key.torrent_id torrent_id then erase_entry key bytes c else c)

unfoldable pub erase_torrent : Bytes → VerifiedPieceCache → VerifiedPieceCache
unfolding erase_all
erase_torrent torrent_id c = erase_all torrent_id c.entries c

unfoldable pub clear : VerifiedPieceCache → VerifiedPieceCache
clear c = record c { entries = []; recency = []; used_bytes = 0 }

unfoldable pub stats : VerifiedPieceCache → PieceCacheStats
stats c = record {
  capacity_bytes = c.capacity_bytes;
  used_bytes = c.used_bytes;
  hits = c.hits;
  misses = c.misses;
  evictions = c.evictions;
  entries = length c.entries;
}
