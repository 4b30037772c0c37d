-- ===== src/Cache/PieceCache/Accounting.antt =====
-- The accounting of the cache's bytes, and what a `put` leaves in the cache.
use nuvio_engine.Common.{
  ℕ, ◌+◌, ◌-◌, ◌%◌, ◌<◌, ◌≤◌, ◌≡◌, refl, true, false, List, [], ◌∷◌, reverse, Option, none, some,
  Bytes, arith, length, u64_mod, leb, if◌then◌else◌, inl, inr, Bool-cases,
}
use nuvio_engine.Std.UnorderedMap.{lookup, erase, lookup-erase}
use nuvio_engine.Cache.PieceCache.{
  PieceCacheKey, key_eq, key_eq_iff, key_eq_instance, Entries, VerifiedPieceCache, get, erase_entry,
  erase_found, erase_existing, evict_found, evict, store, put, fits,
}

abbrev pub total : Entries → ℕ
total [] = 0
total ((key, bytes) ∷ rest) = length bytes + total rest

abbrev pub Unique : Entries → Type 0
Unique [] = Unit
Unique ((key, bytes) ∷ rest) = (lookup key rest ≡ none) × Unique rest

-- Every key has one entry, and the used bytes are those of the entries.
pub record IsAccounted (c : VerifiedPieceCache) : Type 0 where
  pub unique : Unique c.entries
  pub accounted : c.used_bytes ≡ total c.entries % u64_mod

pub erase-absent : (key : PieceCacheKey) (m : Entries) → lookup key m ≡ none → erase key m ≡ m
unfolding lookup erase
erase-absent key [] h = refl
erase-absent key ((k, bytes) ∷ rest) h = ground (arith, erase-absent key rest)

pub total-erase :
    (key : PieceCacheKey) (bytes : Bytes) (m : Entries)
    → Unique m
    → lookup key m ≡ some bytes
    → total (erase key m) + length bytes ≡ total m
unfolding lookup erase
total-erase key bytes [] u h = cc
total-erase key bytes ((k, other) ∷ rest) u h = elim (Bool-cases (key_eq k key)) [
  | inl same ↦
      let key_is = (key_eq_iff k key).0 same in
      let gone : lookup key rest ≡ none = rw (← key_is) u.0 in
      ground (arith, erase-absent key rest gone)
  | inr other_key ↦ ground (arith, total-erase key bytes rest u.1)
]

Unique-erase : (key : PieceCacheKey) (m : Entries) → Unique m → Unique (erase key m)
unfolding erase
Unique-erase key [] u = tt
Unique-erase key ((k, bytes) ∷ rest) u =
    ground (arith, Unique-erase key rest u.1, lookup-erase key k rest)

pub erase_entry-IsAccounted :
    (key : PieceCacheKey) (bytes : Bytes) (c : VerifiedPieceCache)
    → lookup key c.entries ≡ some bytes
    → IsAccounted c
    → IsAccounted (erase_entry key bytes c)
unfolding erase_entry
erase_entry-IsAccounted key bytes c h a = record {
  unique = Unique-erase key c.entries a.unique;
  accounted = omega (arith, a.accounted, total-erase key bytes c.entries a.unique h);
}

erase_found-IsAccounted :
    (key : PieceCacheKey) (found : Option Bytes) (c : VerifiedPieceCache)
    → lookup key c.entries ≡ found
    → IsAccounted c
    → IsAccounted (erase_found key found c)
unfolding erase_found
erase_found-IsAccounted key none c h a = a
erase_found-IsAccounted key (some bytes) c h a = erase_entry-IsAccounted key bytes c h a

pub evict_found-IsAccounted :
    (key : PieceCacheKey) (found : Option Bytes) (c : VerifiedPieceCache)
    → lookup key c.entries ≡ found
    → IsAccounted c
    → IsAccounted (evict_found key found c)
unfolding evict_found
evict_found-IsAccounted key none c h a = record { unique = a.unique; accounted = a.accounted }
evict_found-IsAccounted key (some bytes) c h a =
    let b = erase_entry-IsAccounted key bytes c h a in
    record { unique = b.unique; accounted = b.accounted }

evict-IsAccounted :
    (keys : List PieceCacheKey) (size : ℕ) (c : VerifiedPieceCache)
    → IsAccounted c
    → IsAccounted (evict keys size c)
unfolding evict
evict-IsAccounted [] size c a = a
evict-IsAccounted (key ∷ newer) size c a =
    let step = evict_found-IsAccounted key (lookup key c.entries) c refl a in
    let rest = evict-IsAccounted newer size (evict_found key (lookup key c.entries) c) step in
    elim (leb c.used_bytes (c.capacity_bytes - size))
      as (λ enough. IsAccounted (elim enough [
        | true ↦ c
        | false ↦ evict newer size (evict_found key (lookup key c.entries) c)
      ])) [ true ↦ a | false ↦ rest ]

lookup-erase_entry :
    (key other : PieceCacheKey) (bytes : Bytes) (c : VerifiedPieceCache)
    → lookup key c.entries ≡ none
    → lookup key (erase_entry other bytes c).entries ≡ none
unfolding erase_entry
lookup-erase_entry key other bytes c h = ground (arith, lookup-erase other key c.entries)

lookup-evict_found :
    (key other : PieceCacheKey) (found : Option Bytes) (c : VerifiedPieceCache)
    → lookup key c.entries ≡ none
    → lookup key (evict_found other found c).entries ≡ none
unfolding evict_found
lookup-evict_found key other none c h = h
lookup-evict_found key other (some bytes) c h = lookup-erase_entry key other bytes c h

-- The loop brings no entry back.
lookup-evict :
    (key : PieceCacheKey) (keys : List PieceCacheKey) (size : ℕ) (c : VerifiedPieceCache)
    → lookup key c.entries ≡ none
    → lookup key (evict keys size c).entries ≡ none
unfolding evict
lookup-evict key [] size c h = h
lookup-evict key (first ∷ newer) size c h =
    let step = lookup-evict_found key first (lookup first c.entries) c h in
    let rest = lookup-evict key newer size (evict_found first (lookup first c.entries) c) step in
    elim (leb c.used_bytes (c.capacity_bytes - size))
      as (λ enough.
        lookup key
          (elim enough as (λ b. VerifiedPieceCache) [
            | true ↦ c
            | false ↦ evict newer size (evict_found first (lookup first c.entries) c)
          ]).entries
        ≡ none) [ true ↦ h | false ↦ rest ]

lookup-erase_found :
    (key : PieceCacheKey) (found : Option Bytes) (c : VerifiedPieceCache)
    → lookup key c.entries ≡ found
    → lookup key (erase_found key found c).entries ≡ none
unfolding erase_found erase_entry
lookup-erase_found key none c h = h
lookup-erase_found key (some bytes) c h =
    ground (arith, lookup-erase key key c.entries, key_eq_iff key key)

lookup-erase_existing :
    (key : PieceCacheKey) (c : VerifiedPieceCache)
    → lookup key (erase_existing key c).entries ≡ none
unfolding erase_existing
lookup-erase_existing key c = lookup-erase_found key (lookup key c.entries) c refl

-- The cache in front of `store`.
prepared : PieceCacheKey → Bytes → VerifiedPieceCache → VerifiedPieceCache
unfolding erase_existing evict
prepared key bytes c =
    let kept = erase_existing key c in evict (reverse kept.recency) (length bytes) kept

lookup-prepared :
    (key : PieceCacheKey) (bytes : Bytes) (c : VerifiedPieceCache)
    → lookup key (prepared key bytes c).entries ≡ none
unfolding prepared
lookup-prepared key bytes c =
    let kept = erase_existing key c in
    lookup-evict key (reverse kept.recency) (length bytes) kept (lookup-erase_existing key c)

pub erase_existing-IsAccounted :
    (key : PieceCacheKey) (c : VerifiedPieceCache)
    → IsAccounted c
    → IsAccounted (erase_existing key c)
unfolding erase_existing
erase_existing-IsAccounted key c a = erase_found-IsAccounted key (lookup key c.entries) c refl a

prepared-IsAccounted :
    (key : PieceCacheKey) (bytes : Bytes) (c : VerifiedPieceCache)
    → IsAccounted c
    → IsAccounted (prepared key bytes c)
unfolding prepared
prepared-IsAccounted key bytes c a =
    let kept = erase_existing key c in
    evict-IsAccounted (reverse kept.recency) (length bytes) kept
      (erase_existing-IsAccounted key c a)

store-IsAccounted :
    (key : PieceCacheKey) (bytes : Bytes) (c : VerifiedPieceCache)
    → lookup key c.entries ≡ none
    → IsAccounted c
    → IsAccounted (store key bytes c)
unfolding store
store-IsAccounted key bytes c h a =
    rw (h, store) (record { unique = (h, a.unique); accounted = omega (arith, a.accounted) })

-- Whatever is put, every key keeps one entry, and the used bytes stay those of the entries.
pub put-IsAccounted :
    (key : PieceCacheKey) (piece_data : Option Bytes) (c : VerifiedPieceCache)
    → IsAccounted c
    → IsAccounted (put key piece_data c)
unfolding put prepared
put-IsAccounted key none c a = erase_existing-IsAccounted key c a
put-IsAccounted key (some bytes) c a =
    elim (fits bytes (erase_existing key c))
      as (λ fit.
        IsAccounted
          (if fit then store key bytes (prepared key bytes c) else erase_existing key c)) [
            | true ↦
                store-IsAccounted key bytes (prepared key bytes c) (lookup-prepared key bytes c)
                  (prepared-IsAccounted key bytes c a)
            | false ↦ erase_existing-IsAccounted key c a
          ]

capacity-erase_existing :
    (key : PieceCacheKey) (c : VerifiedPieceCache)
    → (erase_existing key c).capacity_bytes ≡ c.capacity_bytes
unfolding erase_existing erase_found erase_entry
capacity-erase_existing key c = ground arith

fits_of_size :
    (bytes : Bytes) (c : VerifiedPieceCache)
    → 0 < length bytes
    → length bytes ≤ c.capacity_bytes
    → fits bytes c ≡ true
unfolding fits
fits_of_size bytes c pos small = ground arith

get-store :
    (key : PieceCacheKey) (bytes : Bytes) (c : VerifiedPieceCache)
    → lookup key c.entries ≡ none
    → (get key (store key bytes c)).1 ≡ some bytes
unfolding store get lookup
get-store key bytes c h = ground (arith, key_eq_iff key key)

-- Data that is not empty and no larger than the capacity is there for the next `get` after it is put.
pub get-put :
    (key : PieceCacheKey) (bytes : Bytes) (c : VerifiedPieceCache)
    → 0 < length bytes
    → length bytes ≤ c.capacity_bytes
    → (get key (put key (some bytes) c)).1 ≡ some bytes
unfolding put prepared
get-put key bytes c pos small =
    let fit : fits bytes (erase_existing key c) ≡ true =
      fits_of_size bytes (erase_existing key c) pos
        (omega (arith, capacity-erase_existing key c)) in
    rw (put, fit) (get-store key bytes (prepared key bytes c) (lookup-prepared key bytes c))
