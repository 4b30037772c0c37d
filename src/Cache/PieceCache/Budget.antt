-- ===== src/Cache/PieceCache/Budget.antt =====
-- The budget of bytes: a `put` evicts until the new data has room.
use mathlib.Core.List.{reverse-cons}
use nuvio_engine.Common.{
  ℕ, ◌+◌, ◌-◌, ◌≤◌, ◌≡◌, refl, subst, true, false, List, [], ◌∷◌, ◌++◌, reverse, Option, none, some,
  Bytes, arith, length, u64_max, leb, inl, inr, Bool-cases, All, In, leb→le,
}
use nuvio_engine.Std.UnorderedMap.{lookup, erase}
use nuvio_engine.Cache.PieceCache.{
  PieceCacheKey, key_eq, key_eq_iff, key_eq_instance, Entries, VerifiedPieceCache, erase_entry,
  erase_found, erase_existing, evict_found, evict, store, put, fits, unlink,
}
use nuvio_engine.Cache.PieceCache.Accounting.{
  total, IsAccounted, erase-absent, evict_found-IsAccounted, erase_existing-IsAccounted,
}

-- Every entry's key stands in the list.
abbrev pub Listed : List PieceCacheKey → Entries → Type 0
Listed keys m = All (λ e. In e.0 keys) m

Listed-erase :
    (first : PieceCacheKey) (newer : List PieceCacheKey) (m : Entries)
    → Listed (first ∷ newer) m
    → Listed newer (erase first m)
unfolding erase
Listed-erase first newer [] h = tt
Listed-erase first newer ((key, bytes) ∷ rest) h =
    ground (arith, Listed-erase first newer rest h.1, h.0, key_eq_iff key first)

total-erase_le : (key : PieceCacheKey) (m : Entries) → total (erase key m) ≤ total m
unfolding erase
total-erase_le key [] = omega arith
total-erase_le key ((k, bytes) ∷ rest) = ground (arith, total-erase_le key rest)

Listed-none : (m : Entries) → Listed [] m → total m ≡ 0
Listed-none [] h = refl
Listed-none (e ∷ rest) h = absurd h.0

Listed-evict_found :
    (first : PieceCacheKey) (found : Option Bytes) (newer : List PieceCacheKey)
    (c : VerifiedPieceCache)
    → lookup first c.entries ≡ found
    → Listed (first ∷ newer) c.entries
    → Listed newer (evict_found first found c).entries
unfolding evict_found erase_entry
Listed-evict_found first none newer c e h =
    subst (λ m. Listed newer m) (erase-absent first c.entries e)
      (Listed-erase first newer c.entries h)
Listed-evict_found first (some bytes) newer c e h = Listed-erase first newer c.entries h

total-evict_found :
    (first : PieceCacheKey) (found : Option Bytes) (c : VerifiedPieceCache)
    → (total (evict_found first found c).entries ≤ total c.entries)
      × ((evict_found first found c).capacity_bytes ≡ c.capacity_bytes)
unfolding evict_found erase_entry
total-evict_found first none c = (omega arith, refl)
total-evict_found first (some bytes) c = (total-erase_le first c.entries, refl)

-- The loop ends with room for the new data.
evict_room :
    (keys : List PieceCacheKey) (size : ℕ) (c : VerifiedPieceCache)
    → IsAccounted c
    → Listed keys c.entries
    → total c.entries ≤ u64_max
    → total (evict keys size c).entries ≤ c.capacity_bytes - size
unfolding evict
evict_room [] size c a h small = omega (arith, Listed-none c.entries h)
evict_room (first ∷ newer) size c a h small =
    let found = lookup first c.entries in
    let (less, same) = total-evict_found first found c in
    let rest =
      evict_room newer size (evict_found first found c)
        (evict_found-IsAccounted first found c refl a)
        (Listed-evict_found first found newer c refl h) (omega arith) in
    elim (Bool-cases (leb c.used_bytes (c.capacity_bytes - size))) [
      | inl enough ↦
          rw (evict, enough)
            (omega (arith, a.accounted, leb→le c.used_bytes (c.capacity_bytes - size) enough))
      | inr over ↦ rw (evict, over) (omega arith)
    ]

In-append_right : (k : PieceCacheKey) (xs : List PieceCacheKey) → In k (xs ++ k ∷ [])
In-append_right k [] = inl refl
In-append_right k (x ∷ xs) = inr (In-append_right k xs)

In-append_left : (k : PieceCacheKey) (xs ys : List PieceCacheKey) → In k xs → In k (xs ++ ys)
In-append_left k [] ys i = absurd i
In-append_left k (x ∷ xs) ys (inl e) = inl e
In-append_left k (x ∷ xs) ys (inr i) = inr (In-append_left k xs ys i)

In-reverse : (k : PieceCacheKey) (xs : List PieceCacheKey) → In k xs → In k (reverse xs)
In-reverse k [] i = absurd i
In-reverse k (x ∷ xs) (inl e) =
    rw (reverse-cons x xs)
      (subst (λ y. In k (reverse xs ++ y ∷ [])) e (In-append_right k (reverse xs)))
In-reverse k (x ∷ xs) (inr i) =
    rw (reverse-cons x xs) (In-append_left k (reverse xs) (x ∷ []) (In-reverse k xs i))

In-unlink :
    (k key : PieceCacheKey) (recency : List PieceCacheKey)
    → key_eq k key ≡ false
    → In k recency
    → In k (unlink key recency)
unfolding unlink
In-unlink k key [] n i = absurd i
In-unlink k key (first ∷ rest) n (inl e) = ground (arith, e, n)
In-unlink k key (first ∷ rest) n (inr i) = ground (arith, In-unlink k key rest n i)

Listed-unlink :
    (key : PieceCacheKey) (recency : List PieceCacheKey) (m : Entries)
    → Listed recency m
    → Listed (unlink key recency) (erase key m)
unfolding erase
Listed-unlink key recency [] h = tt
Listed-unlink key recency ((k, bytes) ∷ rest) h = elim (Bool-cases (key_eq k key)) [
  | inl same ↦ ground (arith, same, Listed-unlink key recency rest h.1)
  | inr other ↦
      ground (arith, other, Listed-unlink key recency rest h.1, In-unlink k key recency other h.0)
]

Listed-reverse :
    (recency : List PieceCacheKey) (m : Entries) → Listed recency m → Listed (reverse recency) m
Listed-reverse recency [] h = tt
Listed-reverse recency ((k, bytes) ∷ rest) h =
    (In-reverse k recency h.0, Listed-reverse recency rest h.1)

erased_found :
    (key : PieceCacheKey) (found : Option Bytes) (c : VerifiedPieceCache)
    → Listed c.recency c.entries
    → (total (erase_found key found c).entries ≤ total c.entries)
      × ((erase_found key found c).capacity_bytes ≡ c.capacity_bytes)
      × Listed (erase_found key found c).recency (erase_found key found c).entries
unfolding erase_found erase_entry
erased_found key none c h = (omega arith, refl, h)
erased_found key (some bytes) c h =
    (total-erase_le key c.entries, refl, Listed-unlink key c.recency c.entries h)

total-store :
    (key : PieceCacheKey) (bytes : Bytes) (c : VerifiedPieceCache)
    → total (store key bytes c).entries ≤ length bytes + total c.entries
unfolding store
total-store key bytes c = ground arith

fits_room :
    (bytes : Bytes) (c : VerifiedPieceCache) → fits bytes c ≡ true → length bytes ≤ c.capacity_bytes
unfolding fits
fits_room bytes c h = ground arith

-- In a cache that is accounted for, whose keys all stand in the recency list, and whose entries are
-- within the capacity, a 64-bit number, they are within the capacity after a `put` as well.
pub put_within_capacity :
    (key : PieceCacheKey) (piece_data : Option Bytes) (c : VerifiedPieceCache)
    → IsAccounted c
    → Listed c.recency c.entries
    → total c.entries ≤ c.capacity_bytes
    → c.capacity_bytes ≤ u64_max
    → total (put key piece_data c).entries ≤ c.capacity_bytes
unfolding put erase_existing
put_within_capacity key none c a h within word =
    omega (arith, (erased_found key (lookup key c.entries) c h).0)
put_within_capacity key (some bytes) c a h within word =
    let kept = erase_existing key c in
    let (less, same, listed) = erased_found key (lookup key c.entries) c h in
    let room =
      evict_room (reverse kept.recency) (length bytes) kept (erase_existing-IsAccounted key c a)
        (Listed-reverse kept.recency kept.entries listed) (omega arith) in
    let added = total-store key bytes (evict (reverse kept.recency) (length bytes) kept) in
    elim (Bool-cases (fits bytes kept)) [
      | inl fit ↦ rw (put, fit) (omega (arith, fits_room bytes kept fit))
      | inr big ↦ rw (put, big) (omega arith)
    ]
