-- ===== src/Cache/PieceCache/Torrents.antt =====
-- Erasing a torrent from the cache.
use nuvio_engine.Common.{
  ◌≡◌, refl, true, false, [], ◌∷◌, none, some, Bytes, arith, bytes_eq, bytes_eq_instance,
  if◌then◌else◌,
}
use nuvio_engine.Std.UnorderedMap.{lookup, lookup-erase}
use nuvio_engine.Cache.PieceCache.{
  PieceCacheKey, key_eq, key_eq_iff, key_eq_instance, Entries, VerifiedPieceCache, erase_entry,
  erase_all, erase_torrent,
}
use nuvio_engine.Cache.PieceCache.Accounting.{Unique, IsAccounted, erase_entry-IsAccounted}

-- The entries that the loop has not reached are in the cache.
abbrev Pending : VerifiedPieceCache → Entries → Type 0
Pending c [] = Unit
Pending c ((key, bytes) ∷ rest) = (lookup key c.entries ≡ some bytes) × Pending c rest

pending_key :
    (key other : PieceCacheKey) (bytes : Bytes) (rest : Entries)
    → lookup key ((other, bytes) ∷ rest) ≡ none
    → key_eq other key ≡ false
unfolding lookup
pending_key key other bytes rest h = ground arith

Pending-erase_entry :
    (key : PieceCacheKey) (bytes : Bytes) (c : VerifiedPieceCache) (rest : Entries)
    → lookup key rest ≡ none
    → Pending c rest
    → Pending (erase_entry key bytes c) rest
unfolding erase_entry lookup
Pending-erase_entry key bytes c [] h p = tt
Pending-erase_entry key bytes c ((other, kept) ∷ rest) h p = (
  ground (arith, p.0, lookup-erase key other c.entries, key_eq_iff other key, key_eq_iff key other),
  Pending-erase_entry key bytes c rest (ground arith) p.1,
)

erase_all-IsAccounted :
    (torrent_id : Bytes) (pending : Entries) (c : VerifiedPieceCache)
    → Unique pending
    → Pending c pending
    → IsAccounted c
    → IsAccounted (erase_all torrent_id pending c)
unfolding erase_all
erase_all-IsAccounted torrent_id [] c u p a = a
erase_all-IsAccounted torrent_id ((key, bytes) ∷ rest) c u p a =
    let gone =
      erase_all-IsAccounted torrent_id rest (erase_entry key bytes c) u.1
        (Pending-erase_entry key bytes c rest u.0 p.1)
        (erase_entry-IsAccounted key bytes c p.0 a) in
    let kept = erase_all-IsAccounted torrent_id rest c u.1 p.1 a in
    elim (bytes_eq key.torrent_id torrent_id)
      as (λ same.
        IsAccounted (erase_all torrent_id rest (if same then erase_entry key bytes c else c))) [
          | true ↦ gone
          | false ↦ kept
        ]

Pending-cons :
    (key : PieceCacheKey) (bytes : Bytes) (c : VerifiedPieceCache) (m rest : Entries)
    → c.entries ≡ (key, bytes) ∷ m
    → lookup key rest ≡ none
    → Pending (record c { entries = m }) rest
    → Pending c rest
unfolding lookup
Pending-cons key bytes c m [] e h p = tt
Pending-cons key bytes c m ((other, kept) ∷ rest) e h p = (
  rw e (ground (arith, p.0, key_eq_iff other key, key_eq_iff key other)),
  Pending-cons key bytes c m rest e (ground arith) p.1,
)

all_Pending : (c : VerifiedPieceCache) (m : Entries) → c.entries ≡ m → Unique m → Pending c m
unfolding lookup
all_Pending c [] e u = tt
all_Pending c ((key, bytes) ∷ rest) e u = (
  rw e (ground (arith, key_eq_iff key key)),
  Pending-cons key bytes c rest rest e u.0
      (all_Pending (record c { entries = rest }) rest refl u.1),
)

-- Erasing a torrent leaves every key one entry, and the used bytes those of the entries that stay.
pub erase_torrent-IsAccounted :
    (torrent_id : Bytes) (c : VerifiedPieceCache)
    → IsAccounted c
    → IsAccounted (erase_torrent torrent_id c)
unfolding erase_torrent
erase_torrent-IsAccounted torrent_id c a =
    erase_all-IsAccounted torrent_id c.entries c a.unique (all_Pending c c.entries refl a.unique) a
