-- ===== src/Torrent/StreamBridge/Progress/Bounds.antt =====
-- src/torrent/libtorrent_stream_bridge.cpp: the progress of a stream is within its file.
use native.Mathlib.Nat.{suc-mul, mul-le-mul_right, div-mul-le_self}
use nuvio_engine.Common.{
  ℕ, zero, suc, ◌+◌, ◌-◌, ◌*◌, ◌/◌, ◌%◌, ◌≡◌, ◌≤◌, ◌<◌, Bool, true, false, Bool-cases, inl, inr,
  min, some, u64_max, u64_mod, ltb, leb, ◌==◌, if◌then◌else◌, arith, ◌||◌, by_test, leb→le,
  leb-false,
}
use nuvio_engine.Torrent.StreamBridge.{StreamRoute}
use nuvio_engine.Torrent.StreamBridge.Kept.{by_bool, by_if}
use nuvio_engine.Torrent.StreamBridge.Progress.{
  TorrentStatus, Verified, nothing_verified, is_ready, overlap, verify_pieces, verify_file,
}

-- The bytes of the file before a piece.
before : StreamRoute → ℕ → ℕ
before route piece =
    min (route.file_offset + route.file_size) (piece * route.piece_size) - route.file_offset

overlap-before :
    (route : StreamRoute) (piece bytes : ℕ)
    → bytes ≤ route.piece_size
    → piece * route.piece_size ≤ u64_max
    → before route piece + overlap route piece bytes ≤ before route (suc piece)
unfolding overlap before
overlap-before route piece bytes small inside =
    let next : suc piece * route.piece_size ≡ piece * route.piece_size + route.piece_size =
      suc-mul piece route.piece_size in
    omega (arith, next, small, inside)

before-size : (route : StreamRoute) (piece : ℕ) → before route piece ≤ route.file_size
unfolding before
before-size route piece = omega arith

-- The counts are within the file.
unfoldable pub IsWithin : ℕ → Verified → Type 0
IsWithin bound v =
    (v.contiguous_ready_bytes ≤ v.verified_file_bytes) × (v.verified_file_bytes ≤ bound)

IsWithin-mono : (a b : ℕ) (v : Verified) → a ≤ b → IsWithin a v → IsWithin b v
unfolding IsWithin
IsWithin-mono a b v le h = (h.0, omega (arith, le, h.1))

nothing-IsWithin : (bound : ℕ) → IsWithin bound nothing_verified
unfolding IsWithin
nothing-IsWithin bound = (omega arith, omega arith)

-- A piece that is ready.
add-IsWithin :
    (bound bytes : ℕ) (contiguous : Bool) (v : Verified)
    → bound + bytes ≤ u64_max
    → IsWithin bound v
    → IsWithin (bound + bytes) (record {
      verified_file_bytes = (v.verified_file_bytes + bytes) % u64_mod;
      contiguous_ready_bytes =
          if contiguous
          then (v.contiguous_ready_bytes + bytes) % u64_mod
          else v.contiguous_ready_bytes;
    })
unfolding IsWithin
add-IsWithin bound bytes true v fits h = (omega (arith, fits, h.0, h.1), omega (arith, fits, h.1))
add-IsWithin bound bytes false v fits h = (omega (arith, fits, h.0, h.1), omega (arith, fits, h.1))

module _ (route : StreamRoute) (status : TorrentStatus)
    (sizes : (piece : ℕ) → status.piece_size piece ≤ route.piece_size)
    (fits : route.file_offset + route.file_size ≤ u64_max) where
  verify_pieces-IsWithin :
      (count piece : ℕ) (contiguous : Bool) (v : Verified)
      → ((p : ℕ) → p < piece + count → p * route.piece_size ≤ u64_max)
      → IsWithin (before route piece) v
      → IsWithin route.file_size (verify_pieces route status count piece contiguous v)
  unfolding verify_pieces
  verify_pieces-IsWithin zero piece contiguous v inside h =
      IsWithin-mono (before route piece) route.file_size v (before-size route piece) h
  verify_pieces-IsWithin (suc count) piece contiguous v inside h =
      let here : piece * route.piece_size ≤ u64_max = inside piece (omega arith) in
      let rest : (p : ℕ) → p < suc piece + count → p * route.piece_size ≤ u64_max =
        λ p l. inside p (omega (arith, l)) in
      let within = before-size route (suc piece) in
      let bytes = overlap route piece (status.piece_size piece) in
      let added = overlap-before route piece (status.piece_size piece) (sizes piece) here in
      by_bool (IsWithin route.file_size) (is_ready status piece)
        (by_bool (IsWithin route.file_size) (status.piece_size piece == 0)
          (nothing-IsWithin route.file_size)
          (verify_pieces-IsWithin count (suc piece) contiguous _ rest (
            IsWithin-mono (before route piece + bytes) (before route (suc piece)) _ added (
              add-IsWithin (before route piece) bytes contiguous v
                (omega (arith, added, within, fits)) h))))
        (verify_pieces-IsWithin count (suc piece) false v rest (
          IsWithin-mono (before route piece) (before route (suc piece)) v (omega (arith, added)) h))

-- The starts of the pieces that the loop visits are numbers of 64 bits.
starts_inside :
    (route : StreamRoute) (p : ℕ)
    → route.file_offset + route.file_size ≤ u64_max
    → p
      < route.file_offset / route.piece_size
        + (suc ((route.file_offset + route.file_size - 1) / route.piece_size)
            - route.file_offset / route.piece_size)
    → p * route.piece_size ≤ u64_max
starts_inside route p fits l =
    let first = route.file_offset / route.piece_size in
    let last = (route.file_offset + route.file_size - 1) / route.piece_size in
    let first_start : first * route.piece_size ≤ route.file_offset =
      div-mul-le_self route.file_offset route.piece_size in
    let last_start : last * route.piece_size ≤ route.file_offset + route.file_size - 1 =
      div-mul-le_self (route.file_offset + route.file_size - 1) route.piece_size in
    elim (Bool-cases (leb p last)) [
      | inl up_to ↦
          let le : p * route.piece_size ≤ last * route.piece_size =
            mul-le-mul_right route.piece_size (leb→le p last up_to) in
          omega (arith, le, last_start, fits)
      | inr beyond ↦
          let over = leb-false p last beyond in
          let low : p ≤ first = omega (arith, l, over) in
          let le : p * route.piece_size ≤ first * route.piece_size =
            mul-le-mul_right route.piece_size low in
          omega (arith, le, first_start, fits)
    ]

-- The progress of a stream is within its file: the bytes that are ready from the front on are at
-- most the verified ones, and those at most the size of the file, whatever pieces the library has.
-- No piece is larger than the piece length of the stream.
pub verify_file-IsWithin :
    (route : StreamRoute) (status : TorrentStatus)
    → ((piece : ℕ) → status.piece_size piece ≤ route.piece_size)
    → IsWithin route.file_size (verify_file route (some status))
unfolding verify_file
verify_file-IsWithin route status sizes =
    let W = IsWithin route.file_size in
    let none_yet = nothing-IsWithin route.file_size in
    by_test W (route.file_size == 0 || ltb (u64_max - route.file_offset) route.file_size)
      (λ e. none_yet)
      (λ e.
        let fits : route.file_offset + route.file_size ≤ u64_max = ground (arith, e) in
        by_if W
          (leb status.num_pieces ((route.file_offset + route.file_size - 1) / route.piece_size))
          none_yet
          (verify_pieces-IsWithin route status sizes fits _ _ true nothing_verified
            (λ p l. starts_inside route p fits l)
            (nothing-IsWithin (before route (route.file_offset / route.piece_size)))))
