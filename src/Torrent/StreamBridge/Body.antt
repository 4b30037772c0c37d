-- ===== src/Torrent/StreamBridge/Body.antt =====
-- src/torrent/libtorrent_stream_bridge.cpp: the slices of `stream_body` make up the range.
use native.Mathlib.Nat.{add-mul, mul-le-mul_right, div-add-mod', mod-lt}
use nuvio_engine.Common.{
  ℕ, ◌+◌, ◌-◌, ◌*◌, ◌/◌, ◌%◌, ◌≤◌, ◌<◌, ◌≡◌, ◌∙◌, ap, refl, sym, Bool, true, false, ◌&&◌, List, [],
  ◌∷◌, ◌++◌, Bytes, length, take, drop, take-append-drop, drop-drop, arith, ltb, leb, ◌==◌, min,
  max, u64_max, u64_mod, u32_max, Bool-cases, inl, inr, append-nil,
}
use nuvio_engine.Http.ByteRange.{ByteRange}
use nuvio_engine.Torrent.StreamBridge.{
  StreamRoute, PieceSlice, Round, halted, failed, served, slice_of, body_loop, stream_body,
}

-- The bytes of the torrent in a slice, and in several of them.
abbrev pub slice_bytes : Bytes → PieceSlice → Bytes
slice_bytes torrent s = take (s.end - s.begin) (drop (s.piece_start + s.begin) torrent)

abbrev pub body_bytes : Bytes → List PieceSlice → Bytes
body_bytes torrent [] = []
body_bytes torrent (s ∷ rest) = slice_bytes torrent s ++ body_bytes torrent rest

abbrev pub AllServed : List Round → Type 0
AllServed [] = Unit
AllServed (halted ∷ rounds) = ⊥
AllServed (failed ∷ rounds) = ⊥
AllServed (served ∷ rounds) = AllServed rounds

-- A cut at `e` of the bytes from `c` to `n`; behind `n` there is nothing.
join_cut :
    (t : Bytes) (c e d n : ℕ)
    → c ≤ e
    → e ≤ n
    → e ≡ min n d
    → c ≤ d
    → take (e - c) (drop c t) ++ take (n - d) (drop d t) ≡ take (n - c) (drop c t)
join_cut t c e d n ce en m cd = elim (Bool-cases (leb d n)) [
  | inl inside ↦
      let at : e ≡ d = ground arith in
      ap (λ xs. take (e - c) (drop c t) ++ take (n - d) xs)
        (ap (λ k. drop k t) (omega arith) ∙ sym (drop-drop t c (e - c)))
      ∙ take-append-drop (drop c t) (e - c) (n - d)
      ∙ ap (λ k. take k (drop c t)) (omega arith)
  | inr outside ↦
      let none_left : n - d ≡ 0 = ground arith in
      let all : e ≡ n = ground arith in rw (none_left, all) (append-nil (take (n - c) (drop c t)))
]

-- The route, the range from `start` to before `stop`, and its last piece.
module _ (route : StreamRoute) (t : Bytes) (start stop last : ℕ)
    (offset : route.file_offset ≤ start) (ordered : start < stop)
    (inside : last * route.piece_size < stop)
    (ends : stop ≤ last * route.piece_size + route.piece_size)
    (word : stop + route.piece_size ≤ u64_mod) where
  -- Where a piece's part of the range begins.
  abbrev place : ℕ → ℕ
  place piece = max start (piece * route.piece_size)

  slice_lem :
      (piece : ℕ)
      → piece * route.piece_size < stop
      → start < piece * route.piece_size + route.piece_size
      → slice_bytes t (slice_of route start stop piece)
        ≡ take
            (min stop (piece * route.piece_size + route.piece_size) - place piece)
            (drop (place piece) t)
  unfolding slice_of
  slice_lem piece low high =
      let small : (piece * route.piece_size) % u64_mod ≡ piece * route.piece_size = omega arith in
      let next : (piece * route.piece_size + route.piece_size) % u64_mod
          ≡ piece * route.piece_size + route.piece_size =
        omega arith in
      rw (small, next) (λ i. take (amount i) (drop (position i) t))
    where
      amount :
          min stop (piece * route.piece_size + route.piece_size)
            - piece * route.piece_size
            - (max start (piece * route.piece_size) - piece * route.piece_size)
          ≡ min stop (piece * route.piece_size + route.piece_size) - place piece
      amount = omega arith

      position :
          piece * route.piece_size
            + (max start (piece * route.piece_size) - piece * route.piece_size)
          ≡ place piece
      position = omega arith

  product_next :
      (piece : ℕ) → (piece + 1) * route.piece_size ≡ piece * route.piece_size + route.piece_size
  product_next piece = add-mul piece 1 route.piece_size ∙ omega arith

  -- Behind the last piece nothing is left.
  nothing_behind :
      (piece : ℕ) → last < piece → [] ≡ take (stop - place piece) (drop (place piece) t)
  nothing_behind piece h =
      let far : (last + 1) * route.piece_size ≤ piece * route.piece_size =
        mul-le-mul_right route.piece_size (omega arith) in
      let left : stop - place piece ≡ 0 = omega (arith, far, product_next last) in rw left refl

  tiles_piece :
      (inside_loop : Bool) (piece : ℕ) (rest : List PieceSlice)
      → (leb piece last && leb route.file_offset (max start ((piece * route.piece_size) % u64_mod)))
        ≡ inside_loop
      → start < piece * route.piece_size + route.piece_size
      → body_bytes t rest ≡ take (stop - place (piece + 1)) (drop (place (piece + 1)) t)
      → body_bytes t
          (elim inside_loop [ false ↦ [] | true ↦ slice_of route start stop piece ∷ rest ])
        ≡ take (stop - place piece) (drop (place piece) t)
  tiles_piece false piece rest g high h = nothing_behind piece (ground arith)
  tiles_piece true piece rest g high h =
      let within : piece ≤ last = ground arith in
      let low : piece * route.piece_size ≤ last * route.piece_size =
        mul-le-mul_right route.piece_size within in
      let next : place (piece + 1) ≡ piece * route.piece_size + route.piece_size =
        omega (arith, product_next piece) in
      let cut = min stop (piece * route.piece_size + route.piece_size) in
      (λ i.
        slice_lem piece (omega (arith, low)) high i
        ++ (h ∙ ap (λ d. take (stop - d) (drop d t)) next) i)
      ∙ join_cut t (place piece) cut (piece * route.piece_size + route.piece_size) stop
          (omega (arith, low)) (omega arith) (omega arith) (omega arith)

  tiles :
      (rounds : List Round) (piece : ℕ)
      → AllServed rounds
      → last < piece + length rounds
      → start < piece * route.piece_size + route.piece_size
      → body_bytes t (body_loop route start stop last rounds piece)
        ≡ take (stop - place piece) (drop (place piece) t)
  unfolding body_loop
  tiles [] piece s n high = nothing_behind piece (omega arith)
  tiles (served ∷ rounds) piece s n high =
      tiles_piece
        (leb piece last && leb route.file_offset (max start ((piece * route.piece_size) % u64_mod)))
        piece (body_loop route start stop last rounds (piece + 1)) refl high
        (tiles rounds (piece + 1) s (omega arith) (omega (arith, product_next piece)))
  tiles (halted ∷ rounds) piece s n high = absurd s
  tiles (failed ∷ rounds) piece s n high = absurd s

-- The response's body is the range: where pieces have a size, the range with a piece behind it is
-- within 64 bits and the pieces' numbers within 32, every piece is served, and there are as many
-- rounds as pieces, the slices that `stream_body` serves are, one after the other, the
-- bytes of the torrent from the range's first to its last one.
pub stream_body_tiles :
    (route : StreamRoute) (range : ByteRange) (rounds : List Round) (torrent : Bytes)
    → 0 < route.piece_size
    → range.start ≤ range.end
    → route.file_offset + range.end + route.piece_size < u64_max
    → (route.file_offset + range.end) / route.piece_size ≤ u32_max
    → AllServed rounds
    → (route.file_offset + range.end) / route.piece_size
      < (route.file_offset + range.start) / route.piece_size + length rounds
    → body_bytes torrent (stream_body route range rounds)
      ≡ take (range.end - range.start + 1) (drop (route.file_offset + range.start) torrent)
unfolding stream_body
stream_body_tiles route range rounds torrent pos ordered word pieces s n =
    let first = route.file_offset + range.start in
    let final = route.file_offset + range.end in
    let size = route.piece_size in
    let fits : ltb (u64_max - route.file_offset) range.end ≡ false = ground arith in
    let below : (route.file_offset + range.end == u64_max) ≡ false = ground arith in
    let numbered : ltb u32_max ((route.file_offset + range.end) / route.piece_size) ≡ false =
      ground arith in
    let small : (route.file_offset + range.start) % u64_mod ≡ route.file_offset + range.start =
      omega arith in
    let from : first / size * size + first % size ≡ first = div-add-mod' first size in
    let to : final / size * size + final % size ≡ final = div-add-mod' final size in
    let from_rest : first % size < size = mod-lt first pos in
    let to_rest : final % size < size = mod-lt final pos in
    let position : max first (first / size * size) ≡ first = omega (arith, from) in
    let amount : final + 1 - max first (first / size * size) ≡ range.end - range.start + 1 =
      omega (arith, position) in
    rw (fits, below, numbered, small)
      (tiles route torrent first (final + 1) (final / size) (omega arith) (omega arith)
          (omega (arith, to)) (omega (arith, to, to_rest)) (omega arith) rounds (first / size) s n
          (omega (arith, from, from_rest))
        ∙ (λ i. take (amount i) (drop (position i) torrent)))
