-- ===== src/Torrent/StreamBridge/Piece.antt =====
-- src/torrent/libtorrent_stream_bridge.cpp: `serve_piece`, which waits for the bytes of a slice and
-- writes them: from the file as blocks of the piece are finished, or from the verified piece.
use nuvio_engine.Common.{
  ℕ, ◌-◌, ◌≤◌, ◌<◌, ◌≡◌, ◌⊎◌, ◌∙◌, ap, sym, refl, Bool, true, false, ◌&&◌, List, [], ◌∷◌, ◌++◌,
  Option, none, some, Bytes, length, take, drop, take-append-drop, drop-drop, arith, ltb,
  if◌then◌else◌,
}
use nuvio_engine.Torrent.StreamBridge.{PieceSlice, finished_run_end}

-- A wake-up of the loop: whether the token, the demand or the waiter's error ends it; the data of the
-- verified piece if the waiter is done, which it has where it has no error; the finished blocks; what `read_exact` gives for the file's
-- bytes up to the end of their run, with none where it fails; and whether the writer takes the bytes.
pub record Wake : Type 0 where
  pub halted : Bool
  pub verified : Option Bytes
  pub finished_blocks : List Bool
  pub read : Option Bytes
  pub written : Bool

-- The bytes that the writer took, and the result; none while the loop waits.
pub record Serving : Type 0 where
  pub bytes : Bytes
  pub result : Option Bool

abbrev pub stopped : Bytes → Serving
stopped bytes = record { bytes = bytes; result = some false }

-- The verified piece ends the loop.
unfoldable pub serve_verified : PieceSlice → ℕ → Bytes → Bool → Bytes → Serving
serve_verified slice cursor data_bytes written bytes =
    if ltb (length data_bytes) slice.end
    then stopped bytes
    else if written
    then record {
      bytes = bytes ++ take (slice.end - cursor) (drop cursor data_bytes);
      result = some true;
    }
    else stopped bytes

-- The loop over the wake-ups, with whether the file is readable, the cursor and the bytes so far.
unfoldable pub serve_loop : PieceSlice → List Wake → Bool → ℕ → Bytes → Serving
unfolding serve_verified finished_run_end
serve_loop slice [] readable cursor bytes = record {
  bytes = bytes;
  result = if ltb cursor slice.end then none else some true;
}
serve_loop slice (wake ∷ wakes) readable cursor bytes = elim (ltb cursor slice.end) [
  | false ↦ record { bytes = bytes; result = some true }
  | true ↦ elim wake.halted [
    | true ↦ stopped bytes
    | false ↦ elim wake.verified [
      | some piece ↦ serve_verified slice cursor piece wake.written bytes
      | none ↦
          elim (readable && ltb cursor (finished_run_end wake.finished_blocks cursor slice.end)) [
            | false ↦ stopped bytes
            | true ↦ elim wake.read [
              | none ↦ serve_loop slice wakes false cursor bytes
              | some buffer ↦ elim wake.written [
                | false ↦ stopped bytes
                | true ↦
                    serve_loop slice wakes readable
                      (finished_run_end wake.finished_blocks cursor slice.end) (bytes ++ buffer)
              ]
            ]
          ]
    ]
  ]
]

-- `opened`: the file is not opened yet, or it is open.
unfoldable pub serve_piece : PieceSlice → List Wake → Bool → Serving
unfolding serve_loop
serve_piece slice wakes opened = serve_loop slice wakes opened slice.begin []

-- The verified data is the piece, and the bytes that are read are those of the finished blocks.
abbrev pub Delivers : Bytes → PieceSlice → List Wake → ℕ → Type 0
Delivers piece slice [] cursor = Unit
Delivers piece slice (wake ∷ wakes) cursor =
    let run_end = finished_run_end wake.finished_blocks cursor slice.end in
    (wake.verified ≡ none ⊎ wake.verified ≡ some piece)
    × ((buffer : Bytes)
        → wake.read ≡ some buffer
        → buffer ≡ take (run_end - cursor) (drop cursor piece))
    × Delivers piece slice wakes cursor
    × Delivers piece slice wakes run_end

-- What is written is the slice where the result is true.
unfoldable pub IsServed : Bytes → PieceSlice → Serving → Type 0
IsServed piece slice s =
    s.result ≡ some true → s.bytes ≡ take (slice.end - slice.begin) (drop slice.begin piece)

-- The bytes up to the cursor.
abbrev Grown : Bytes → ℕ → ℕ → Bytes → Type 0
Grown piece begin cursor bytes = bytes ≡ take (cursor - begin) (drop begin piece)

Grown-append :
    (piece bytes : Bytes) (begin cursor end : ℕ)
    → begin ≤ cursor
    → cursor ≤ end
    → Grown piece begin cursor bytes
    → Grown piece begin end (bytes ++ take (end - cursor) (drop cursor piece))
Grown-append piece bytes begin cursor end b c g =
    (λ i. g i ++ take (end - cursor) (place i))
    ∙ take-append-drop (drop begin piece) (cursor - begin) (end - cursor)
    ∙ ap (λ k. take k (drop begin piece)) (omega arith)
  where
    place : drop cursor piece ≡ drop (cursor - begin) (drop begin piece)
    place = ap (λ k. drop k piece) (omega arith) ∙ sym (drop-drop piece begin (cursor - begin))

stopped-IsServed : (piece bytes : Bytes) (slice : PieceSlice) → IsServed piece slice (stopped bytes)
unfolding IsServed
stopped-IsServed piece bytes slice e = cc

run_end_bounds :
    (slice : PieceSlice) (blocks : List Bool) (cursor : ℕ)
    → finished_run_end blocks cursor slice.end ≤ slice.end
unfolding finished_run_end
run_end_bounds slice blocks cursor = omega arith

module _ (piece : Bytes) (slice : PieceSlice) where
  verified-IsServed :
      (cursor : ℕ) (written : Bool) (bytes : Bytes)
      → slice.begin ≤ cursor
      → cursor ≤ slice.end
      → Grown piece slice.begin cursor bytes
      → IsServed piece slice (serve_verified slice cursor piece written bytes)
  unfolding serve_verified IsServed
  verified-IsServed cursor written bytes b c g =
      ground (arith, Grown-append piece bytes slice.begin cursor slice.end b c g)

  -- The end of a round, by what is read and whether the writer takes it.
  run-IsServed :
      (wakes : List Wake) (read : Option Bytes) (written : Bool) (next : Bytes → Serving)
      (again : Serving) (bytes : Bytes)
      → IsServed piece slice again
      → ((buffer : Bytes) → read ≡ some buffer → IsServed piece slice (next buffer))
      → IsServed piece slice (elim read [
        | none ↦ again
        | some buffer ↦ elim written [ false ↦ stopped bytes | true ↦ next buffer ]
      ])
  run-IsServed wakes none written next again bytes a n = a
  run-IsServed wakes (some buffer) true next again bytes a n = n buffer refl
  run-IsServed wakes (some buffer) false next again bytes a n = stopped-IsServed piece bytes slice

  full-IsServed :
      (cursor : ℕ) (bytes : Bytes) (result : Option Bool)
      → (result ≡ some true → cursor ≡ slice.end)
      → Grown piece slice.begin cursor bytes
      → IsServed piece slice (record { bytes = bytes; result = result })
  unfolding IsServed
  full-IsServed cursor bytes result full g e =
      g ∙ ap (λ k. take (k - slice.begin) (drop slice.begin piece)) (full e)

  -- A round, by what it tests.
  round-IsServed :
      (below halted ready : Bool) (verified : Option Bytes) (cursor : ℕ) (written : Bool)
      (run : Serving) (bytes : Bytes)
      → slice.begin ≤ cursor
      → cursor ≤ slice.end
      → (below ≡ false → slice.end ≤ cursor)
      → Grown piece slice.begin cursor bytes
      → (verified ≡ none) ⊎ (verified ≡ some piece)
      → (ready ≡ true → IsServed piece slice run)
      → IsServed piece slice (elim below [
        | false ↦ record { bytes = bytes; result = some true }
        | true ↦ elim halted [
          | true ↦ stopped bytes
          | false ↦ elim verified [
            | some data_bytes ↦ serve_verified slice cursor data_bytes written bytes
            | none ↦ elim ready [ false ↦ stopped bytes | true ↦ run ]
          ]
        ]
      ])
  round-IsServed false halted ready verified cursor written run bytes b c over g v r =
      full-IsServed cursor bytes (some true) (λ e. omega (arith, over refl)) g
  round-IsServed true true ready verified cursor written run bytes b c over g v r =
      stopped-IsServed piece bytes slice
  round-IsServed true false true none cursor written run bytes b c over g v r = r refl
  round-IsServed true false false none cursor written run bytes b c over g v r =
      stopped-IsServed piece bytes slice
  round-IsServed true false ready (some data_bytes) cursor written run bytes b c over g v r =
      let same : data_bytes ≡ piece = ground arith in
      rw same (verified-IsServed cursor written bytes b c g)

  serve_loop-IsServed :
      (wakes : List Wake) (readable : Bool) (cursor : ℕ) (bytes : Bytes)
      → slice.begin ≤ cursor
      → cursor ≤ slice.end
      → Grown piece slice.begin cursor bytes
      → Delivers piece slice wakes cursor
      → IsServed piece slice (serve_loop slice wakes readable cursor bytes)
  unfolding serve_loop
  serve_loop-IsServed [] readable cursor bytes b c g d =
      full-IsServed cursor bytes (if ltb cursor slice.end then none else some true)
        (λ e. ground arith) g
  serve_loop-IsServed (wake ∷ wakes) readable cursor bytes b c g d =
      let run_end = finished_run_end wake.finished_blocks cursor slice.end in
      round-IsServed (ltb cursor slice.end) wake.halted (readable && ltb cursor run_end)
        wake.verified cursor wake.written
        (elim wake.read [
          | none ↦ serve_loop slice wakes false cursor bytes
          | some buffer ↦ elim wake.written [
            | false ↦ stopped bytes
            | true ↦ serve_loop slice wakes readable run_end (bytes ++ buffer)
          ]
        ])
        bytes b c (λ e. ground arith) g d.0
        (λ ready.
          run-IsServed wakes wake.read wake.written
            (λ buffer. serve_loop slice wakes readable run_end (bytes ++ buffer))
            (serve_loop slice wakes false cursor bytes) bytes
            (serve_loop-IsServed wakes false cursor bytes b c g d.2)
            (λ buffer e.
              let more : cursor < run_end = ground arith in
              serve_loop-IsServed wakes readable run_end (bytes ++ buffer) (omega (arith, more))
                (run_end_bounds slice wake.finished_blocks cursor)
                (ap (λ (x : Bytes). bytes ++ x) (d.1 buffer e)
                  ∙ Grown-append piece bytes slice.begin cursor run_end b (omega (arith, more)) g)
                d.3))

-- A slice is served whole. The verified data is the piece, and what is read from the file are the
-- bytes of the finished blocks: then, where `serve_piece` returns true, the writer took exactly the bytes of the
-- slice in their order, whether they came from the verified piece or from finished blocks of the
-- file, and also if the reading of the file fails on the way.
pub serve_piece-IsServed :
    (piece : Bytes) (slice : PieceSlice) (wakes : List Wake) (opened : Bool)
    → slice.begin ≤ slice.end
    → Delivers piece slice wakes slice.begin
    → IsServed piece slice (serve_piece slice wakes opened)
unfolding serve_piece
serve_piece-IsServed piece slice wakes opened ordered d =
    let nothing : slice.begin - slice.begin ≡ 0 = omega arith in
    serve_loop-IsServed piece slice wakes opened slice.begin [] (omega arith) ordered
      (rw nothing refl) d
