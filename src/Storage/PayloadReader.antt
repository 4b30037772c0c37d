-- ===== src/Storage/PayloadReader.antt =====
-- src/storage/payload_reader.cpp, as it is built for POSIX systems: reading a range of a file.
use nuvio_engine.Common.{
  take-append-drop, drop-drop, ℕ, ◌+◌, ◌-◌, ◌%◌, ◌≤◌, ◌≡◌, refl, Bool, true, false, List, [], ◌∷◌,
  ◌++◌, Option, none, some, Bytes, length, take, drop, arith, ltb, ◌==◌, if◌then◌else◌, Bool-cases,
  inl, inr, u64_mod, u64_max,
}

-- The result of a call of `open` or `pread`: interrupted, failed, or the descriptor or the count.
pub data Call : Type 0 where
  interrupted failed : Call
  returned : ℕ → Call

-- A reader with its descriptor; `none` for one that is not open.
pub record PayloadReader : Type 0 where
  pub descriptor : Option ℕ

-- The constructor's loop over the calls of `open`; `none` while the last one has not returned.
unfoldable pub open_payload : List Call → Option PayloadReader
open_payload [] = none
open_payload (interrupted ∷ calls) = open_payload calls
open_payload (failed ∷ calls) = some (record { descriptor = none })
open_payload (returned descriptor ∷ calls) = some (record { descriptor = some descriptor })

unfoldable pub is_open : PayloadReader → Bool
is_open reader = elim reader.descriptor [ none ↦ false | some descriptor ↦ true ]

-- The move assignment: the reader that is moved from is left closed, with the descriptor that the
-- other had closed.
unfoldable pub move_from : PayloadReader → PayloadReader → PayloadReader × PayloadReader
move_from reader source = (source, record { descriptor = none })

unfoldable pub close : PayloadReader → PayloadReader
close reader = record { descriptor = none }

-- The bytes that the destination has got, and the result of the loop; `none` while the last call has
-- not returned.
pub record Reading : Type 0 where
  pub destination : Bytes
  pub result : Option Bool

abbrev pub did_read : Bytes → Bool → Reading
did_read destination result = record { destination = destination; result = some result }

-- The largest `off_t`.
abbrev pub off_max : ℕ
off_max = 0x7fffffffffffffff

-- The bytes of a file from a position on.
abbrev pub bytes_at : Bytes → ℕ → ℕ → Bytes
bytes_at file position count = take count (drop position file)

-- The loop from `done` bytes on, which stand in the destination.
unfoldable pub read_loop : List Call → Bytes → ℕ → ℕ → ℕ → Bytes → Reading
read_loop [] file offset size done destination =
    if ltb done size
    then (if ltb off_max ((offset + done) % u64_mod)
        then did_read destination false
        else record { destination = destination; result = none })
    else did_read destination true
read_loop (call ∷ calls) file offset size done destination = elim (ltb done size) [
  | false ↦ did_read destination true
  | true ↦ elim (ltb off_max ((offset + done) % u64_mod)) [
    | true ↦ did_read destination false
    | false ↦ elim call [
      | interrupted ↦ read_loop calls file offset size done destination
      | failed ↦ did_read destination false
      | returned count ↦ elim (count == 0) [
        | true ↦ did_read destination false
        | false ↦
            read_loop calls file offset size (done + count)
              (destination ++ bytes_at file ((offset + done) % u64_mod) count)
      ]
    ]
  ]
]

-- `read_exact` of `size` bytes from `offset` on.
unfoldable pub read_exact : PayloadReader → List Call → Bytes → ℕ → ℕ → Reading
unfolding is_open read_loop
read_exact reader calls file offset size =
    if is_open reader then read_loop calls file offset size 0 [] else did_read [] false

-- The documented behaviour of `pread`: it gives no more bytes than it is asked for, and no more than
-- the file has from the position on.
abbrev pub Documented : List Call → Bytes → ℕ → ℕ → ℕ → Type 0
Documented [] file offset size done = Unit
Documented (interrupted ∷ calls) file offset size done = Documented calls file offset size done
Documented (failed ∷ calls) file offset size done = Unit
Documented (returned count ∷ calls) file offset size done =
    (count ≤ size - done)
    × (offset + done + count ≤ length file)
    × Documented calls file offset size (done + count)

-- What the loop's end says of the destination: on success it has the bytes of the range.
unfoldable pub IsExact : Bytes → ℕ → ℕ → Reading → Type 0
IsExact file offset size r = elim r.result [
  | none ↦ Unit
  | some false ↦ Unit
  | some true ↦ r.destination ≡ bytes_at file offset size
]

grown :
    (file : Bytes) (offset done count : ℕ) (destination : Bytes)
    → offset + done ≤ u64_max
    → destination ≡ bytes_at file offset done
    → destination ++ bytes_at file ((offset + done) % u64_mod) count
      ≡ bytes_at file offset (done + count)
grown file offset done count destination word e =
    let same : (offset + done) % u64_mod ≡ offset + done = omega arith in
    rw (e, same, ← drop-drop file offset done) (take-append-drop (drop offset file) done count)

complete :
    (file : Bytes) (offset size done : ℕ) (destination : Bytes)
    → done ≤ size
    → ltb done size ≡ false
    → destination ≡ bytes_at file offset done
    → destination ≡ bytes_at file offset size
complete file offset size done destination le ended e =
    let same : done ≡ size = ground arith in rw (← same) e

module _ (file : Bytes) (offset size : ℕ) (word : offset + size ≤ u64_max) where
  read_loop-IsExact :
      (calls : List Call) (done : ℕ) (destination : Bytes)
      → Documented calls file offset size done
      → done ≤ size
      → destination ≡ bytes_at file offset done
      → IsExact file offset size (read_loop calls file offset size done destination)
  unfolding read_loop IsExact
  read_loop-IsExact [] done destination d le e =
      ground (arith, complete file offset size done destination)
  read_loop-IsExact (interrupted ∷ calls) done destination d le e =
      ground (
        arith,
        complete file offset size done destination,
        read_loop-IsExact calls done destination,
      )
  read_loop-IsExact (failed ∷ calls) done destination d le e =
      ground (arith, complete file offset size done destination)
  read_loop-IsExact (returned count ∷ calls) done destination d le e =
      let next = destination ++ bytes_at file ((offset + done) % u64_mod) count in
      elim (Bool-cases (ltb done size)) [
        | inl more ↦
            let step =
              read_loop-IsExact calls (done + count) next d.2 (ground arith)
                (grown file offset done count destination (omega arith) e) in
            rw (read_loop, more) (ground (arith, step))
        | inr ended ↦ rw (read_loop, ended) (complete file offset size done destination le ended e)
      ]

-- A read is exact: within 64 bits, and if `pread` gives no more than it is asked for and the file has,
-- where it returns `true` the destination has all the bytes of the file's range, in however many
-- calls they came, and interrupted calls leave no trace.
pub read_exact-IsExact :
    (reader : PayloadReader) (calls : List Call) (file : Bytes) (offset size : ℕ)
    → offset + size ≤ u64_max
    → Documented calls file offset size 0
    → IsExact file offset size (read_exact reader calls file offset size)
unfolding read_exact IsExact
read_exact-IsExact reader calls file offset size word d =
    elim (is_open reader)
      as (λ b.
        IsExact file offset size
          (if b then read_loop calls file offset size 0 [] else did_read [] false)) [
            | true ↦ read_loop-IsExact file offset size word calls 0 [] d (omega arith) refl
            | false ↦ tt
          ]
