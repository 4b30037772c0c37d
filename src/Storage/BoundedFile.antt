-- ===== src/Storage/BoundedFile.antt =====
-- src/storage/atomic_file.cpp: `read_bounded_file`. What the file system says of the path is given.
use nuvio_engine.Common.{
  ℕ, zero, suc, ◌≤◌, ◌≡◌, ◌≢◌, refl, Bool, ◌&&◌, [], ◌∷◌, Option, none, some, Bytes, length, take,
  arith, ltb, ◌==◌, if◌then◌else◌, not, length-take,
}
use nuvio_engine.Std.Results.{Result, ok, throws, runtime_error, system_error}

-- What a path names; `unknown` with the error of `symlink_status`.
pub data FileStatus : Type 0 where
  not_found regular other : FileStatus
  unknown : ℕ → FileStatus

-- The path's status, the result of `file_size` (a number, or an error), whether the stream opens,
-- and the bytes that it has, which another process may have changed since.
pub record FileView : Type 0 where
  pub status : FileStatus
  pub size : Result ℕ
  pub opens : Bool
  pub bytes : Bytes

-- Reading `size` bytes, and then the end of the file.
unfoldable pub read_contents : ℕ → Bytes → Result (Option Bytes)
read_contents size bytes =
    if not (size == 0) && ltb (length bytes) size
    then throws runtime_error
    else if ltb size (length bytes)
    then throws runtime_error
    else ok (some (take size bytes))

unfoldable pub read_sized : FileView → ℕ → ℕ → Result (Option Bytes)
unfolding read_contents
read_sized file maximum_size size =
    if ltb maximum_size size
    then throws runtime_error
    else if ltb 0x7fffffffffffffff size
    then throws runtime_error
    else if file.opens
    then read_contents size file.bytes
    else throws runtime_error

unfoldable pub read_regular : FileView → ℕ → Result ℕ → Result (Option Bytes)
unfolding read_sized
read_regular file maximum_size (throws e) = throws e
read_regular file maximum_size (ok size) = read_sized file maximum_size size

unfoldable pub read_bounded_file : FileView → ℕ → Result (Option Bytes)
unfolding read_regular
read_bounded_file file maximum_size = elim file.status [
  | not_found ↦ ok none
  | unknown error ↦ throws (system_error error)
  | other ↦ throws runtime_error
  | regular ↦ read_regular file maximum_size file.size
]

-- The contents that are returned are all the bytes of the file, within the limit; no contents are
-- returned exactly for a path that names nothing.
unfoldable pub IsRead : FileView → ℕ → Result (Option Bytes) → Type 0
IsRead file maximum_size (throws e) = file.status ≢ not_found
IsRead file maximum_size (ok none) = file.status ≡ not_found
IsRead file maximum_size (ok (some contents)) =
    (file.status ≡ regular) × (contents ≡ file.bytes) × (length contents ≤ maximum_size)

take-all : (xs : Bytes) (n : ℕ) → length xs ≡ n → take n xs ≡ xs
take-all [] zero e = refl
take-all [] (suc n) e = absurd (omega arith)
take-all (x ∷ xs) zero e = absurd (omega arith)
take-all (x ∷ xs) (suc n) e = ground (arith, take-all xs n)

read_contents-IsRead :
    (file : FileView) (maximum_size size : ℕ)
    → file.status ≡ regular
    → size ≤ maximum_size
    → IsRead file maximum_size (read_contents size file.bytes)
unfolding read_contents IsRead
read_contents-IsRead file maximum_size size e le =
    ground (arith, take-all file.bytes size, length-take size file.bytes)

read_regular-IsRead :
    (file : FileView) (maximum_size : ℕ) (size : Result ℕ)
    → file.status ≡ regular
    → IsRead file maximum_size (read_regular file maximum_size size)
unfolding read_regular IsRead
read_regular-IsRead file maximum_size (throws e) h = ground arith
read_regular-IsRead file maximum_size (ok size) h =
    ground (arith, read_contents-IsRead file maximum_size size h)

status-IsRead :
    (file : FileView) (maximum_size : ℕ) (status : FileStatus)
    → file.status ≡ status
    → IsRead file maximum_size (elim status [
      | not_found ↦ ok none
      | unknown error ↦ throws (system_error error)
      | other ↦ throws runtime_error
      | regular ↦ read_regular file maximum_size file.size
    ])
unfolding IsRead
status-IsRead file maximum_size not_found e = e
status-IsRead file maximum_size regular e = read_regular-IsRead file maximum_size file.size e
status-IsRead file maximum_size other e = ground arith
status-IsRead file maximum_size (unknown error) e = ground arith

-- A read returns the whole file within the limit, or nothing where the path names nothing, or it
-- throws: it never returns a part of a file that has changed its size.
pub read_bounded_file-IsRead :
    (file : FileView) (maximum_size : ℕ)
    → IsRead file maximum_size (read_bounded_file file maximum_size)
unfolding read_bounded_file
read_bounded_file-IsRead file maximum_size = status-IsRead file maximum_size file.status refl
