-- ===== src/Storage/WriteLoop.antt =====
-- `write_all` of src/storage/atomic_file.cpp, as it is built for POSIX systems: the loop over the
-- results of the calls of `write`.
use nuvio_engine.Common.{
  ℕ, zero, suc, ◌+◌, ◌-◌, ◌≤◌, ◌≡◌, refl, true, false, List, [], ◌∷◌, Bytes, length, take, arith,
  ltb, ◌==◌, if◌then◌else◌,
}
use nuvio_engine.Std.Results.{Exception, runtime_error, system_error}

-- How a routine ends; `blocked` while its last system call has not returned, for ever if the
-- process ends there.
pub data Outcome : Type 0 where
  finished blocked : Outcome
  raised : Exception → Outcome

-- The result of a call: interrupted, an error number, or the bytes taken.
pub data WriteCall : Type 0 where
  interrupted : WriteCall
  failed : ℕ → WriteCall
  written : ℕ → WriteCall

-- The bytes that the file has got, and how the loop ends.
pub record Writing : Type 0 where
  pub offset : ℕ
  pub outcome : Outcome

abbrev pub wrote : ℕ → Outcome → Writing
wrote offset outcome = record { offset = offset; outcome = outcome }

unfoldable pub write_loop : List WriteCall → ℕ → ℕ → Writing
write_loop [] offset size = wrote offset (if ltb offset size then blocked else finished)
write_loop (call ∷ calls) offset size = elim (ltb offset size) [
  | false ↦ wrote offset finished
  | true ↦ elim call [
    | interrupted ↦ write_loop calls offset size
    | failed error ↦ wrote offset (raised (system_error error))
    | written count ↦ elim (count == 0) [
      | true ↦ wrote offset (raised runtime_error)
      | false ↦ write_loop calls (offset + count) size
    ]
  ]
]

unfoldable pub write_all : List WriteCall → Bytes → Writing
unfolding write_loop
write_all calls contents = write_loop calls 0 (length contents)

-- The documented behaviour of `write`: it takes no more than it is given.
abbrev pub Documented : List WriteCall → ℕ → ℕ → Type 0
Documented [] offset size = Unit
Documented (interrupted ∷ calls) offset size = Documented calls offset size
Documented (failed error ∷ calls) offset size = Unit
Documented (written count ∷ calls) offset size =
    (count ≤ size - offset) × Documented calls (offset + count) size

write_loop-finished :
    (calls : List WriteCall) (offset size : ℕ)
    → offset ≤ size
    → Documented calls offset size
    → (write_loop calls offset size).outcome ≡ finished
    → (write_loop calls offset size).offset ≡ size
unfolding write_loop
write_loop-finished [] offset size le d h = ground arith
write_loop-finished (interrupted ∷ calls) offset size le d h =
    ground (arith, write_loop-finished calls offset size)
write_loop-finished (failed error ∷ calls) offset size le d h = ground arith
write_loop-finished (written count ∷ calls) offset size le d h =
    ground (arith, write_loop-finished calls (offset + count) size)

take-all : (xs : Bytes) (n : ℕ) → n ≡ length xs → take n xs ≡ xs
take-all [] zero e = refl
take-all [] (suc n) e = absurd (omega arith)
take-all (x ∷ xs) zero e = absurd (omega arith)
take-all (x ∷ xs) (suc n) e = ap_cons x (take-all xs n (omega arith))
  where
    ap_cons : (y : ℕ) {ys zs : Bytes} → ys ≡ zs → y ∷ ys ≡ y ∷ zs
    ap_cons y p = cc p

-- Where the loop ends without an exception, the file has the whole contents.
pub write_all-finished :
    (calls : List WriteCall) (contents : Bytes)
    → Documented calls 0 (length contents)
    → (write_all calls contents).outcome ≡ finished
    → take (write_all calls contents).offset contents ≡ contents
unfolding write_all
write_all-finished calls contents d h =
    take-all contents (write_all calls contents).offset
      (write_loop-finished calls 0 (length contents) (omega arith) d h)
