-- ===== src/Http/Server/Send.antt =====
-- `send_all`: the loop that sends a text in as many calls as it takes.
use nuvio_engine.Common.{
  ℕ, suc, ◌+◌, ◌-◌, ◌≤◌, ◌<◌, ◌≡◌, subst, Bool, true, false, List, [], ◌∷◌, Option, none, some,
  Bytes, length, arith, ltb, ◌==◌, if◌then◌else◌, min,
}

-- One round of the loop: the token asks to stop before it, or `send` is called and is interrupted,
-- fails, or takes a number of bytes.
pub data SendCall : Type 0 where
  stop_requested interrupted failed : SendCall
  written : ℕ → SendCall

-- Where the loop ends and what it returns; `none` while the last call has not returned.
pub record Sending : Type 0 where
  pub offset : ℕ
  pub result : Option Bool

abbrev pub sent : ℕ → Bool → Sending
sent offset result = record { offset = offset; result = some result }

-- The loop from `offset` on, over a text of `size` bytes.
unfoldable pub send_loop : List SendCall → ℕ → ℕ → Sending
send_loop [] offset size =
    if ltb offset size
    then record { offset = offset; result = none }
    else sent offset (offset == size)
send_loop (call ∷ calls) offset size = elim (ltb offset size) [
  | false ↦ sent offset (offset == size)
  | true ↦ elim call [
    | stop_requested ↦ sent offset false
    | interrupted ↦ send_loop calls offset size
    | failed ↦ sent offset false
    | written count ↦ elim (count == 0) [
      | true ↦ sent offset false
      | false ↦ send_loop calls (offset + count) size
    ]
  ]
]

unfoldable pub send_all : List SendCall → Bytes → Sending
unfolding send_loop
send_all calls contents = send_loop calls 0 (length contents)

-- The documented behaviour of `send`: from `offset` on it takes no more than it is given, which is
-- the rest of the text or the largest `int` if that is less. Behind the end nothing is called.
abbrev pub Documented : List SendCall → ℕ → ℕ → Type 0
Documented [] offset size = Unit
Documented (stop_requested ∷ calls) offset size = Unit
Documented (interrupted ∷ calls) offset size = Documented calls offset size
Documented (failed ∷ calls) offset size = Unit
Documented (written count ∷ calls) offset size =
    (offset < size → count ≤ min (size - offset) 0x7fffffff)
    × Documented calls (offset + count) size

-- The rounds that make progress.
abbrev pub progress : List SendCall → ℕ
progress [] = 0
progress (written count ∷ calls) = suc (progress calls)
progress (interrupted ∷ calls) = progress calls
progress (stop_requested ∷ calls) = 0
progress (failed ∷ calls) = 0

-- What the loop's end says: success means that the whole text is sent, and failure that it is not.
abbrev pub Reports : Sending → ℕ → Type 0
Reports s size = elim s.result [
  | none ↦ s.offset < size
  | some true ↦ s.offset ≡ size
  | some false ↦ s.offset < size
]

send_loop-Reports :
    (calls : List SendCall) (offset size : ℕ)
    → offset ≤ size
    → Documented calls offset size
    → Reports (send_loop calls offset size) size
unfolding send_loop
send_loop-Reports [] offset size le d = ground arith
send_loop-Reports (stop_requested ∷ calls) offset size le d = ground arith
send_loop-Reports (interrupted ∷ calls) offset size le d =
    ground (arith, send_loop-Reports calls offset size)
send_loop-Reports (failed ∷ calls) offset size le d = ground arith
send_loop-Reports (written count ∷ calls) offset size le d =
    ground (arith, send_loop-Reports calls (offset + count) size)

-- `send_all` reports success exactly if the whole text is on the wire: where `send` takes no more
-- than it is given, it ends with `true` behind the last byte and with `false` in front of it.
pub send_all-Reports :
    (calls : List SendCall) (contents : Bytes)
    → Documented calls 0 (length contents)
    → Reports (send_all calls contents) (length contents)
unfolding send_all
send_all-Reports calls contents d = send_loop-Reports calls 0 (length contents) (omega arith) d

pub send_all_whole :
    (calls : List SendCall) (contents : Bytes)
    → Documented calls 0 (length contents)
    → (send_all calls contents).result ≡ some true
    → (send_all calls contents).offset ≡ length contents
send_all_whole calls contents d e =
    subst
      (λ result. elim result as (λ c. Type 0) [
        | none ↦ (send_all calls contents).offset < length contents
        | some true ↦ (send_all calls contents).offset ≡ length contents
        | some false ↦ (send_all calls contents).offset < length contents
      ])
      e (send_all-Reports calls contents d)

-- Every call is interrupted or takes at least a byte.
abbrev pub Advances : List SendCall → Type 0
Advances [] = Unit
Advances (stop_requested ∷ calls) = ⊥
Advances (interrupted ∷ calls) = Advances calls
Advances (failed ∷ calls) = ⊥
Advances (written count ∷ calls) = (0 < count) × Advances calls

send_loop_finishes :
    (calls : List SendCall) (offset size : ℕ)
    → offset ≤ size
    → Documented calls offset size
    → Advances calls
    → size ≤ offset + progress calls
    → send_loop calls offset size ≡ sent size true
unfolding send_loop
send_loop_finishes [] offset size le d a enough =
    let done : offset ≡ size = omega arith in ground (arith, done)
send_loop_finishes (stop_requested ∷ calls) offset size le d a enough = absurd a
send_loop_finishes (interrupted ∷ calls) offset size le d a enough =
    ground (arith, send_loop_finishes calls offset size)
send_loop_finishes (failed ∷ calls) offset size le d a enough = absurd a
send_loop_finishes (written count ∷ calls) offset size le d a enough =
    ground (arith, send_loop_finishes calls (offset + count) size)

-- The loop ends: where `send` takes no more than it is given, no call fails and nobody asks to stop,
-- as many calls that take a byte or more as the text has bytes are enough for `send_all` to return
-- `true`, with the whole text sent.
pub send_all-terminates :
    (calls : List SendCall) (contents : Bytes)
    → Documented calls 0 (length contents)
    → Advances calls
    → length contents ≤ progress calls
    → send_all calls contents ≡ sent (length contents) true
unfolding send_all
send_all-terminates calls contents d a enough =
    send_loop_finishes calls 0 (length contents) (omega arith) d a (omega arith)
