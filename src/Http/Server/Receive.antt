-- ===== src/Http/Server/Receive.antt =====
-- `receive_request_head`: the loop that reads until the empty line.
use nuvio_engine.Common.{
  ℕ, zero, suc, ◌+◌, ◌-◌, ◌≤◌, ◌≡◌, refl, Bool, true, false, List, [], ◌∷◌, ◌++◌, Option, none,
  some, Bytes, bytes_eq, length, take, drop, arith, ltb, leb, if◌then◌else◌, length-take,
}
use mathlib.Core.Option as O
use nuvio_engine.Text.{starts_with, ends_with}

-- One round of the loop: the token asks to stop before it, or `recv` is called and is interrupted,
-- fails, finds the connection closed, or gives bytes.
pub data RecvCall : Type 0 where
  stop_requested interrupted failed closed : RecvCall
  received : Bytes → RecvCall

-- What the loop returns: a head or none, with the flag `exceeded_limit`; `waiting` while the last
-- call has not returned.
pub data Receiving : Type 0 where
  waiting : Receiving
  returned : Option Bytes → Bool → Receiving

-- "\r\n\r\n".
abbrev pub head_end : Bytes
head_end = 13 ∷ 10 ∷ 13 ∷ 10 ∷ []

abbrev pub maximum_request_head_size : ℕ
maximum_request_head_size = 16384

-- `find(text)`: the position of the first occurrence.
unfoldable pub find_text : Bytes → Bytes → Option ℕ
unfolding starts_with
find_text text [] = if starts_with text [] then some 0 else none
find_text text (c ∷ cs) =
    if starts_with text (c ∷ cs) then some 0 else O.map suc (find_text text cs)

-- After a chunk: the loop ends with what it returns here, or goes on where that is `none`.
unfoldable pub inspect : Option ℕ → Bytes → Option Receiving
inspect (some end) text =
    if ltb maximum_request_head_size (end + 4)
    then some (returned none true)
    else some (returned (some (take (end + 4) text)) false)
inspect none text =
    if leb maximum_request_head_size (length text) then some (returned none true) else none

unfoldable pub receive_loop : List RecvCall → Bytes → Receiving
unfolding find_text inspect
receive_loop [] text = waiting
receive_loop (stop_requested ∷ calls) text = returned none false
receive_loop (interrupted ∷ calls) text = receive_loop calls text
receive_loop (failed ∷ calls) text = returned none false
receive_loop (closed ∷ calls) text = returned none false
receive_loop (received chunk ∷ calls) text =
    elim (inspect (find_text head_end (text ++ chunk)) (text ++ chunk)) [
      | some result ↦ result
      | none ↦ receive_loop calls (text ++ chunk)
    ]

unfoldable pub receive_request_head : List RecvCall → Receiving
unfolding receive_loop
receive_request_head calls = receive_loop calls []

-- A text within the limit that ends with an empty line.
pub record IsHead (head : Bytes) : Type 0 where
  pub within : length head ≤ maximum_request_head_size
  pub ended : ends_with head_end head ≡ true

-- Where a head is returned it is one, and the limit is not exceeded.
unfoldable pub IsReceived : Receiving → Type 0
IsReceived waiting = Unit
IsReceived (returned none exceeded) = Unit
IsReceived (returned (some head) exceeded) = IsHead head × (exceeded ≡ false)

starts_with_lem :
    (cs : Bytes) → starts_with head_end cs ≡ true → (take 4 cs ≡ head_end) × (4 ≤ length cs)
unfolding starts_with
starts_with_lem [] h = cc
starts_with_lem (a ∷ []) h = ground arith
starts_with_lem (a ∷ b ∷ []) h = ground arith
starts_with_lem (a ∷ b ∷ c ∷ []) h = ground arith
starts_with_lem (a ∷ b ∷ c ∷ d ∷ cs) h = ground arith

-- What `find` says: the text stands at the position.
find_text_lem :
    (cs : Bytes) (end size : ℕ)
    → size ≡ end + 4
    → find_text head_end cs ≡ some end
    → (drop end (take size cs) ≡ head_end) × (size ≤ length cs)
unfolding find_text
find_text_lem [] end size e h = cc
find_text_lem (c ∷ cs) zero size e h = ground (arith, starts_with_lem (c ∷ cs))
find_text_lem (c ∷ cs) (suc end) zero e h = absurd (omega arith)
find_text_lem (c ∷ cs) (suc end) (suc size) e h = ground (arith, find_text_lem cs end size)

ends_with_lem :
    (cs : Bytes) (end : ℕ)
    → length cs ≡ end + 4
    → drop end cs ≡ head_end
    → ends_with head_end cs ≡ true
unfolding ends_with bytes_eq
ends_with_lem cs end size at_end =
    let long : ltb (length cs) 4 ≡ false = ground arith in
    let position : length cs - 4 ≡ end = omega arith in rw (long, position, at_end) refl

cut-IsHead :
    (text : Bytes) (end : ℕ)
    → find_text head_end text ≡ some end
    → end + 4 ≤ maximum_request_head_size
    → IsHead (take (end + 4) text)
cut-IsHead text end found small =
    let (at_end, inside) = find_text_lem text end (end + 4) refl found in
    let size : length (take (end + 4) text) ≡ end + 4 = omega (arith, length-take (end + 4) text) in
    record { within = omega arith; ended = ends_with_lem (take (end + 4) text) end size at_end }

IsSettled : Option Receiving → Type 0
IsSettled none = Unit
IsSettled (some result) = IsReceived result

inspect-IsSettled :
    (found : Option ℕ) (text : Bytes)
    → find_text head_end text ≡ found
    → IsSettled (inspect found text)
unfolding inspect IsReceived IsSettled
inspect-IsSettled none text h = ground arith
inspect-IsSettled (some end) text h = ground (arith, cut-IsHead text end h)

settled-IsReceived :
    (settled : Option Receiving) (rest : Receiving)
    → IsSettled settled
    → IsReceived rest
    → IsReceived (elim settled [ some result ↦ result | none ↦ rest ])
unfolding IsSettled
settled-IsReceived none rest h r = r
settled-IsReceived (some result) rest h r = h

receive_loop-IsReceived :
    (calls : List RecvCall) (text : Bytes) → IsReceived (receive_loop calls text)
unfolding receive_loop IsReceived
receive_loop-IsReceived [] text = tt
receive_loop-IsReceived (stop_requested ∷ calls) text = tt
receive_loop-IsReceived (interrupted ∷ calls) text = receive_loop-IsReceived calls text
receive_loop-IsReceived (failed ∷ calls) text = tt
receive_loop-IsReceived (closed ∷ calls) text = tt
receive_loop-IsReceived (received chunk ∷ calls) text =
    settled-IsReceived (inspect (find_text head_end (text ++ chunk)) (text ++ chunk))
      (receive_loop calls (text ++ chunk))
      (inspect-IsSettled (find_text head_end (text ++ chunk)) (text ++ chunk) refl)
      (receive_loop-IsReceived calls (text ++ chunk))

-- What `receive_request_head` returns as a head is within the limit and ends with an empty line,
-- whatever chunks it came in; and then the flag for an exceeded limit is not set.
pub receive_request_head-IsReceived :
    (calls : List RecvCall) → IsReceived (receive_request_head calls)
unfolding receive_request_head
receive_request_head-IsReceived calls = receive_loop-IsReceived calls []
