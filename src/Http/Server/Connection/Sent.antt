-- ===== src/Http/Server/Connection/Sent.antt =====
-- `handle_connection` of src/http/loopback_server.cpp: the bytes that are sent of the texts.
use nuvio_engine.Common.{
  ℕ, zero, suc, ◌≡◌, refl, sym, ap, ◌∙◌, length, length-take, min, take, drop, ◌⊎◌, inl, inr, true,
  false, List, [], ◌∷◌, ◌++◌, some, Bytes, arith, Bool-cases,
}
use mathlib.Core.List.{append_assoc}
use nuvio_engine.Text.{is_empty}
use nuvio_engine.Http.Server.Send.{SendCall, Documented, send_all, send_all_whole}
use nuvio_engine.Http.Server.Connection.{Write, wrote_response, transmit, sends}

-- The texts as one.
abbrev pub flat : List Bytes → Bytes
flat [] = []
flat (bytes ∷ rest) = bytes ++ flat rest

pub flat-append : (xs ys : List Bytes) → flat (xs ++ ys) ≡ flat xs ++ flat ys
flat-append [] ys = refl
flat-append (x ∷ xs) ys = rw (flat-append xs ys) (sym (append_assoc x (flat xs) (flat ys)))

-- Bytes that are sent of a text: the front of it that `send_all` comes through, and all of it if `send_all` succeeds and `send` behaves
-- as documented.
pub record IsSent (calls : List SendCall) (text front : Bytes) : Type 0 where
  pub rest : Bytes
  pub split : front ++ rest ≡ text
  pub reached : length front ≡ min (send_all calls text).offset (length text)
  pub whole :
      Documented calls 0 (length text) → (send_all calls text).result ≡ some true → front ≡ text

split_take : (n : ℕ) (xs : Bytes) → take n xs ++ drop n xs ≡ xs
split_take zero [] = refl
split_take (suc n) [] = refl
split_take zero (x ∷ xs) = refl
split_take (suc n) (x ∷ xs) = ap (λ (ys : Bytes). x ∷ ys) (split_take n xs)

take_whole : (xs : Bytes) → take (length xs) xs ≡ xs
take_whole [] = refl
take_whole (x ∷ xs) = ground (arith, take_whole xs)

pub transmit-IsSent :
    (calls : List SendCall) (text : Bytes) → IsSent calls text (transmit calls text)
unfolding transmit send_all
transmit-IsSent calls text = record {
  rest = drop (send_all calls text).offset text;
  split = split_take (send_all calls text).offset text;
  reached = length-take (send_all calls text).offset text;
  whole = λ h e. ap (λ n. take n text) (send_all_whole calls text h e) ∙ take_whole text;
}

-- The texts of the writer on an open connection, in turn, each as far as it was sent.
abbrev pub AreSent : List Write → List Bytes → Type 0
AreSent [] texts = texts ≡ []
AreSent (w ∷ writes) texts =
    ((w.connected ≡ false) × AreSent writes texts)
    ⊎ ((front : Bytes) × (rest : List Bytes) × (w.connected ≡ true)
        × (texts ≡ front ∷ rest)
        × IsSent w.calls w.bytes front
        × AreSent writes rest)

pub sends-AreSent : (writes : List Write) → AreSent writes (sends writes)
unfolding sends
sends-AreSent [] = refl
sends-AreSent (w ∷ writes) = elim (Bool-cases w.connected) [
  | inl open_socket ↦ inr (
    transmit w.calls w.bytes,
    sends writes,
    open_socket,
    rw open_socket refl,
    transmit-IsSent w.calls w.bytes,
    sends-AreSent writes,
  )
  | inr closed ↦ inl (closed, rw closed (sends-AreSent writes))
]

-- No text of the writer has a byte.
abbrev pub AreEmpty : List Write → Type 0
AreEmpty [] = Unit
AreEmpty (w ∷ writes) = (w.bytes ≡ []) × AreEmpty writes

empty_text : (bytes : Bytes) → is_empty bytes ≡ true → bytes ≡ []
unfolding is_empty
empty_text [] h = refl
empty_text (x ∷ xs) h = cc

pub silent-AreEmpty : (writes : List Write) → wrote_response writes ≡ false → AreEmpty writes
unfolding wrote_response
silent-AreEmpty [] h = tt
silent-AreEmpty (w ∷ writes) h =
    (empty_text w.bytes (ground (arith, h)), silent-AreEmpty writes (ground (arith, h)))

take_nothing : (n : ℕ) → take {A = ℕ} n [] ≡ []
take_nothing zero = refl
take_nothing (suc n) = refl

transmit_nothing : (calls : List SendCall) → transmit calls [] ≡ []
unfolding transmit
transmit_nothing calls = take_nothing (send_all calls []).offset

pub flat-sends : (writes : List Write) → AreEmpty writes → flat (sends writes) ≡ []
unfolding sends
flat-sends [] h = refl
flat-sends (w ∷ writes) h = elim (Bool-cases w.connected) [
  | inl connected ↦ rw (connected, h.0, transmit_nothing w.calls) (flat-sends writes h.1)
  | inr closed ↦ rw closed (flat-sends writes h.1)
]

pub nothing_wrote : (writes : List Write) → AreEmpty writes → wrote_response writes ≡ false
unfolding wrote_response is_empty
nothing_wrote [] h = refl
nothing_wrote (w ∷ writes) h = rw (h.0) (nothing_wrote writes h.1)
