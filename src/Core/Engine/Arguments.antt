-- ===== src/Core/Engine/Arguments.antt =====
-- src/core/engine.cpp: what the checks of the arguments guarantee of what they accept.
use nuvio_engine.Common.{
  ℕ, zero, suc, ap, ◌∷◌, ◌++◌, drop, ◌⊎◌, inl, inr, ◌*◌, ◌<◌, ◌≤◌, ◌≡◌, ◌≢◌, refl, Bool, true,
  false, not, ◌||◌, [], Option, none, some, Bytes, length, length-take, take, arith, ltb, leb, ◌==◌,
  u32_max, if◌then◌else◌, bytes_eq_instance,
}
use nuvio_engine.Core.Runtime.Types.{
  Status, invalid_argument, incompatible_abi, magnet, torrent_data, TorrentInput,
}
use nuvio_engine.Core.Engine.{
  torrent_request_v1_size, torrent_request_v2_size, stream_request_v1_size, bounded_string_length,
  count_text, normalize_torrent_id,
}
use nuvio_engine.Core.Engine.Ids.{IsId, IsNormalized, normalize_torrent_id-IsNormalized, count_le}
use nuvio_engine.Core.Engine.Create.{Checked, refused, accepted, ◌>>=◌, bounded_text}
use nuvio_engine.Core.Engine.Requests.{
  TorrentRequest, StreamRequest, Selection, check_magnet, check_data, source_of, check_input,
  check_id, check_hint, check_stream_request,
}

-- What is accepted has a property, and a refusal is not the status ok.
unfoldable pub AllAccepted : {A : Type 0} → (A → Type 0) → Checked A → Type 0
AllAccepted P (refused status) = status ≢ Status.ok
AllAccepted P (accepted a) = P a

module _ {A C : Type 0} (P : A → Type 0) (Q : C → Type 0) where
  pub AllAccepted-then :
      (x : Checked A) (f : A → Checked C)
      → AllAccepted P x
      → ((a : A) → P a → AllAccepted Q (f a))
      → AllAccepted Q (x >>= f)
  unfolding AllAccepted
  AllAccepted-then (refused status) f h g = h
  AllAccepted-then (accepted a) f h g = g a h

pub AllAccepted-if :
    {A : Type 0} (P : A → Type 0) (b : Bool) (x y : Checked A)
    → (b ≡ true → AllAccepted P x)
    → (b ≡ false → AllAccepted P y)
    → AllAccepted P (if b then x else y)
AllAccepted-if P true x y h g = h refl
AllAccepted-if P false x y h g = g refl

-- A refusal that is not ok.
pub AllAccepted-invalid : {A : Type 0} (P : A → Type 0) → AllAccepted P (refused invalid_argument)
unfolding AllAccepted
AllAccepted-invalid P = λ e. cc

pub AllAccepted-incompatible :
    {A : Type 0} (P : A → Type 0) → AllAccepted P (refused incompatible_abi)
unfolding AllAccepted
AllAccepted-incompatible P = λ e. cc

-- A text that is not empty and not too long, and stands at the front of the memory.
abbrev pub IsText : ℕ → Bytes → Bytes → Type 0
IsText maximum memory text =
    (0 < length text) × (length text ≤ maximum) × ((rest : Bytes) × (text ++ rest ≡ memory))

take-front : (n : ℕ) (xs : Bytes) → take n xs ++ drop n xs ≡ xs
take-front zero [] = refl
take-front (suc n) [] = refl
take-front zero (x ∷ xs) = refl
take-front (suc n) (x ∷ xs) = ap (λ (ys : Bytes). x ∷ ys) (take-front n xs)

module _ (maximum : ℕ) (text : Bytes) where
  pub bounded_text-AllAccepted : AllAccepted (IsText maximum text) (bounded_text maximum text)
  unfolding bounded_text AllAccepted bounded_string_length
  bounded_text-AllAccepted =
      let n = bounded_string_length text maximum in
      AllAccepted-if (IsText maximum text) ((n == 0) || ltb maximum n) (refused invalid_argument)
        (accepted (take n text)) (λ e. AllAccepted-invalid (IsText maximum text))
        (λ e. (
          ground (arith, length-take (count_text text maximum 0) text, count_le text maximum 0),
          ground (arith, length-take (count_text text maximum 0) text, count_le text maximum 0),
          (drop (count_text text maximum 0) text, take-front (count_text text maximum 0) text),
        ))

-- The magnet that the request has.
pub record IsMagnet (uri : Option Bytes) (input : TorrentInput) : Type 0 where
  pub type : input.type ≡ magnet
  pub memory : Bytes
  pub given : uri ≡ some memory
  pub text : IsText (16 * 1024) memory input.magnet_uri
  pub no_data : input.torrent_data ≡ []

-- The bytes that the request has, one or more and no more than 4 MiB.
pub record IsData (data_bytes : Option Bytes) (size : ℕ) (input : TorrentInput) : Type 0 where
  pub type : input.type ≡ torrent_data
  pub memory : Bytes
  pub given : data_bytes ≡ some memory
  pub some_bytes : 0 < size
  pub bounded : size ≤ 4 * 1024 * 1024
  pub bytes : input.torrent_data ≡ take size memory
  pub no_magnet : input.magnet_uri ≡ []

-- The source of the request: a magnet, or in a record of the second version data.
abbrev pub IsSource : TorrentRequest → TorrentInput → Type 0
IsSource request input =
    IsMagnet request.magnet_uri input
    ⊎ ((request.source_type ≡ 1)
        × (torrent_request_v2_size ≤ request.struct_size)
        × IsData request.torrent_data request.torrent_data_size input)

pub check_magnet-AllAccepted : (uri : Option Bytes) → AllAccepted (IsMagnet uri) (check_magnet uri)
unfolding check_magnet AllAccepted
check_magnet-AllAccepted none = λ e. cc
check_magnet-AllAccepted (some uri) =
    AllAccepted-then (IsText (16 * 1024) uri) (IsMagnet (some uri)) (bounded_text (16 * 1024) uri)
      (λ text. accepted (record { type = magnet; magnet_uri = text; torrent_data = [] }))
      (bounded_text-AllAccepted (16 * 1024) uri)
      (λ text h. record { type = refl; memory = uri; given = refl; text = h; no_data = refl })

pub check_data-AllAccepted :
    (has_v2_fields : Bool) (bytes : Option Bytes) (size : ℕ)
    → AllAccepted
        (λ input. (has_v2_fields ≡ true) × IsData bytes size input)
        (check_data has_v2_fields bytes size)
unfolding check_data AllAccepted
check_data-AllAccepted has_v2_fields none size = λ e. cc
check_data-AllAccepted has_v2_fields (some bytes) size =
    let P : TorrentInput → Type 0 =
      λ input. (has_v2_fields ≡ true) × IsData (some bytes) size input in
    AllAccepted-if P (not has_v2_fields || (size == 0) || ltb (4 * 1024 * 1024) size)
      (refused invalid_argument)
      (accepted (record { type = torrent_data; magnet_uri = []; torrent_data = take size bytes }))
      (λ e. AllAccepted-invalid P)
      (λ e. (
        ground arith,
        record {
          type = refl;
          memory = bytes;
          given = refl;
          some_bytes = ground arith;
          bounded = ground arith;
          bytes = refl;
          no_magnet = refl;
        },
      ))

AllAccepted-map :
    {A : Type 0} (P Q : A → Type 0) (x : Checked A)
    → ((a : A) → P a → Q a)
    → AllAccepted P x
    → AllAccepted Q x
unfolding AllAccepted
AllAccepted-map P Q (refused status) f h = h
AllAccepted-map P Q (accepted a) f h = f a h

pub check_input-AllAccepted :
    (request : TorrentRequest) → AllAccepted (IsSource request) (check_input request)
unfolding check_input source_of
check_input-AllAccepted request =
    let P = IsSource request in
    let second = leb torrent_request_v2_size request.struct_size in
    let sized = check_data second request.torrent_data request.torrent_data_size in
    let other = if source_of request == 1 then sized else refused invalid_argument in
    AllAccepted-if P (ltb request.struct_size torrent_request_v1_size) (refused incompatible_abi)
      (if source_of request == 0 then check_magnet request.magnet_uri else other)
      (λ e. AllAccepted-incompatible P)
      (λ e.
        AllAccepted-if P (source_of request == 0) (check_magnet request.magnet_uri) other
          (λ e.
            AllAccepted-map (IsMagnet request.magnet_uri) P (check_magnet request.magnet_uri)
              (λ input h. inl h) (check_magnet-AllAccepted request.magnet_uri))
          (λ e.
            AllAccepted-if P (source_of request == 1) sized (refused invalid_argument)
              (λ one.
                AllAccepted-map
                  (λ input.
                    (second ≡ true) × IsData request.torrent_data request.torrent_data_size input)
                  P sized
                  (λ input h.
                    let has_source : request.source_type ≡ 1 = ground (arith, one, h.0) in
                    let has_fields : torrent_request_v2_size ≤ request.struct_size =
                      ground (arith, h.0) in
                    inr (has_source, has_fields, h.1))
                  (check_data-AllAccepted second request.torrent_data request.torrent_data_size))
              (λ e. AllAccepted-invalid P)))

-- An id that the call normalizes to.
abbrev pub IsIdOf : Option Bytes → Bytes → Type 0
IsIdOf normal id = (normal ≡ some id) × IsId id

pub check_id-AllAccepted :
    (id : Option Bytes) → IsNormalized id → AllAccepted (IsIdOf id) (check_id id)
unfolding check_id AllAccepted IsNormalized
check_id-AllAccepted none h = λ e. cc
check_id-AllAccepted (some id) h = (refl, h)

abbrev pub IsAny : Bytes → Type 0
IsAny text = Unit

pub check_hint-AllAccepted : (hint : Option Bytes) → AllAccepted IsAny (check_hint hint)
unfolding check_hint AllAccepted
check_hint-AllAccepted none = tt
check_hint-AllAccepted (some hint) =
    AllAccepted-if IsAny (ltb (4 * 1024) (bounded_string_length hint (4 * 1024)))
      (refused invalid_argument) (accepted (take (bounded_string_length hint (4 * 1024)) hint))
      (λ e. AllAccepted-invalid IsAny) (λ e. tt)

abbrev pub IsSelection : StreamRequest → Selection → Type 0
IsSelection request s = IsIdOf (normalize_torrent_id request.torrent_id) s.torrent_id

pub check_stream_request-AllAccepted :
    (request : StreamRequest) → AllAccepted (IsSelection request) (check_stream_request request)
unfolding check_stream_request AllAccepted
check_stream_request-AllAccepted request =
    let selection : Bytes → Bytes → Selection = λ id hint. record {
      torrent_id = id;
      requested_index = if request.file_index == u32_max then none else some request.file_index;
      filename_hint = hint;
    } in
    AllAccepted-if (IsSelection request) (ltb request.struct_size stream_request_v1_size)
      (refused incompatible_abi)
      (check_id (normalize_torrent_id request.torrent_id)
        >>= (λ id. check_hint request.filename_hint >>= (λ hint. accepted (selection id hint))))
      (λ e. AllAccepted-incompatible (IsSelection request))
      (λ e.
        AllAccepted-then (IsIdOf (normalize_torrent_id request.torrent_id)) (IsSelection request)
          (check_id (normalize_torrent_id request.torrent_id))
          (λ id. check_hint request.filename_hint >>= (λ hint. accepted (selection id hint)))
          (check_id-AllAccepted (normalize_torrent_id request.torrent_id)
            (normalize_torrent_id-IsNormalized request.torrent_id).0)
          (λ id h.
            AllAccepted-then IsAny (IsSelection request) (check_hint request.filename_hint)
              (λ hint. accepted (selection id hint)) (check_hint-AllAccepted request.filename_hint)
              (λ hint any. h)))
