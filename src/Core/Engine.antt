-- ===== src/Core/Engine.antt =====
-- src/core/engine.cpp: the C interface of include/nuvio_engine/nuvio_engine.h. A pointer that may
-- be null is optional; a text is the bytes that the pointer leads to, with a zero behind them. No
-- call runs out of memory.
pub mod Ids
pub mod Create
pub mod Requests
pub mod Calls
pub mod Compatibility
pub mod Arguments
pub mod Refusals
use nuvio_engine.Common.{
  ℕ, zero, suc, ◌+◌, ◌-◌, ◌*◌, ◌/◌, true, false, ◌&&◌, not, List, [], ◌∷◌, Option, none, some,
  Bytes, length, take, leb, ◌==◌, if◌then◌else◌,
}
use nuvio_engine.Text.{to_lower, is_xdigit}
use mathlib.Core.Option as O

-- The loop of `bounded_string_length`, at so many bytes.
unfoldable pub count_text : Bytes → ℕ → ℕ → ℕ
count_text [] maximum length = length
count_text (c ∷ cs) maximum length = elim (leb length maximum && not (c == 0)) [
  | true ↦ count_text cs maximum (length + 1)
  | false ↦ length
]

unfoldable pub bounded_string_length : Bytes → ℕ → ℕ
unfolding count_text
bounded_string_length text maximum = count_text text maximum 0

-- The loop over the characters of an id.
unfoldable pub normalize_digits : Bytes → Option Bytes
unfolding is_xdigit to_lower
normalize_digits [] = some []
normalize_digits (c ∷ cs) =
    if is_xdigit c then O.map (λ (rest : Bytes). to_lower c ∷ rest) (normalize_digits cs) else none

unfoldable pub normalize_torrent_id : Option Bytes → Option Bytes
unfolding bounded_string_length normalize_digits
normalize_torrent_id none = none
normalize_torrent_id (some torrent_id) =
    let length = bounded_string_length torrent_id 64 in
    if not (length == 40) && not (length == 64)
    then none
    else normalize_digits (take length torrent_id)

unfoldable pub normalize_stream_id : Option Bytes → Option Bytes
unfolding bounded_string_length normalize_digits
normalize_stream_id none = none
normalize_stream_id (some stream_id) =
    let length = bounded_string_length stream_id 64 in
    if not (length == 64) then none else normalize_digits (take length stream_id)

-- A field: its alignment and its size, on a 64-bit system.
abbrev pub Field : Type 0
Field = ℕ × ℕ

abbrev pub short : Field
short = (2, 2)

abbrev pub word : Field
word = (4, 4)

abbrev pub long : Field
long = (8, 8)

-- An array of characters.
abbrev pub text : ℕ → Field
text size = (1, size)

-- So many fields of one kind in front of others.
unfoldable pub several : ℕ → Field → List Field → List Field
several zero field rest = rest
several (suc n) field rest = field ∷ several n field rest

unfoldable pub aligned : ℕ → ℕ → ℕ
aligned alignment offset = (offset + (alignment - 1)) / alignment * alignment

-- The offset behind the last field: each stands at the next multiple of its alignment.
unfoldable pub end_of : List Field → ℕ → ℕ
unfolding aligned
end_of [] offset = offset
end_of ((alignment, size) ∷ rest) offset = end_of rest (aligned alignment offset + size)

unfoldable pub config_v1_size : ℕ
unfolding end_of several
config_v1_size = end_of (word ∷ several 4 long (short ∷ short ∷ word ∷ long ∷ [])) 0

unfoldable pub config_v2_size : ℕ
unfolding end_of config_v1_size
config_v2_size = end_of (word ∷ word ∷ []) config_v1_size

unfoldable pub config_v3_size : ℕ
unfolding end_of config_v2_size
config_v3_size = end_of (word ∷ word ∷ []) config_v2_size

unfoldable pub config_v4_size : ℕ
unfolding end_of config_v3_size
config_v4_size = end_of (long ∷ []) config_v3_size

unfoldable pub config_v5_size : ℕ
unfolding end_of config_v4_size
config_v5_size = end_of (word ∷ word ∷ []) config_v4_size

unfoldable pub torrent_request_v1_size : ℕ
unfolding end_of
torrent_request_v1_size = end_of (word ∷ long ∷ []) 0

unfoldable pub torrent_request_v2_size : ℕ
unfolding end_of torrent_request_v1_size
torrent_request_v2_size = end_of (word ∷ word ∷ long ∷ long ∷ []) torrent_request_v1_size

unfoldable pub stream_request_v1_size : ℕ
unfolding end_of
stream_request_v1_size = end_of (word ∷ long ∷ word ∷ word ∷ long ∷ []) 0

unfoldable pub event_v1_size : ℕ
unfolding end_of several
event_v1_size = end_of (word ∷ word ∷ several 3 long (text 65 ∷ text 256 ∷ [])) 0

unfoldable pub file_v1_size : ℕ
unfolding end_of
file_v1_size = end_of (word ∷ word ∷ long ∷ long ∷ text 1 ∷ text 7 ∷ text 1024 ∷ []) 0

unfoldable pub stats_v1_size : ℕ
unfolding end_of several
stats_v1_size = end_of (several 8 word (several 10 long [])) 0

unfoldable pub stream_stats_v1_size : ℕ
unfolding end_of several
stream_stats_v1_size = end_of (word ∷ word ∷ several 4 long []) 0

-- `sizeof` of the records that are copied to the caller.
unfoldable pub event_size : ℕ
unfolding end_of aligned event_v1_size
event_size = aligned 8 (end_of (word ∷ word ∷ long ∷ text 65 ∷ text 512 ∷ []) event_v1_size)

unfoldable pub file_size : ℕ
unfolding aligned file_v1_size
file_size = aligned 8 file_v1_size

unfoldable pub stats_size : ℕ
unfolding end_of aligned several stats_v1_size
stats_size = aligned 8 (
    end_of (word ∷ word ∷ several 5 long (text 1 ∷ text 7 ∷ several 19 word (several 10 long [])))
      stats_v1_size)

unfoldable pub stream_stats_size : ℕ
unfolding end_of aligned several stream_stats_v1_size
stream_stats_size = aligned 8 (end_of (several 6 word (several 5 long [])) stream_stats_v1_size)
