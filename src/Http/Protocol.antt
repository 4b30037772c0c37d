-- ===== src/Http/Protocol.antt =====
-- src/http/http_protocol.cpp and include/nuvio_engine/http_protocol.hpp: the types of requests and
-- responses and the tests on the parts of a request; the parser and the response builder are in
-- the children.
pub mod Request
pub mod Response
pub mod Served
pub mod Admitted
use nuvio_engine.Common.{
  ℕ, Bool, true, false, ◌&&◌, ◌||◌, not, [], ◌∷◌, Option, none, some, Bytes, bytes_eq, length, ltb,
  leb, ◌==◌, if◌then◌else◌,
}
use nuvio_engine.Text.{codes, trim, is_empty, find_byte, lowercase}
use nuvio_engine.Text.Decimal.{parse_unsigned}
use nuvio_engine.Http.ByteRange.{ByteRange}

pub data HttpMethod : Type 0 where
  get head : HttpMethod

pub data RequestParseStatus : Type 0 where
  ok malformed header_too_large method_not_allowed : RequestParseStatus

pub record HttpRequest : Type 0 where
  pub method : HttpMethod
  pub target : Bytes
  pub range : Option Bytes

pub record RequestParseResult : Type 0 where
  pub status : RequestParseStatus
  pub request : Option HttpRequest

pub data ResponseStatus : Type 0 where
  ok partial_content bad_request not_found method_not_allowed range_not_satisfiable : ResponseStatus
  request_header_fields_too_large internal_server_error service_unavailable : ResponseStatus

pub record StreamResponse : Type 0 where
  pub status : ResponseStatus
  pub body_range : Option ByteRange
  pub include_body : Bool
  pub headers : Bytes

-- `std::ranges::all_of`.
unfoldable pub every : (ℕ → Bool) → Bytes → Bool
every p [] = true
every p (c ∷ cs) = p c && every p cs

unfoldable pub case_insensitive_equal : Bytes → Bytes → Bool
unfolding bytes_eq lowercase
case_insensitive_equal left right = bytes_eq (lowercase left) (lowercase right)

separators : Bytes
separators = 9 ∷ codes "()<>@,;:\\\"/[]?={} "

is_token_character : ℕ → Bool
unfolding find_byte separators
is_token_character c =
    ltb 32 c && ltb c 127 && elim (find_byte c separators) [ none ↦ true | some position ↦ false ]

unfoldable pub valid_header_name : Bytes → Bool
unfolding is_empty every is_token_character
valid_header_name name = if is_empty name then false else every is_token_character name

is_value_character : ℕ → Bool
is_value_character c = (c == 9) || (leb 32 c && not (c == 127))

unfoldable pub valid_header_value : Bytes → Bool
unfolding every is_value_character
valid_header_value value = every is_value_character value

is_target_character : ℕ → Bool
is_target_character c = leb 33 c && ltb c 127 && not (c == 92) && not (c == b'#')

starts_with_slash : Bytes → Bool
starts_with_slash [] = false
starts_with_slash (c ∷ cs) = c == b'/'

unfoldable pub valid_target : Bytes → Bool
unfolding every is_target_character starts_with_slash
valid_target target =
    if is_empty target || ltb 2048 (length target) || not (starts_with_slash target)
    then false
    else every is_target_character target

unfoldable pub parse_content_length : Bytes → Option ℕ
unfolding is_empty trim parse_unsigned
parse_content_length value = if is_empty (trim value) then none else parse_unsigned (trim value)
