-- ===== src/NetParser.antt =====
-- `ParseResult` and `NetParser` of libsponge/util/parser.hh and parser.cc. A `Buffer` is the list of
-- the bytes that are left of it.
pub mod RoundTrip
use sponge.Prelude.{
  ℕ, ◌+◌, ◌*◌, ◌%◌, ◌^◌, Bool, true, false, List, [], ◌∷◌, Bytes, length, take, drop, ltb,
  if◌then◌else◌,
}

-- `enum class ParseResult`
pub data ParseResult : Type 0 where
  no_error bad_checksum packet_too_short wrong_ip_version header_too_short truncated_packet
        unsupported :
      ParseResult

-- The comparison of a result with `ParseResult::NoError`.
abbrev pub is_no_error : ParseResult → Bool
is_no_error no_error = true
is_no_error _ = false

pub record NetParser : Type 0 where
  pub buffer : Bytes
  pub get_error : ParseResult

-- `NetParser(buffer)`
abbrev pub of_buffer : Bytes → NetParser
of_buffer buffer = record { buffer = buffer; get_error = no_error }

abbrev pub error : NetParser → Bool
error p = elim p.get_error [ no_error ↦ false | _ ↦ true ]

unfoldable pub check_size : NetParser → ℕ → NetParser
check_size p size =
    if ltb (length p.buffer) size then record p { get_error = packet_too_short } else p

-- The loop of `_parse_int`, in a type of `width` values.
unfoldable pub parse_loop : ℕ → ℕ → Bytes → ℕ
parse_loop width ret [] = ret
parse_loop width ret (byte ∷ bytes) = parse_loop width ((ret * 256 % width + byte) % width) bytes

-- `_parse_int`, of a type of `len` bytes.
unfoldable pub parse_int : ℕ → NetParser → NetParser × ℕ
parse_int len p =
    let p' = check_size p len in
    if error p' then (p', 0) else (
      record p' { buffer = drop len p'.buffer },
      parse_loop (2 ^ (8 * len)) 0 (take len p'.buffer),
    )

abbrev pub u32 : NetParser → NetParser × ℕ
u32 p = parse_int 4 p

abbrev pub u16 : NetParser → NetParser × ℕ
u16 p = parse_int 2 p

abbrev pub u8 : NetParser → NetParser × ℕ
u8 p = parse_int 1 p

unfoldable pub remove_prefix : NetParser → ℕ → NetParser
remove_prefix p n =
    let p' = check_size p n in if error p' then p' else record p' { buffer = drop n p'.buffer }
