-- ===== src/TcpHeader/Tests.antt =====
-- tcp_header.cc run on a header with options, and the theorems at concrete inputs.
use sponge.Prelude.{◌*◌, ◌≤◌, ◌≡◌, refl, true, [], ◌∷◌, some, Bytes, length, drop, arith}
use sponge.NetParser.{NetParser, of_buffer, no_error, packet_too_short, header_too_short}
use sponge.NetParser
use sponge.NetUnparser
use sponge.TcpHeader.{TcpHeader, default, parse, serialize}
use sponge.TcpHeader
use sponge.TcpHeader.RoundTrip.{IsHeader}
use sponge.TcpHeader.Accepts.{parse_accepts}

abbrev header : TcpHeader
header = record default {
  sport = 80;
  dport = 40000;
  seqno = record { raw_value = 4000000000 };
  doff = 6;
  syn = true;
  ack = true;
  win = 500;
}

abbrev bytes : Bytes
bytes =
    0 ∷ 80 ∷ 156 ∷ 64 ∷ 238 ∷ 107 ∷ 40 ∷ 0 ∷ 0 ∷ 0 ∷ 0 ∷ 0 ∷ 96 ∷ 18 ∷ 1 ∷ 244 ∷ 0 ∷ 0 ∷ 0 ∷ 0 ∷ 0
    ∷ 0 ∷ 0 ∷ 0 ∷ []

serialize_run : serialize header ≡ some bytes
unfolding serialize TcpHeader.flags TcpHeader.resize NetUnparser.unparse_int
    NetUnparser.unparse_loop
serialize_run = refl

-- A buffer that ends in the options, and one whose data offset is below 5.
parse_run :
    ((parse (of_buffer (0 ∷ 80 ∷ []))).0.get_error ≡ packet_too_short)
    × ((parse (
          of_buffer (
            0 ∷ 80 ∷ 156 ∷ 64 ∷ 238 ∷ 107 ∷ 40 ∷ 0 ∷ 0 ∷ 0 ∷ 0 ∷ 0 ∷ 96 ∷ 18 ∷ 1 ∷ 244 ∷ 0 ∷ 0 ∷ 0
            ∷ 0 ∷ []))).2
        ≡ packet_too_short)
    × ((parse (
          of_buffer (
            0 ∷ 80 ∷ 156 ∷ 64 ∷ 238 ∷ 107 ∷ 40 ∷ 0 ∷ 0 ∷ 0 ∷ 0 ∷ 0 ∷ 64 ∷ 18 ∷ 1 ∷ 244 ∷ 0 ∷ 0 ∷ 0
            ∷ 0 ∷ []))).2
        ≡ header_too_short)
unfolding parse TcpHeader.skip_options NetParser.parse_int NetParser.parse_loop NetParser.check_size
    NetParser.remove_prefix
parse_run = (refl, refl, refl)

header-IsHeader : IsHeader header
header-IsHeader = record {
  sport = omega arith;
  dport = omega arith;
  seqno = omega arith;
  ackno = omega arith;
  doff_min = omega arith;
  doff_max = omega arith;
  win = omega arith;
  cksum = omega arith;
  uptr = omega arith;
}

parse_accepts_example :
    let (p, h, result) = parse (of_buffer bytes) in
    (5 ≤ h.doff) × (4 * h.doff ≤ length bytes) × (p.buffer ≡ drop (4 * h.doff) bytes)
parse_accepts_example = parse_accepts bytes (
    unfold parse TcpHeader.skip_options NetParser.parse_int NetParser.parse_loop
      NetParser.check_size NetParser.remove_prefix in
    refl)
