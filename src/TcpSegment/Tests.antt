-- ===== src/TcpSegment/Tests.antt =====
-- tcp_segment.cc run on small buffers, and the round trip at a concrete input.
use sponge.Prelude.{ℕ, ◌≡◌, refl, true, [], ◌∷◌, some, Bytes, arith}
use sponge.NetParser.{no_error, bad_checksum}
use sponge.NetParser
use sponge.InternetChecksum
use sponge.TcpHeader
use sponge.TcpHeader.RoundTrip.{IsHeader}
use sponge.TcpSegment.{TcpSegment, parse, serialize}
use sponge.TcpSegment.RoundTrip.{parse-serialize_segment}

abbrev segment : TcpSegment
segment = record {
  header = record TcpHeader.default { sport = 80; syn = true };
  payload = 1 ∷ 2 ∷ 3 ∷ [];
}

abbrev empty : TcpSegment
empty = record { header = TcpHeader.default; payload = [] }

-- A data offset of 0, with a checksum that is right: `TCPHeader::parse` finds the header too short,
-- and the segment is accepted all the same. With one bit changed the checksum is wrong.
parse_run :
    ((parse empty
        (0 ∷ 0 ∷ 0 ∷ 0 ∷ 0 ∷ 0 ∷ 0 ∷ 0 ∷ 0 ∷ 0 ∷ 0 ∷ 0 ∷ 0 ∷ 2 ∷ 0 ∷ 0 ∷ 255 ∷ 253 ∷ 0 ∷ 0 ∷ [])
        0).1
      ≡ no_error)
    × (parse empty
          (0 ∷ 0 ∷ 0 ∷ 0 ∷ 0 ∷ 0 ∷ 0 ∷ 0 ∷ 0 ∷ 0 ∷ 0 ∷ 0 ∷ 0 ∷ 3 ∷ 0 ∷ 0 ∷ 255 ∷ 253 ∷ 0 ∷ 0 ∷ [])
          0
        ≡ (empty, bad_checksum))
unfolding parse TcpHeader.parse TcpHeader.skip_options NetParser.parse_int NetParser.parse_loop
    NetParser.check_size NetParser.remove_prefix InternetChecksum.add InternetChecksum.add_byte
    InternetChecksum.new InternetChecksum.value InternetChecksum.fold_loop
parse_run = (refl, refl)

segment-IsHeader : IsHeader segment.header
segment-IsHeader = record {
  sport = omega arith;
  dport = omega arith;
  seqno = omega arith;
  ackno = omega arith;
  doff_min = omega arith;
  doff_max = omega arith;
  win = omega arith;
  cksum = omega arith;
  uptr = omega arith;
}

parse-serialize_segment_example :
    (s : Bytes) × (c : ℕ) × (serialize segment 77 ≡ some s)
    × (parse empty s 77
        ≡ (record segment { header = record (segment.header) { cksum = c } }, no_error))
parse-serialize_segment_example =
    parse-serialize_segment segment 77 segment-IsHeader
      (omega arith, (omega arith, (omega arith, tt))) (omega arith) (omega arith) empty
