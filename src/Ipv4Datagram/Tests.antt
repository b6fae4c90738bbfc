-- ===== src/Ipv4Datagram/Tests.antt =====
-- ipv4_datagram.cc run on small buffers, and the round trip at a concrete input.
use sponge.Prelude.{ℕ, ◌≡◌, refl, [], ◌∷◌, some, none, Bytes, arith}
use sponge.NetParser.{no_error, bad_checksum, packet_too_short, of_buffer}
use sponge.NetParser
use sponge.InternetChecksum
use sponge.Ipv4Header
use sponge.Ipv4Datagram.{Ipv4Datagram, parse, serialize}
use sponge.Ipv4Datagram.RoundTrip.{IsDatagram, parse-serialize_datagram}

abbrev datagram : Ipv4Datagram
datagram = record {
  header = record Ipv4Header.default { len = 23; src = 167772161; dst = 167772162 };
  payload = 1 ∷ 2 ∷ 3 ∷ [];
}

abbrev empty : Ipv4Datagram
empty = record { header = Ipv4Header.default; payload = [] }

-- A header with a wrong checksum: `IPv4Header::parse` finds it, and the datagram is accepted all the
-- same.
abbrev wrong : Bytes
wrong = 69 ∷ 0 ∷ 0 ∷ 20 ∷ 0 ∷ 0 ∷ 64 ∷ 0 ∷ 128 ∷ 6 ∷ 0 ∷ 0 ∷ 10 ∷ 0 ∷ 0 ∷ 1 ∷ 10 ∷ 0 ∷ 0 ∷ 2 ∷ []

parse_run :
    ((Ipv4Header.parse Ipv4Header.default (of_buffer wrong)).2 ≡ bad_checksum)
    × ((parse empty wrong).1 ≡ no_error)
    × ((parse empty (69 ∷ 0 ∷ [])).1 ≡ packet_too_short)
unfolding parse Ipv4Header.parse Ipv4Header.parse_fields Ipv4Header.check_fields
    Ipv4Header.check_header NetParser.parse_int NetParser.parse_loop NetParser.check_size
    NetParser.remove_prefix InternetChecksum.add InternetChecksum.add_byte InternetChecksum.new
    InternetChecksum.value InternetChecksum.fold_loop
parse_run = (refl, refl, refl)

-- A payload of another length than the header says is not written.
serialize_run : serialize (record datagram { payload = [] }) ≡ none
unfolding serialize
serialize_run = refl

datagram-IsDatagram : IsDatagram datagram
datagram-IsDatagram = record {
  header = record {
    ver = refl;
    hlen_min = omega arith;
    hlen_max = omega arith;
    tos = omega arith;
    len = omega arith;
    id = omega arith;
    offset = omega arith;
    ttl = omega arith;
    proto = omega arith;
    cksum = omega arith;
    src = omega arith;
    dst = omega arith;
  };
  total = refl;
}

parse-serialize_datagram_example :
    (s : Bytes) × (c : ℕ) × (serialize datagram ≡ some s)
    × (Ipv4Header.parse empty.header (of_buffer s)
        ≡ (of_buffer datagram.payload, record (datagram.header) { cksum = c }, no_error))
    × (parse empty s
        ≡ (record datagram { header = record (datagram.header) { cksum = c } }, no_error))
parse-serialize_datagram_example = parse-serialize_datagram datagram datagram-IsDatagram empty
