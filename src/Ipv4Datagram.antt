-- ===== src/Ipv4Datagram.antt =====
-- libsponge/tcp_helpers/ipv4_datagram.hh and ipv4_datagram.cc: an IPv4 datagram, and its form on the
-- wire.
pub mod RoundTrip
mod Tests
use sponge.Prelude.{not, ◌++◌, Option, none, some, Bytes, length, ◌==◌, if◌then◌else◌}
use sponge.NetParser.{ParseResult, packet_too_short, of_buffer}
use sponge.InternetChecksum
use sponge.InternetChecksum.{add, value}
use sponge.Ipv4Header
use sponge.Ipv4Header.{Ipv4Header, payload_length}

pub record Ipv4Datagram : Type 0 where
  pub header : Ipv4Header
  pub payload : Bytes

-- `IPv4Datagram::parse`, of a datagram that holds `d` before; the result of `IPv4Header::parse` is
-- not used.
unfoldable pub parse : Ipv4Datagram → Bytes → Ipv4Datagram × ParseResult
parse d buffer =
    let (p, header, result) = Ipv4Header.parse d.header (of_buffer buffer) in
    (
      record { header = header; payload = p.buffer },
      if not (length p.buffer == payload_length header) then packet_too_short else p.get_error,
    )

-- The last part of `serialize`, with the header written without a checksum.
unfoldable pub serialize_with : Ipv4Datagram → Bytes → Option Bytes
serialize_with d header_zero_checksum =
    let cksum = value (add (InternetChecksum.new 0) header_zero_checksum) in
    elim (Ipv4Header.serialize (record (d.header) { cksum = cksum })) [
      | none ↦ none
      | some header ↦ some (header ++ d.payload)
    ]

-- `IPv4Datagram::serialize`, with the buffers of its result joined; `none` is an exception.
unfoldable pub serialize : Ipv4Datagram → Option Bytes
serialize d =
    if not (length d.payload == payload_length d.header)
    then none
    else elim (Ipv4Header.serialize (record (d.header) { cksum = 0 })) [
      | none ↦ none
      | some header ↦ serialize_with d header
    ]
