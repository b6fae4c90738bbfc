-- ===== src/TcpSegment.antt =====
-- libsponge/tcp_helpers/tcp_segment.hh and tcp_segment.cc: a TCP segment, and its form on the wire.
pub mod RoundTrip
mod Tests
use sponge.Prelude.{ℕ, ◌+◌, Bool, not, Option, none, some, ◌++◌, Bytes, length, ◌==◌, if◌then◌else◌}
use sponge.NetParser.{ParseResult, bad_checksum, of_buffer}
use sponge.InternetChecksum.{add, value}
use sponge.InternetChecksum
use sponge.TcpHeader
use sponge.TcpHeader.{TcpHeader}

pub record TcpSegment : Type 0 where
  pub header : TcpHeader
  pub payload : Bytes

-- SYN and FIN count for one byte each.
abbrev pub length_in_sequence_space : TcpSegment → ℕ
length_in_sequence_space seg =
    length seg.payload + (if seg.header.syn then 1 else 0) + (if seg.header.fin then 1 else 0)

-- `TCPSegment::parse` of a buffer: the segment after it, and the result, which is the parser's and
-- not that of `TCPHeader::parse`.
unfoldable pub parse : TcpSegment → Bytes → ℕ → TcpSegment × ParseResult
parse seg buffer datagram_layer_checksum =
    let check = add (InternetChecksum.new datagram_layer_checksum) buffer in
    if not (value check == 0)
    then (seg, bad_checksum)
    else let (p, header, result) = TcpHeader.parse (of_buffer buffer) in
      (record { header = header; payload = p.buffer }, p.get_error)

-- `check.value()` in `serialize`, over the header without a checksum and the payload.
unfoldable pub checksum : Bytes → Bytes → ℕ → ℕ
checksum header payload datagram_layer_checksum =
    value (add (add (InternetChecksum.new datagram_layer_checksum) header) payload)

-- The last part of `serialize`, with the header written without a checksum.
unfoldable pub serialize_with : TcpSegment → ℕ → Bytes → Option Bytes
serialize_with seg datagram_layer_checksum zero_checksum =
    let cksum = checksum zero_checksum seg.payload datagram_layer_checksum in
    elim (TcpHeader.serialize (record (seg.header) { cksum = cksum })) [
      | none ↦ none
      | some header ↦ some (header ++ seg.payload)
    ]

-- `TCPSegment::serialize`, with the buffers of its result joined; `none` is the exception of
-- `TCPHeader::serialize`.
unfoldable pub serialize : TcpSegment → ℕ → Option Bytes
serialize seg datagram_layer_checksum =
    elim (TcpHeader.serialize (record (seg.header) { cksum = 0 })) [
      | none ↦ none
      | some header ↦ serialize_with seg datagram_layer_checksum header
    ]
