-- ===== src/TcpOverIpv4.antt =====
-- libsponge/tcp_helpers/tcp_over_ip.hh and tcp_over_ip.cc: TCP segments in IPv4 datagrams, and the
-- datagrams that are for the connection. The payload of a datagram is one buffer, as
-- `IPv4Datagram::parse` leaves it.
pub mod Filter
pub mod RoundTrip
mod Tests
use sponge.Prelude.{
  ℕ, ◌+◌, ◌*◌, ◌%◌, ◌^◌, Bool, true, false, not, ◌&&◌, [], Option, none, some, Bytes, length, ◌==◌,
  if◌then◌else◌, u16,
}
use sponge.NetParser.{ParseResult, is_no_error}
use sponge.Address.{Address, of_ip_port}
use sponge.TcpHeader
use sponge.TcpSegment
use sponge.TcpSegment.{TcpSegment}
use sponge.Ipv4Header
use sponge.Ipv4Header.{Ipv4Header, pseudo_cksum}
use sponge.Ipv4Datagram.{Ipv4Datagram}
use sponge.FdAdapter.{FdAdapterBase, listening, set_listening}

-- `IPv4Header::PROTO_TCP`
abbrev pub proto_tcp : ℕ
proto_tcp = 6

-- `TCPSegment{}`
abbrev pub empty_segment : TcpSegment
empty_segment = record { header = TcpHeader.default; payload = [] }

-- The addresses that a listening adapter takes from a datagram and its segment.
abbrev pub learn : FdAdapterBase → Ipv4Datagram → TcpSegment → FdAdapterBase
learn a ip_dgram tcp_seg =
    let cfg = record (a.config) {
      source = of_ip_port ip_dgram.header.dst a.config.source.port;
      destination = of_ip_port ip_dgram.header.src tcp_seg.header.sport;
    } in
    set_listening (record a { config = cfg }) false

-- The last test of `unwrap_tcp_in_ip`: is the segment from our peer?
abbrev pub from_peer : FdAdapterBase → TcpSegment → FdAdapterBase × Option TcpSegment
from_peer a tcp_seg =
    if not (tcp_seg.header.sport == a.config.destination.port) then (a, none) else (a, some tcp_seg)

-- The tests on a segment that was parsed.
unfoldable pub unwrap_segment :
    FdAdapterBase → Ipv4Datagram → TcpSegment → FdAdapterBase × Option TcpSegment
unwrap_segment a ip_dgram tcp_seg =
    if not (tcp_seg.header.dport == a.config.source.port)
    then (a, none)
    else if listening a
    then (if tcp_seg.header.syn && not tcp_seg.header.rst
        then from_peer (learn a ip_dgram tcp_seg) tcp_seg
        else (a, none))
    else from_peer a tcp_seg

-- `unwrap_tcp_in_ip`
unfoldable pub unwrap_tcp_in_ip : FdAdapterBase → Ipv4Datagram → FdAdapterBase × Option TcpSegment
unwrap_tcp_in_ip a ip_dgram =
    if not (listening a) && not (ip_dgram.header.dst == a.config.source.ipv4_numeric)
    then (a, none)
    else if not (listening a) && not (ip_dgram.header.src == a.config.destination.ipv4_numeric)
    then (a, none)
    else if not (ip_dgram.header.proto == proto_tcp)
    then (a, none)
    else let (tcp_seg, result) =
        TcpSegment.parse empty_segment ip_dgram.payload (pseudo_cksum ip_dgram.header) in
      if not (is_no_error result) then (a, none) else unwrap_segment a ip_dgram tcp_seg

-- The segment with the ports of the connection, as `wrap_tcp_in_ip` leaves it.
abbrev pub with_ports : FdAdapterBase → TcpSegment → TcpSegment
with_ports a seg = record seg {
  header = record (seg.header) { sport = a.config.source.port; dport = a.config.destination.port };
}

-- The header of the datagram; `len` is a `uint16_t`.
abbrev pub wrapping_header : FdAdapterBase → TcpSegment → Ipv4Header
wrapping_header a seg = record Ipv4Header.default {
  src = a.config.source.ipv4_numeric;
  dst = a.config.destination.ipv4_numeric;
  len = u16 (Ipv4Header.default.hlen * 4 + seg.header.doff * 4 + length seg.payload);
}

-- `wrap_tcp_in_ip`, with the datagram's payload joined; `none` is an exception.
unfoldable pub wrap_tcp_in_ip : FdAdapterBase → TcpSegment → TcpSegment × Option Ipv4Datagram
wrap_tcp_in_ip a seg =
    let seg = with_ports a seg in
    let header = wrapping_header a seg in
    (
      seg,
      elim (TcpSegment.serialize seg (pseudo_cksum header)) [
        | none ↦ none
        | some payload ↦ some (record { header = header; payload = payload })
      ],
    )
