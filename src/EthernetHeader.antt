-- ===== src/EthernetHeader.antt =====
-- libsponge/tcp_helpers/ethernet_header.hh and ethernet_header.cc: an Ethernet header, and its form
-- on the wire.
pub mod RoundTrip
mod Tests
use sponge.Prelude.{ℕ, [], Bytes, length, ltb, if◌then◌else◌}
use sponge.NetParser.{NetParser, ParseResult, packet_too_short, u8, u16}
use sponge.NetUnparser

-- `EthernetAddress`, an array of six bytes.
pub record EthernetAddress : Type 0 where
  pub byte0 : ℕ
  pub byte1 : ℕ
  pub byte2 : ℕ
  pub byte3 : ℕ
  pub byte4 : ℕ
  pub byte5 : ℕ

abbrev pub ethernet_broadcast : EthernetAddress
ethernet_broadcast = record {
  byte0 = 255;
  byte1 = 255;
  byte2 = 255;
  byte3 = 255;
  byte4 = 255;
  byte5 = 255;
}

-- `EthernetHeader::LENGTH`, `TYPE_IPv4` and `TYPE_ARP`.
abbrev pub header_length : ℕ
header_length = 14

abbrev pub type_ipv4 : ℕ
type_ipv4 = 2048

abbrev pub type_arp : ℕ
type_arp = 2054

pub record EthernetHeader : Type 0 where
  pub dst : EthernetAddress
  pub src : EthernetAddress
  pub type : ℕ

-- `for (auto &byte : address) { byte = p.u8(); }`
unfoldable pub parse_address : NetParser → NetParser × EthernetAddress
parse_address p =
    let (p, byte0) = u8 p in
    let (p, byte1) = u8 p in
    let (p, byte2) = u8 p in
    let (p, byte3) = u8 p in
    let (p, byte4) = u8 p in
    let (p, byte5) = u8 p in
    (
      p,
      record {
        byte0 = byte0;
        byte1 = byte1;
        byte2 = byte2;
        byte3 = byte3;
        byte4 = byte4;
        byte5 = byte5;
      },
    )

-- `for (auto &byte : address) { NetUnparser::u8(ret, byte); }`
unfoldable pub unparse_address : Bytes → EthernetAddress → Bytes
unparse_address s a =
    let s = NetUnparser.u8 s a.byte0 in
    let s = NetUnparser.u8 s a.byte1 in
    let s = NetUnparser.u8 s a.byte2 in
    let s = NetUnparser.u8 s a.byte3 in let s = NetUnparser.u8 s a.byte4 in NetUnparser.u8 s a.byte5

-- `EthernetHeader::parse`, of a header that holds `h` before.
unfoldable pub parse : EthernetHeader → NetParser → NetParser × EthernetHeader × ParseResult
parse h p =
    if ltb (length p.buffer) header_length
    then (p, h, packet_too_short)
    else let (p, dst) = parse_address p in
      let (p, src) = parse_address p in
      let (p, type) = u16 p in (p, record { dst = dst; src = src; type = type }, p.get_error)

-- `EthernetHeader::serialize`
unfoldable pub serialize : EthernetHeader → Bytes
serialize h =
    let s = unparse_address [] h.dst in let s = unparse_address s h.src in NetUnparser.u16 s h.type
