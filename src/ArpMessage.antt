-- ===== src/ArpMessage.antt =====
-- libsponge/tcp_helpers/arp_message.hh and arp_message.cc: an ARP message, and its form on the wire.
pub mod RoundTrip
mod Tests
use sponge.Prelude.{
  ℕ, Bool, ◌&&◌, ◌||◌, not, [], Bytes, Option, none, some, length, ltb, ◌==◌, if◌then◌else◌,
}
use sponge.NetParser.{
  NetParser, ParseResult, packet_too_short, unsupported, of_buffer, u8, u16, u32,
}
use sponge.NetUnparser
use sponge.EthernetHeader.{EthernetAddress, type_ipv4, parse_address, unparse_address}

pub record ArpMessage : Type 0 where
  pub hardware_type : ℕ
  pub protocol_type : ℕ
  pub hardware_address_size : ℕ
  pub protocol_address_size : ℕ
  pub opcode : ℕ
  pub sender_ethernet_address : EthernetAddress
  pub sender_ip_address : ℕ
  pub target_ethernet_address : EthernetAddress
  pub target_ip_address : ℕ

-- `ARPMessage::LENGTH`, `TYPE_ETHERNET`, `OPCODE_REQUEST` and `OPCODE_REPLY`.
abbrev pub message_length : ℕ
message_length = 28

abbrev pub type_ethernet : ℕ
type_ethernet = 1

abbrev pub opcode_request : ℕ
opcode_request = 1

abbrev pub opcode_reply : ℕ
opcode_reply = 2

abbrev pub no_address : EthernetAddress
no_address = record { byte0 = 0; byte1 = 0; byte2 = 0; byte3 = 0; byte4 = 0; byte5 = 0 }

-- `ARPMessage{}`
abbrev pub default : ArpMessage
default = record {
  hardware_type = type_ethernet;
  protocol_type = type_ipv4;
  hardware_address_size = 6;
  protocol_address_size = 4;
  opcode = 0;
  sender_ethernet_address = no_address;
  sender_ip_address = 0;
  target_ethernet_address = no_address;
  target_ip_address = 0;
}

abbrev pub supported : ArpMessage → Bool
supported m =
    m.hardware_type == type_ethernet
    && m.protocol_type == type_ipv4
    && m.hardware_address_size == 6
    && m.protocol_address_size == 4
    && (m.opcode == opcode_request || m.opcode == opcode_reply)

-- The part of `ARPMessage::parse` behind the test of `supported`.
unfoldable pub parse_addresses : ArpMessage → NetParser → ArpMessage × ParseResult
parse_addresses m p =
    let (p, sender_ethernet_address) = parse_address p in
    let (p, sender_ip_address) = u32 p in
    let (p, target_ethernet_address) = parse_address p in
    let (p, target_ip_address) = u32 p in
    (
      record m {
        sender_ethernet_address = sender_ethernet_address;
        sender_ip_address = sender_ip_address;
        target_ethernet_address = target_ethernet_address;
        target_ip_address = target_ip_address;
      },
      p.get_error,
    )

-- `ARPMessage::parse`, of a message that holds `m` before.
unfoldable pub parse : ArpMessage → Bytes → ArpMessage × ParseResult
parse m buffer =
    if ltb (length buffer) message_length
    then (m, packet_too_short)
    else let (p, hardware_type) = u16 (of_buffer buffer) in
      let (p, protocol_type) = u16 p in
      let (p, hardware_address_size) = u8 p in
      let (p, protocol_address_size) = u8 p in
      let (p, opcode) = u16 p in
      let m = record m {
        hardware_type = hardware_type;
        protocol_type = protocol_type;
        hardware_address_size = hardware_address_size;
        protocol_address_size = protocol_address_size;
        opcode = opcode;
      } in
      if not (supported m) then (m, unsupported) else parse_addresses m p

-- `ARPMessage::serialize`; `none` is the exception on a message that is not supported.
unfoldable pub serialize : ArpMessage → Option Bytes
serialize m =
    if not (supported m)
    then none
    else let s = NetUnparser.u16 [] m.hardware_type in
      let s = NetUnparser.u16 s m.protocol_type in
      let s = NetUnparser.u8 s m.hardware_address_size in
      let s = NetUnparser.u8 s m.protocol_address_size in
      let s = NetUnparser.u16 s m.opcode in
      let s = unparse_address s m.sender_ethernet_address in
      let s = NetUnparser.u32 s m.sender_ip_address in
      let s = unparse_address s m.target_ethernet_address in
      some (NetUnparser.u32 s m.target_ip_address)
