-- ===== src/ArpMessage/RoundTrip.antt =====
-- The parser reads back the message that was written.
use sponge.Prelude.{
  ◌^◌, ◌<◌, ◌≡◌, refl, ap, ◌∙◌, true, false, ◌++◌, [], Bytes, some, length, ltb, arith,
}
use sponge.NetParser.{no_error, of_buffer}
use sponge.NetParser.RoundTrip.{u8-unparse, u16-unparse, u32-unparse}
use sponge.NetUnparser.{unparse_int, unparse_loop}
use sponge.EthernetHeader.{unparse_address}
use sponge.EthernetHeader.RoundTrip.{IsAddress, address_bytes, parse_address_lem}
use sponge.ArpMessage.{ArpMessage, supported, parse_addresses, parse, serialize}

-- The message is one that is supported, with addresses of bytes and words.
pub record IsArpMessage (m : ArpMessage) : Type 0 where
  pub supports : supported m ≡ true
  pub sender : IsAddress m.sender_ethernet_address
  pub sender_ip : m.sender_ip_address < 2 ^ 32
  pub target : IsAddress m.target_ethernet_address
  pub target_ip : m.target_ip_address < 2 ^ 32

abbrev target_part : ArpMessage → Bytes → Bytes
target_part m rest =
    address_bytes m.target_ethernet_address (unparse_loop 4 m.target_ip_address ++ rest)

abbrev sender_part : ArpMessage → Bytes → Bytes
sender_part m rest =
    address_bytes m.sender_ethernet_address
      (unparse_loop 4 m.sender_ip_address ++ target_part m rest)

abbrev after_protocol_size : ArpMessage → Bytes → Bytes
after_protocol_size m rest = unparse_loop 2 m.opcode ++ sender_part m rest

abbrev after_hardware_size : ArpMessage → Bytes → Bytes
after_hardware_size m rest = unparse_loop 1 m.protocol_address_size ++ after_protocol_size m rest

abbrev after_protocol : ArpMessage → Bytes → Bytes
after_protocol m rest = unparse_loop 1 m.hardware_address_size ++ after_hardware_size m rest

abbrev after_hardware : ArpMessage → Bytes → Bytes
after_hardware m rest = unparse_loop 2 m.protocol_type ++ after_protocol m rest

-- The bytes of the message, and what follows.
abbrev wire : ArpMessage → Bytes → Bytes
wire m rest = unparse_loop 2 m.hardware_type ++ after_hardware m rest

serialize-wire : (m : ArpMessage) → supported m ≡ true → serialize m ≡ some (wire m [])
unfolding serialize unparse_address unparse_int unparse_loop
serialize-wire m h = rw (h, serialize) refl

wire-append : (m : ArpMessage) (rest : Bytes) → wire m [] ++ rest ≡ wire m rest
unfolding unparse_loop
wire-append m rest = refl

long_enough : (m : ArpMessage) (rest : Bytes) → ltb (length (wire m rest)) 28 ≡ false
unfolding unparse_loop
long_enough m rest = ground arith

fields_small :
    (m : ArpMessage)
    → supported m ≡ true
    → (m.hardware_type < 2 ^ 16)
      × (m.protocol_type < 2 ^ 16)
      × (m.hardware_address_size < 2 ^ 8)
      × (m.protocol_address_size < 2 ^ 8)
      × (m.opcode < 2 ^ 16)
fields_small m h = ground arith

parse_addresses_lem :
    (m before : ArpMessage) (rest : Bytes)
    → IsArpMessage m
    → parse_addresses before (of_buffer (sender_part m rest)) ≡ (
      record before {
        sender_ethernet_address = m.sender_ethernet_address;
        sender_ip_address = m.sender_ip_address;
        target_ethernet_address = m.target_ethernet_address;
        target_ip_address = m.target_ip_address;
      },
      no_error,
    )
unfolding parse_addresses
parse_addresses_lem m before rest v =
    rw
      (
        parse_address_lem m.sender_ethernet_address
            (unparse_loop 4 m.sender_ip_address ++ target_part m rest) v.sender,
        u32-unparse m.sender_ip_address (target_part m rest) v.sender_ip,
        parse_address_lem m.target_ethernet_address (unparse_loop 4 m.target_ip_address ++ rest)
            v.target,
        u32-unparse m.target_ip_address rest v.target_ip,
      )
      refl

parse-wire :
    (m before : ArpMessage) (rest : Bytes)
    → IsArpMessage m
    → parse before (wire m rest) ≡ (m, no_error)
unfolding parse
parse-wire m before rest v =
    let (h, p, hs, ps, o) = fields_small m v.supports in
    rw
      (
        long_enough m rest,
        u16-unparse m.hardware_type (after_hardware m rest) h,
        u16-unparse m.protocol_type (after_protocol m rest) p,
        u8-unparse m.hardware_address_size (after_hardware_size m rest) hs,
        u8-unparse m.protocol_address_size (after_protocol_size m rest) ps,
        u16-unparse m.opcode (sender_part m rest) o,
        v.supports,
        parse_addresses_lem m _ rest v,
      )
      refl

-- For an ARP message of a supported kind, with hardware addresses of bytes and 32-bit IP
-- addresses, followed by any bytes: serialize gives bytes from which parse reads the message back
-- without an error, whatever the message it is called on held.
pub parse-serialize_arp :
    (m before : ArpMessage) (rest : Bytes)
    → IsArpMessage m
    → (s : Bytes) × (serialize m ≡ some s) × (parse before (s ++ rest) ≡ (m, no_error))
parse-serialize_arp m before rest v = (
  wire m [],
  serialize-wire m v.supports,
  ap (parse before) (wire-append m rest) ∙ parse-wire m before rest v,
)
