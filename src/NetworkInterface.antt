-- ===== src/NetworkInterface.antt =====
-- libsponge/network_interface.hh and network_interface.cc: the network interface, which finds the
-- Ethernet address for an IP address by ARP.
pub mod Sending
pub mod Flushing
pub mod Replying
pub mod Receiving
pub mod Aging
mod Tests
use sponge.Prelude.{
  ℕ, ◌+◌, Bool, true, false, ◌&&◌, ◌||◌, not, List, [], ◌∷◌, ◌++◌, Option, none, some, Bytes, ltb,
  ◌==◌, if◌then◌else◌, add64,
}
use sponge.NetParser.{ParseResult, no_error}
use sponge.EthernetHeader
use sponge.EthernetHeader.{EthernetAddress, EthernetHeader, ethernet_broadcast, type_ipv4, type_arp}
use sponge.EthernetFrame
use sponge.EthernetFrame.{EthernetFrame}
use sponge.ArpMessage
use sponge.ArpMessage.{ArpMessage, opcode_request, opcode_reply, no_address}
use sponge.Address.{Address}
use sponge.Ipv4Datagram
use sponge.Ipv4Datagram.{Ipv4Datagram}
use sponge.Ipv4Header

-- `std::map` from numbers, as a list of its pairs; the order of the keys is never seen.
module _ {V : Type 0} where
  unfoldable pub find : List (ℕ × V) → ℕ → Option V
  find [] k = none
  find ((key, v) ∷ rest) k = if key == k then some v else find rest k

  unfoldable pub set : List (ℕ × V) → ℕ → V → List (ℕ × V)
  set [] k v = (k, v) ∷ []
  set ((key, w) ∷ rest) k v = if key == k then (k, v) ∷ rest else (key, w) ∷ set rest k v

pub record NetworkInterface : Type 0 where
  pub ethernet_address : EthernetAddress
  pub ip_address : Address
  pub frames_out : List EthernetFrame
  pub frames_waited : List (Ipv4Datagram × Address)
  pub ip_map : List (ℕ × (EthernetAddress × ℕ))
  pub arp_timer : List (ℕ × ℕ)

abbrev pub mapping_time_limit : ℕ
mapping_time_limit = 30000

abbrev pub arp_time : ℕ
arp_time = 5000

unfoldable pub new : EthernetAddress → Address → NetworkInterface
new ethernet_address ip_address = record {
  ethernet_address = ethernet_address;
  ip_address = ip_address;
  frames_out = [];
  frames_waited = [];
  ip_map = [];
  arp_timer = [];
}

-- A frame before it is parsed.
abbrev pub no_frame : EthernetFrame
no_frame = record { header = record { dst = no_address; src = no_address; type = 0 }; payload = [] }

-- What `send_ARP` and `send_frame` have in common: a frame is written, read back and queued.
unfoldable pub push_frame : NetworkInterface → EthernetAddress → ℕ → Bytes → NetworkInterface
push_frame n dst type payload =
    let header : EthernetHeader = record { dst = dst; src = n.ethernet_address; type = type } in
    record n {
      frames_out =
          n.frames_out
          ++ (EthernetFrame.parse no_frame (EthernetHeader.serialize header ++ payload)).0 ∷ [];
    }

unfoldable pub send_arp : NetworkInterface → ℕ → EthernetAddress → ℕ → Option NetworkInterface
send_arp n opcode target_ethernet_address target_ip_address =
    let message = record ArpMessage.default {
      opcode = opcode;
      sender_ethernet_address = n.ethernet_address;
      sender_ip_address = n.ip_address.ipv4_numeric;
      target_ethernet_address =
          if opcode == opcode_reply then target_ethernet_address else no_address;
      target_ip_address = target_ip_address;
    } in
    elim (ArpMessage.serialize message) [
      | none ↦ none
      | some s ↦ some (push_frame n target_ethernet_address type_arp s)
    ]

-- `none` is an exception of `serialize`.
unfoldable pub send_frame :
    NetworkInterface → Ipv4Datagram → EthernetAddress → Option NetworkInterface
send_frame n dgram dst = elim (Ipv4Datagram.serialize dgram) [
  | none ↦ none
  | some s ↦ some (push_frame n dst type_ipv4 s)
]

-- The ARP request of `send_datagram`, and its timer.
unfoldable pub request : NetworkInterface → ℕ → Option NetworkInterface
request n next_hop_ip = elim (find n.arp_timer next_hop_ip) [
  | some t ↦ some n
  | none ↦ elim (send_arp n opcode_request ethernet_broadcast next_hop_ip) [
    | none ↦ none
    | some n' ↦ some (record n' { arp_timer = set n'.arp_timer next_hop_ip 0 })
  ]
]

unfoldable pub send_datagram : NetworkInterface → Ipv4Datagram → Address → Option NetworkInterface
send_datagram n dgram next_hop = elim (find n.ip_map next_hop.ipv4_numeric) [
  | some entry ↦ send_frame n dgram entry.0
  | none ↦
      request (record n { frames_waited = n.frames_waited ++ (dgram, next_hop) ∷ [] })
        next_hop.ipv4_numeric
]

-- The `while` of `recv_frame`, over the queue.
unfoldable pub flush : NetworkInterface → List (Ipv4Datagram × Address) → Option NetworkInterface
flush n [] = some (record n { frames_waited = [] })
flush n ((dgram, next_hop) ∷ rest) = elim (find n.ip_map next_hop.ipv4_numeric) [
  | none ↦ some (record n { frames_waited = (dgram, next_hop) ∷ rest })
  | some entry ↦ elim (send_frame n dgram entry.0) [ none ↦ none | some n' ↦ flush n' rest ]
]

-- `recv_frame` of an ARP message that was read.
unfoldable pub learn : NetworkInterface → ArpMessage → NetworkInterface
learn n m = record n { ip_map = set n.ip_map m.sender_ip_address (m.sender_ethernet_address, 0) }

unfoldable pub reply : NetworkInterface → ArpMessage → Option NetworkInterface
reply n m =
    if m.opcode == opcode_request && m.target_ip_address == n.ip_address.ipv4_numeric
    then send_arp n opcode_reply m.sender_ethernet_address m.sender_ip_address
    else some n

unfoldable pub recv_arp : NetworkInterface → ArpMessage → Option NetworkInterface
recv_arp n m = elim (reply (learn n m) m) [ none ↦ none | some n' ↦ flush n' n'.frames_waited ]

-- `operator==` of two arrays of six bytes.
abbrev pub same_address : EthernetAddress → EthernetAddress → Bool
same_address a b =
    a.byte0 == b.byte0
    && a.byte1 == b.byte1
    && a.byte2 == b.byte2
    && a.byte3 == b.byte3
    && a.byte4 == b.byte4
    && a.byte5 == b.byte5

abbrev pub no_datagram : Ipv4Datagram
no_datagram = record { header = Ipv4Header.default; payload = [] }

unfoldable pub recv_ipv4 : EthernetFrame → Option Ipv4Datagram
recv_ipv4 frame =
    let (dgram, result) = Ipv4Datagram.parse no_datagram frame.payload in
    elim result [ no_error ↦ some dgram | _ ↦ none ]

unfoldable pub recv_frame :
    NetworkInterface → EthernetFrame → Option (NetworkInterface × Option Ipv4Datagram)
recv_frame n frame =
    if not (same_address frame.header.dst n.ethernet_address)
      && not (same_address frame.header.dst ethernet_broadcast)
    then some (n, none)
    else if frame.header.type == type_ipv4
    then some (n, recv_ipv4 frame)
    else if frame.header.type == type_arp
    then (let (m, result) = ArpMessage.parse ArpMessage.default frame.payload in
        elim result [
          | no_error ↦ elim (recv_arp n m) [ none ↦ none | some n' ↦ some (n', none) ]
          | _ ↦ some (n, none)
        ])
    else some (n, none)

-- The two loops of `tick`: what is over its time is erased.
unfoldable pub age_mappings :
    List (ℕ × (EthernetAddress × ℕ)) → ℕ → List (ℕ × (EthernetAddress × ℕ))
age_mappings [] ms = []
age_mappings ((ip, (address, age)) ∷ rest) ms =
    let now = add64 age ms in
    if ltb mapping_time_limit now
    then age_mappings rest ms
    else (ip, (address, now)) ∷ age_mappings rest ms

unfoldable pub age_requests : List (ℕ × ℕ) → ℕ → List (ℕ × ℕ)
age_requests [] ms = []
age_requests ((ip, age) ∷ rest) ms =
    let now = add64 age ms in
    if ltb arp_time now then age_requests rest ms else (ip, now) ∷ age_requests rest ms

unfoldable pub tick : NetworkInterface → ℕ → NetworkInterface
tick n ms = record n { ip_map = age_mappings n.ip_map ms; arp_timer = age_requests n.arp_timer ms }
