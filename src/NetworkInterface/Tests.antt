-- ===== src/NetworkInterface/Tests.antt =====
-- network_interface.cc run on a datagram whose next hop is not known, and the theorems at concrete
-- inputs.
use sponge.Prelude.{ℕ, ◌≡◌, ◌↔◌, ◌⊎◌, refl, List, [], ◌∷◌, ◌++◌, Option, some, none, Any, arith}
use sponge.EthernetHeader
use sponge.EthernetHeader.{EthernetAddress, type_ipv4, type_arp, ethernet_broadcast}
use sponge.EthernetFrame
use sponge.EthernetFrame.{EthernetFrame}
use sponge.ArpMessage
use sponge.ArpMessage.{ArpMessage}
use sponge.ArpMessage.RoundTrip.{IsArpMessage}
use sponge.NetParser
use sponge.NetUnparser
use sponge.InternetChecksum
use sponge.TcpHeader
use sponge.Address.{Address, from_ipv4_numeric}
use sponge.Ipv4Header
use sponge.Ipv4Datagram
use sponge.Ipv4Datagram.{Ipv4Datagram}
use sponge.Ipv4Datagram.RoundTrip.{IsDatagram}
use sponge.NetworkInterface
use sponge.NetworkInterface.{NetworkInterface, find, new, send_datagram, tick, recv_frame}
use sponge.NetworkInterface.Sending.{IsInterface, Sends, Asks, queued, send_datagram_lem}
use sponge.NetworkInterface.Replying.{Replied}
use sponge.NetworkInterface.Receiving.{Received, recv_frame-Received, recv_frame_blocked}
use sponge.NetworkInterface.Aging.{Asked, Mapped, tick_ages}

abbrev card : ℕ → EthernetAddress
card n = record { byte0 = 2; byte1 = 0; byte2 = 0; byte3 = 0; byte4 = 0; byte5 = n }

abbrev interface : NetworkInterface
interface = new (card 1) (from_ipv4_numeric 7)

abbrev gateway : Address
gateway = from_ipv4_numeric 9

abbrev datagram : Ipv4Datagram
datagram = record { header = record Ipv4Header.default { len = 21 }; payload = 5 ∷ [] }

-- The reply of the gateway.
abbrev answer : EthernetFrame
answer = record {
  header = record { dst = card 1; src = card 3; type = type_arp };
  payload =
      0 ∷ 1 ∷ 8 ∷ 0 ∷ 6 ∷ 4 ∷ 0 ∷ 2 ∷ 2 ∷ 0 ∷ 0 ∷ 0 ∷ 0 ∷ 3 ∷ 0 ∷ 0 ∷ 0 ∷ 9 ∷ 2 ∷ 0 ∷ 0 ∷ 0 ∷ 0 ∷ 1
      ∷ 0 ∷ 0 ∷ 0 ∷ 7 ∷ [];
}

-- The heads of the frames that went out, and how many datagrams wait.
abbrev heads : NetworkInterface → Option (ℕ × ℕ)
heads n = elim n.frames_out [
  | [] ↦ none
  | f ∷ [] ↦ some (f.header.type, 1)
  | f ∷ g ∷ rest ↦ some (g.header.type, g.header.dst.byte5)
]

-- First the request goes out, and after the reply the datagram.
asks_run :
    ((elim (send_datagram interface datagram gateway) [ none ↦ none | some n ↦ heads n ])
      ≡ some (type_arp, 1))
    × ((elim (send_datagram interface datagram gateway) [
      | none ↦ none
      | some n ↦ elim (recv_frame n answer) [ none ↦ none | some r ↦ heads (r.0) ]
    ])
        ≡ some (type_ipv4, 3))
unfolding new send_datagram recv_frame find NetworkInterface.set NetworkInterface.request
    NetworkInterface.send_arp NetworkInterface.send_frame NetworkInterface.push_frame
    NetworkInterface.recv_arp NetworkInterface.learn NetworkInterface.reply NetworkInterface.flush
    EthernetFrame.parse EthernetHeader.parse EthernetHeader.serialize EthernetHeader.parse_address
    EthernetHeader.unparse_address ArpMessage.parse ArpMessage.parse_addresses ArpMessage.serialize
    Ipv4Datagram.serialize Ipv4Datagram.serialize_with Ipv4Header.serialize NetParser.parse_int
    NetParser.parse_loop NetParser.check_size NetUnparser.unparse_int NetUnparser.unparse_loop
    InternetChecksum.add InternetChecksum.add_byte InternetChecksum.new InternetChecksum.value
    InternetChecksum.fold_loop TcpHeader.resize
asks_run = (refl, refl)

interface-IsInterface : IsInterface interface
unfolding new
interface-IsInterface = record {
  card = record {
    byte0 = omega arith;
    byte1 = omega arith;
    byte2 = omega arith;
    byte3 = omega arith;
    byte4 = omega arith;
    byte5 = omega arith;
  };
  ip = omega arith;
  mappings = tt;
}

datagram-IsDatagram : IsDatagram datagram
datagram-IsDatagram = record {
  header = record {
    ver = refl;
    hlen_min = omega arith;
    hlen_max = omega arith;
    tos = omega arith;
    len = omega arith;
    id = omega arith;
    offset = omega arith;
    ttl = omega arith;
    proto = omega arith;
    cksum = omega arith;
    src = omega arith;
    dst = omega arith;
  };
  total = refl;
}

send_datagram_lem_example :
    (t : NetworkInterface) × (send_datagram interface datagram gateway ≡ some t)
    × (Sends interface datagram gateway t
        ⊎ ((find interface.ip_map gateway.ipv4_numeric ≡ none)
            × ((((at : ℕ) × (find interface.arp_timer gateway.ipv4_numeric ≡ some at))
                  × (t ≡ queued interface datagram gateway))
                ⊎ ((find interface.arp_timer gateway.ipv4_numeric ≡ none)
                    × Asks interface datagram gateway t))))
send_datagram_lem_example =
    send_datagram_lem datagram gateway interface-IsInterface datagram-IsDatagram (omega arith)

abbrev knowing : NetworkInterface
knowing = record interface { ip_map = (9, (card 3, 29000)) ∷ []; arp_timer = (8, 10) ∷ [] }

tick_ages_example :
    let t = tick knowing 1000 in
    (Any (λ e. e ≡ (9, (card 3, 30000))) t.ip_map
      ↔ Any (Mapped 1000 9 (card 3) 30000) knowing.ip_map)
    × (Any (λ e. e ≡ (9, 30000)) t.arp_timer ↔ Any (Asked 1000 9 30000) knowing.arp_timer)
    × (t.frames_out ≡ knowing.frames_out)
    × (t.frames_waited ≡ knowing.frames_waited)
tick_ages_example = tick_ages knowing 1000 9 (card 3) 30000

-- The reply of the gateway, as it is read.
abbrev read_answer : ArpMessage
read_answer = record ArpMessage.default {
  opcode = 2;
  sender_ethernet_address = card 3;
  sender_ip_address = 9;
  target_ethernet_address = card 1;
  target_ip_address = 7;
}

answer_read : ArpMessage.parse ArpMessage.default answer.payload ≡ (read_answer, NetParser.no_error)
unfolding ArpMessage.parse ArpMessage.parse_addresses EthernetHeader.parse_address
    NetParser.parse_int NetParser.parse_loop NetParser.check_size
answer_read = refl

read_answer-IsArpMessage : IsArpMessage read_answer
read_answer-IsArpMessage = record {
  supports = refl;
  sender = record {
    byte0 = omega arith;
    byte1 = omega arith;
    byte2 = omega arith;
    byte3 = omega arith;
    byte4 = omega arith;
    byte5 = omega arith;
  };
  sender_ip = omega arith;
  target = record {
    byte0 = omega arith;
    byte1 = omega arith;
    byte2 = omega arith;
    byte3 = omega arith;
    byte4 = omega arith;
    byte5 = omega arith;
  };
  target_ip = omega arith;
}

-- One datagram waits for the gateway.
abbrev waiting : NetworkInterface
waiting = queued interface datagram gateway

waiting-IsInterface : IsInterface waiting
waiting-IsInterface = record {
  card = interface-IsInterface.card;
  ip = interface-IsInterface.ip;
  mappings = interface-IsInterface.mappings;
}

recv_frame-Received_example :
    (t : NetworkInterface) × (recv_frame waiting answer ≡ some (t, none))
    × Received waiting read_answer t
recv_frame-Received_example =
    recv_frame-Received answer waiting-IsInterface (unfold new in (datagram-IsDatagram, tt))
      (unfold new in refl) refl answer_read read_answer-IsArpMessage

-- In front of it another waits, for an address that is not known.
abbrev behind : NetworkInterface
behind = queued (queued interface datagram (from_ipv4_numeric 5)) datagram gateway

behind-IsInterface : IsInterface behind
behind-IsInterface = record {
  card = interface-IsInterface.card;
  ip = interface-IsInterface.ip;
  mappings = interface-IsInterface.mappings;
}

recv_frame_blocked_example :
    (t : NetworkInterface) × (recv_frame behind answer ≡ some (t, none))
    × (t.frames_waited ≡ behind.frames_waited)
    × ((fs : List EthernetFrame) × (t.frames_out ≡ behind.frames_out ++ fs)
        × Replied behind read_answer fs)
recv_frame_blocked_example =
    recv_frame_blocked answer datagram (from_ipv4_numeric 5) ((datagram, gateway) ∷ [])
      behind-IsInterface (unfold new in (datagram-IsDatagram, (datagram-IsDatagram, tt)))
      (unfold new in refl) refl answer_read read_answer-IsArpMessage (unfold new in refl)
      (unfold new find in refl) refl
