-- ===== src/NetworkInterface/Sending.antt =====
-- What an interface does with a datagram that it is to send.
use sponge.Prelude.{
  ℕ, ◌^◌, ◌<◌, ◌≡◌, refl, ap, ◌∙◌, List, [], ◌∷◌, ◌++◌, ◌⊎◌, inl, inr, none, some, Bytes, All,
  Option-cases, ◌==◌, Bool-cases, arith, subst,
}
use sponge.EthernetHeader.{EthernetAddress, ethernet_broadcast, type_ipv4, type_arp}
use sponge.EthernetHeader.RoundTrip.{IsAddress, parse-serialize_ethernet}
use sponge.EthernetFrame
use sponge.EthernetFrame.{EthernetFrame}
use sponge.ArpMessage
use sponge.ArpMessage.{ArpMessage, opcode_request, no_address}
use sponge.ArpMessage.RoundTrip.{IsArpMessage, parse-serialize_arp}
use sponge.Address.{Address}
use sponge.Ipv4Datagram
use sponge.Ipv4Datagram.{Ipv4Datagram}
use sponge.Ipv4Datagram.RoundTrip.{IsDatagram, parse-serialize_datagram}
use sponge.NetworkInterface.{
  NetworkInterface, find, set, push_frame, send_arp, send_frame, request, send_datagram,
  no_datagram,
}

-- The addresses are of bytes, and the interface's number of 32 bits.
pub record IsInterface (n : NetworkInterface) : Type 0 where
  pub card : IsAddress n.ethernet_address
  pub ip : n.ip_address.ipv4_numeric < 2 ^ 32
  pub mappings : All (λ e. IsAddress (e.1.0)) n.ip_map

pub find-All :
    {V : Type 0} (P : V → Type 0) (m : List (ℕ × V)) (k : ℕ) (v : V)
    → All (λ e. P (e.1)) m
    → find m k ≡ some v
    → P v
unfolding find
find-All P [] k v a e = absurd (ground arith)
find-All P ((key, w) ∷ rest) k v a e = elim (Bool-cases (key == k)) [
  | inl h ↦ subst P (ground (arith, h, e)) a.0
  | inr h ↦ find-All P rest k v a.1 (ground (arith, h, e))
]

-- The frame from the interface to an address.
abbrev pub frame_to : NetworkInterface → EthernetAddress → ℕ → Bytes → EthernetFrame
frame_to n dst type payload = record {
  header = record { dst = dst; src = n.ethernet_address; type = type };
  payload = payload;
}

pub push_frame_lem :
    (n : NetworkInterface) (dst : EthernetAddress) (type : ℕ) (payload : Bytes)
    → IsInterface n
    → IsAddress dst
    → type < 2 ^ 16
    → push_frame n dst type payload
      ≡ record n { frames_out = n.frames_out ++ frame_to n dst type payload ∷ [] }
unfolding push_frame EthernetFrame.parse
push_frame_lem n dst type payload v a h =
    rw
      (parse-serialize_ethernet (record { dst = dst; src = n.ethernet_address; type = type })
        (record { dst = no_address; src = no_address; type = 0 }) payload
        (record { dst = a; src = v.card; type = h }))
      refl

-- The datagram goes out in a frame, to the address that is known for the next hop.
pub record Sends (n : NetworkInterface) (dgram : Ipv4Datagram) (next_hop : Address)
    (t : NetworkInterface) : Type 0 where
  pub entry : EthernetAddress × ℕ
  pub known : find n.ip_map next_hop.ipv4_numeric ≡ some entry
  pub payload : Bytes
  pub written : Ipv4Datagram.serialize dgram ≡ some payload
  pub result :
      t ≡ record n { frames_out = n.frames_out ++ frame_to n entry.0 type_ipv4 payload ∷ [] }

-- The datagram waits.
abbrev pub queued : NetworkInterface → Ipv4Datagram → Address → NetworkInterface
queued n dgram next_hop = record n { frames_waited = n.frames_waited ++ (dgram, next_hop) ∷ [] }

-- The request for the address of the next hop.
abbrev pub question : NetworkInterface → ℕ → ArpMessage
question n ip = record ArpMessage.default {
  opcode = opcode_request;
  sender_ethernet_address = n.ethernet_address;
  sender_ip_address = n.ip_address.ipv4_numeric;
  target_ip_address = ip;
}

-- The datagram waits, and the next hop is asked for its address by a broadcast.
pub record Asks (n : NetworkInterface) (dgram : Ipv4Datagram) (next_hop : Address)
    (t : NetworkInterface) : Type 0 where
  pub payload : Bytes
  pub written : ArpMessage.serialize (question n next_hop.ipv4_numeric) ≡ some payload
  pub result : t ≡ record (queued n dgram next_hop) {
    frames_out = n.frames_out ++ frame_to n ethernet_broadcast type_arp payload ∷ [];
    arp_timer = set n.arp_timer next_hop.ipv4_numeric 0;
  }

question-IsArpMessage :
    (n : NetworkInterface) (ip : ℕ) → IsInterface n → ip < 2 ^ 32 → IsArpMessage (question n ip)
question-IsArpMessage n ip v h = record {
  supports = refl;
  sender = v.card;
  sender_ip = v.ip;
  target = record {
    byte0 = omega arith;
    byte1 = omega arith;
    byte2 = omega arith;
    byte3 = omega arith;
    byte4 = omega arith;
    byte5 = omega arith;
  };
  target_ip = h;
}

pub send_frame_lem :
    (n : NetworkInterface) (dgram : Ipv4Datagram) (dst : EthernetAddress) (s : Bytes)
    → Ipv4Datagram.serialize dgram ≡ some s
    → send_frame n dgram dst ≡ some (push_frame n dst type_ipv4 s)
unfolding send_frame
send_frame_lem n dgram dst s e = rw (e, send_frame) refl

send_arp_lem :
    (n : NetworkInterface) (ip : ℕ) (s : Bytes)
    → ArpMessage.serialize (question n ip) ≡ some s
    → send_arp n opcode_request ethernet_broadcast ip
      ≡ some (push_frame n ethernet_broadcast type_arp s)
unfolding send_arp
send_arp_lem n ip s e = rw (e, send_arp) refl

broadcast-IsAddress : IsAddress ethernet_broadcast
broadcast-IsAddress = record {
  byte0 = omega arith;
  byte1 = omega arith;
  byte2 = omega arith;
  byte3 = omega arith;
  byte4 = omega arith;
  byte5 = omega arith;
}

request-Asks :
    {n : NetworkInterface} (dgram : Ipv4Datagram) (next_hop : Address)
    → IsInterface n
    → next_hop.ipv4_numeric < 2 ^ 32
    → find n.arp_timer next_hop.ipv4_numeric ≡ none
    → (t : NetworkInterface) × (request (queued n dgram next_hop) next_hop.ipv4_numeric ≡ some t)
      × Asks n dgram next_hop t
unfolding request
request-Asks {n} dgram next_hop v h e =
    let u = queued n dgram next_hop in
    let w : IsInterface u = record { card = v.card; ip = v.ip; mappings = v.mappings } in
    let (s, written, back) =
      parse-serialize_arp (question n next_hop.ipv4_numeric) ArpMessage.default []
        (question-IsArpMessage n next_hop.ipv4_numeric v h) in
    let sent =
      send_arp_lem u next_hop.ipv4_numeric s written
      ∙ ap some
          (push_frame_lem u ethernet_broadcast type_arp s w broadcast-IsAddress (omega arith)) in
    (_, rw (e, sent, request) refl, record { payload = s; written = written; result = refl })

-- For an interface with hardware addresses of bytes and a 32-bit IP address, a datagram that is
-- in range and right in its lengths, and a next hop below 2 ^ 32, send_datagram has a defined
-- result. If the next hop's Ethernet address is known, one frame goes out to it, with the
-- datagram as it is written on the wire, and nothing else changes. If not, the datagram waits;
-- and if no request for that address is timed, one goes out as a broadcast and its timer starts
-- at 0, while otherwise nothing is sent.
pub send_datagram_lem :
    {n : NetworkInterface} (dgram : Ipv4Datagram) (next_hop : Address)
    → IsInterface n
    → IsDatagram dgram
    → next_hop.ipv4_numeric < 2 ^ 32
    → (t : NetworkInterface) × (send_datagram n dgram next_hop ≡ some t)
      × (Sends n dgram next_hop t
          ⊎ ((find n.ip_map next_hop.ipv4_numeric ≡ none)
              × ((((at : ℕ) × (find n.arp_timer next_hop.ipv4_numeric ≡ some at))
                    × (t ≡ queued n dgram next_hop))
                  ⊎ ((find n.arp_timer next_hop.ipv4_numeric ≡ none) × Asks n dgram next_hop t))))
unfolding send_datagram
send_datagram_lem {n} dgram next_hop v d h =
    elim (Option-cases (find n.ip_map next_hop.ipv4_numeric)) [
      | inr (entry, known) ↦
          let (s, c, written, head, back) = parse-serialize_datagram dgram d no_datagram in
          let mac =
            find-All (λ (e : EthernetAddress × ℕ). IsAddress (e.0)) n.ip_map next_hop.ipv4_numeric
              entry v.mappings known in
          let sent =
            send_frame_lem n dgram entry.0 s written
            ∙ ap some (push_frame_lem n entry.0 type_ipv4 s v mac (omega arith)) in
          (
            _,
            rw (known, send_datagram) sent,
            inl (record {
              entry = entry;
              known = known;
              payload = s;
              written = written;
              result = refl;
            }),
          )
      | inl unknown ↦ elim (Option-cases (find n.arp_timer next_hop.ipv4_numeric)) [
        | inr (at, asked) ↦ (
          queued n dgram next_hop,
          rw (unknown, send_datagram) (unfold request in rw (asked, request) refl),
          inr (unknown, inl ((at, asked), refl)),
        )
        | inl fresh ↦
            let (t, e, a) = request-Asks dgram next_hop v h fresh in
            (t, rw (unknown, send_datagram) e, inr (unknown, inr (fresh, a)))
      ]
    ]
