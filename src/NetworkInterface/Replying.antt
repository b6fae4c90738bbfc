-- ===== src/NetworkInterface/Replying.antt =====
-- What an interface replies to an ARP message, and the map of addresses: `recv_frame` of
-- network_interface.cc.
use sponge.Prelude.{
  ℕ, ◌≡◌, refl, ap, ◌∙◌, sym, List, [], ◌∷◌, ◌++◌, append-nil, inl, inr, some, Bool, true, false,
  ◌&&◌, All, ◌==◌, Bool-cases, arith, if◌then◌else◌, Bytes,
}
use sponge.EthernetHeader.{type_arp}
use sponge.EthernetFrame.{EthernetFrame}
use sponge.ArpMessage
use sponge.ArpMessage.{ArpMessage, opcode_request, opcode_reply}
use sponge.ArpMessage.RoundTrip.{IsArpMessage, parse-serialize_arp}
use sponge.NetworkInterface.{NetworkInterface, find, set, push_frame, send_arp, reply}
use sponge.NetworkInterface.Sending.{IsInterface, frame_to, push_frame_lem}

pub find-set :
    {V : Type 0} (m : List (ℕ × V)) (k : ℕ) (v : V) (at : ℕ)
    → find (set m k v) at ≡ (if k == at then some v else find m at)
unfolding find set
find-set [] k v at = refl
find-set ((key, w) ∷ rest) k v at = elim (Bool-cases (key == k)) [
  | inl same ↦ ground (arith, same)
  | inr other ↦ rw other (ground (arith, other, find-set rest k v at))
]

pub set-All :
    {V : Type 0} (P : V → Type 0) (m : List (ℕ × V)) (k : ℕ) (v : V)
    → P v
    → All (λ e. P (e.1)) m
    → All (λ e. P (e.1)) (set m k v)
unfolding set
set-All P [] k v p a = (p, tt)
set-All P ((key, w) ∷ rest) k v p a = elim (Bool-cases (key == k)) [
  | inl same ↦ rw same (p, a.1)
  | inr other ↦ rw other (a.0, set-All P rest k v p (a.1))
]

-- The message is a request for the address of the interface.
abbrev pub asks_for : NetworkInterface → ArpMessage → Bool
asks_for n m = m.opcode == opcode_request && m.target_ip_address == n.ip_address.ipv4_numeric

-- The reply to the sender of the message.
abbrev pub answer : NetworkInterface → ArpMessage → ArpMessage
answer n m = record ArpMessage.default {
  opcode = opcode_reply;
  sender_ethernet_address = n.ethernet_address;
  sender_ip_address = n.ip_address.ipv4_numeric;
  target_ethernet_address = m.sender_ethernet_address;
  target_ip_address = m.sender_ip_address;
}

pub data Replied (n : NetworkInterface) (m : ArpMessage) : List EthernetFrame → Type 0 where
  answered :
      (payload : Bytes)
      → asks_for n m ≡ true
      → ArpMessage.serialize (answer n m) ≡ some payload
      → Replied n m (frame_to n m.sender_ethernet_address type_arp payload ∷ [])
  silent : asks_for n m ≡ false → Replied n m []

answer-IsArpMessage :
    (n : NetworkInterface) (m : ArpMessage)
    → IsInterface n
    → IsArpMessage m
    → IsArpMessage (answer n m)
answer-IsArpMessage n m v w = record {
  supports = refl;
  sender = v.card;
  sender_ip = v.ip;
  target = w.sender;
  target_ip = w.sender_ip;
}

answer_sent :
    (n : NetworkInterface) (m : ArpMessage) (s : Bytes)
    → ArpMessage.serialize (answer n m) ≡ some s
    → send_arp n opcode_reply m.sender_ethernet_address m.sender_ip_address
      ≡ some (push_frame n m.sender_ethernet_address type_arp s)
unfolding send_arp
answer_sent n m s e = rw (e, send_arp) refl

pub reply-Replied :
    (n : NetworkInterface) (m : ArpMessage)
    → IsInterface n
    → IsArpMessage m
    → (fs : List EthernetFrame) × (reply n m ≡ some (record n { frames_out = n.frames_out ++ fs }))
      × Replied n m fs
unfolding reply
reply-Replied n m v w = elim (Bool-cases (asks_for n m)) [
  | inl asked ↦
      let (s, written, back) =
        parse-serialize_arp (answer n m) ArpMessage.default [] (answer-IsArpMessage n m v w) in
      (
        _,
        rw asked (
            answer_sent n m s written
            ∙ ap some
                (push_frame_lem n m.sender_ethernet_address type_arp s v w.sender (omega arith))),
        answered s asked written,
      )
  | inr other ↦ (
    [],
    rw other (ap (λ q. some (record n { frames_out = q })) (sym (append-nil n.frames_out))),
    silent other,
  )
]
