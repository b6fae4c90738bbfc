-- ===== src/NetworkInterface/Receiving.antt =====
-- What an interface does with an ARP message: `recv_frame` of network_interface.cc.
use sponge.Prelude.{
  ℕ, ◌≡◌, refl, ap, ◌∙◌, sym, subst, List, [], ◌∷◌, ◌++◌, append-nil, none, some, Bool, true, false,
  ◌&&◌, ◌||◌, not, All, ◌==◌, arith, if◌then◌else◌,
}
use sponge.NetParser.{ParseResult, no_error}
use sponge.EthernetHeader.{EthernetAddress, ethernet_broadcast, type_arp}
use sponge.EthernetHeader.RoundTrip.{IsAddress}
use sponge.EthernetFrame.{EthernetFrame}
use sponge.ArpMessage
use sponge.ArpMessage.{ArpMessage, opcode_request, opcode_reply}
use sponge.ArpMessage.RoundTrip.{IsArpMessage}
use sponge.Address.{Address}
use sponge.Ipv4Datagram.{Ipv4Datagram}
use sponge.Ipv4Datagram.RoundTrip.{IsDatagram}
use sponge.NetworkInterface.{NetworkInterface, find, set, learn, recv_arp, recv_frame, same_address}
use sponge.NetworkInterface.Sending.{IsInterface}
use sponge.NetworkInterface.Replying.{find-set, set-All, Replied, answered, silent, reply-Replied}
use sponge.NetworkInterface.Flushing.{Carried, Stopped, Flushed, carries, no_more, flush-Flushed}

-- The map with the address of the message's sender.
abbrev pub learned : NetworkInterface → ArpMessage → List (ℕ × (EthernetAddress × ℕ))
learned n m = set n.ip_map m.sender_ip_address (m.sender_ethernet_address, 0)

-- What an interface has done with a message.
pub record Received (n : NetworkInterface) (m : ArpMessage) (t : NetworkInterface) : Type 0 where
  pub known :
      (ip : ℕ)
      → find t.ip_map ip ≡ (
          if m.sender_ip_address == ip
          then some (m.sender_ethernet_address, 0)
          else find n.ip_map ip)
  pub replies : List EthernetFrame
  pub replied : Replied n m replies
  pub sent : List (Ipv4Datagram × Address)
  pub frames : List EthernetFrame
  pub carried : Carried n.ethernet_address t.ip_map sent frames
  pub split : n.frames_waited ≡ sent ++ t.frames_waited
  pub stopped : Stopped n.ethernet_address t.ip_map t.frames_waited
  pub rest : t ≡ record n {
    ip_map = t.ip_map;
    frames_out = n.frames_out ++ replies ++ frames;
    frames_waited = t.frames_waited;
  }

-- The interface when it has the address.
abbrev knowing : NetworkInterface → ArpMessage → NetworkInterface
knowing n m = record n { ip_map = learned n m }

Replied-knowing :
    {n : NetworkInterface} {m : ArpMessage} {fs : List EthernetFrame}
    → Replied (knowing n m) m fs
    → Replied n m fs
Replied-knowing (answered payload asked written) = answered payload asked written
Replied-knowing (silent other) = silent other

Received-of :
    {n : NetworkInterface} {m : ArpMessage} {replies : List EthernetFrame} {t : NetworkInterface}
    → Replied (knowing n m) m replies
    → Flushed (record (knowing n m) { frames_out = n.frames_out ++ replies }) n.frames_waited t
    → Received n m t
Received-of {n} {m} {replies} {t} r f =
    let same : t.ip_map ≡ learned n m = ap (λ (x : NetworkInterface). x.ip_map) f.result in
    record {
      known = λ ip.
          ap (λ q. find q ip) same
          ∙ find-set n.ip_map m.sender_ip_address (m.sender_ethernet_address, 0) ip;
      replies = replies;
      replied = Replied-knowing r;
      sent = f.sent;
      frames = f.frames;
      carried = subst (λ q. Carried n.ethernet_address q f.sent f.frames) (sym same) f.carried;
      split = f.split;
      stopped = subst (λ q. Stopped n.ethernet_address q t.frames_waited) (sym same) f.stopped;
      rest =
          f.result
          ∙ ap
              (λ mp. record n {
                ip_map = mp;
                frames_out = n.frames_out ++ replies ++ f.frames;
                frames_waited = t.frames_waited;
              })
              (sym same);
    }

recv_arp-Received :
    (n : NetworkInterface) (m : ArpMessage)
    → IsInterface n
    → All (λ e. IsDatagram (e.0)) n.frames_waited
    → IsArpMessage m
    → (t : NetworkInterface) × (recv_arp n m ≡ some t) × Received n m t
unfolding recv_arp learn
recv_arp-Received n m v d w =
    let l = knowing n m in
    let vl : IsInterface l = record {
      card = v.card;
      ip = v.ip;
      mappings =
          set-All (λ (e : EthernetAddress × ℕ). IsAddress (e.0)) n.ip_map m.sender_ip_address
            (m.sender_ethernet_address, 0) w.sender v.mappings;
    } in
    let (replies, e, r) = reply-Replied l m vl w in
    let l' = record l { frames_out = n.frames_out ++ replies } in
    let (t, e', f) =
      flush-Flushed l' n.frames_waited
        (record { card = vl.card; ip = vl.ip; mappings = vl.mappings }) d in
    (t, rw (e, recv_arp) e', Received-of r f)

-- The frame is for the interface, or for all.
abbrev pub for_us : NetworkInterface → EthernetFrame → Bool
for_us n frame =
    same_address frame.header.dst n.ethernet_address
    || same_address frame.header.dst ethernet_broadcast

taken : (a b : Bool) → (a || b) ≡ true → (not a && not b) ≡ false
taken a b h = ground arith

-- For an interface with hardware addresses of bytes and a 32-bit IP address, whose waiting
-- datagrams are in range and right in their lengths, and an ARP frame for it or for all, whose
-- payload is read without an error as a message with addresses in range: recv_frame has a defined
-- result and gives no datagram. After it the address of the message's sender is known, with age
-- 0, and the others as before; a request for the interface's own IP address is answered to its
-- sender, and nothing else is; then the waiting datagrams from the front of the queue go out in
-- order, each in a frame to the address of its next hop, up to the first whose next hop is not
-- known, and that one and those behind it wait on.
pub recv_frame-Received :
    {n : NetworkInterface} (frame : EthernetFrame) {m : ArpMessage}
    → IsInterface n
    → All (λ e. IsDatagram (e.0)) n.frames_waited
    → for_us n frame ≡ true
    → frame.header.type ≡ type_arp
    → ArpMessage.parse ArpMessage.default frame.payload ≡ (m, no_error)
    → IsArpMessage m
    → (t : NetworkInterface) × (recv_frame n frame ≡ some (t, none)) × Received n m t
unfolding recv_frame
recv_frame-Received {n} frame {m} v d ours type parsed w =
    let (t, e, r) = recv_arp-Received n m v d w in
    let handled = ap (λ (q : ArpMessage × ParseResult). recv_arp n (q.0)) parsed ∙ e in
    let read = ap (λ (q : ArpMessage × ParseResult). q.1) parsed in
    (
      t,
      rw (taken _ _ ours, recv_frame)
          (rw (type, recv_frame) (rw (read, recv_frame) (rw (handled, recv_frame) refl))),
      r,
    )

-- Behind a datagram that must wait, nothing is sent.
nothing-Carried :
    {card : EthernetAddress} {ip_map : List (ℕ × (EthernetAddress × ℕ))}
    {e : Ipv4Datagram × Address} {queue sent : List (Ipv4Datagram × Address)}
    {fs : List EthernetFrame} (left : List (Ipv4Datagram × Address))
    → Carried card ip_map sent fs
    → e ∷ queue ≡ sent ++ left
    → find ip_map (e.1.ipv4_numeric) ≡ none
    → (sent ≡ []) × (fs ≡ [])
nothing-Carried left no_more split unknown = (refl, refl)
nothing-Carried left (carries c more) split unknown =
    absurd (ground (arith, split, unknown, c.known))

-- For an interface with hardware addresses of bytes and a 32-bit IP address, whose waiting
-- datagrams are in range and right in their lengths, and an ARP frame for it or for all, whose
-- payload is read without an error as a message with addresses in range: recv_frame has a defined
-- result and gives no datagram; and if the first waiting datagram's next hop is not known and is
-- not the sender of the message, then no waiting datagram goes out and all still wait, also those
-- behind it whose next hop is the sender; only the reply to a request may go out.
pub recv_frame_blocked :
    {n : NetworkInterface} (frame : EthernetFrame) {m : ArpMessage} (dgram : Ipv4Datagram)
    (next_hop : Address) (queue : List (Ipv4Datagram × Address))
    → IsInterface n
    → All (λ e. IsDatagram (e.0)) n.frames_waited
    → for_us n frame ≡ true
    → frame.header.type ≡ type_arp
    → ArpMessage.parse ArpMessage.default frame.payload ≡ (m, no_error)
    → IsArpMessage m
    → n.frames_waited ≡ (dgram, next_hop) ∷ queue
    → find n.ip_map next_hop.ipv4_numeric ≡ none
    → (m.sender_ip_address == next_hop.ipv4_numeric) ≡ false
    → (t : NetworkInterface) × (recv_frame n frame ≡ some (t, none))
      × (t.frames_waited ≡ n.frames_waited)
      × ((fs : List EthernetFrame) × (t.frames_out ≡ n.frames_out ++ fs) × Replied n m fs)
recv_frame_blocked {n} frame {m} dgram next_hop queue v d ours type parsed w waits unknown other =
    let (t, e, r) = recv_frame-Received frame v d ours type parsed w in
    let still : find t.ip_map next_hop.ipv4_numeric ≡ none =
      r.known next_hop.ipv4_numeric ∙ ground (arith, unknown, other) in
    let (none_sent, no_frames) =
      nothing-Carried t.frames_waited r.carried (sym waits ∙ r.split) still in
    (
      t,
      e,
      sym (r.split ∙ ap (λ q. q ++ t.frames_waited) none_sent),
      (
        r.replies,
        ap (λ (x : NetworkInterface). x.frames_out) r.rest
            ∙ ap (λ q. n.frames_out ++ r.replies ++ q) no_frames
            ∙ append-nil (n.frames_out ++ r.replies),
        r.replied,
      ),
    )
