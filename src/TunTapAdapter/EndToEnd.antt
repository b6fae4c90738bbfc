-- ===== src/TunTapAdapter/EndToEnd.antt =====
-- A segment's way from one Ethernet adapter to another, libsponge/tcp_helpers/tuntap_adapter.cc.
use sponge.Prelude.{
  ℕ, ◌^◌, ◌<◌, ◌≤◌, ◌≡◌, refl, ap, sym, ◌∙◌, true, inl, inr, [], ◌∷◌, ◌++◌, some, All, Bytes,
  length, eq_of_some, arith,
}
use sponge.NetParser.{no_error}
use sponge.Address.{Address}
use sponge.InternetChecksum.Sum.{IsByte}
use sponge.TcpHeader.RoundTrip.{IsHeader}
use sponge.TcpSegment.{TcpSegment}
use sponge.Ipv4Datagram
use sponge.Ipv4Datagram.{Ipv4Datagram}
use sponge.Ipv4Datagram.RoundTrip.{IsDatagram}
use sponge.EthernetHeader.{EthernetAddress, type_ipv4}
use sponge.EthernetHeader.RoundTrip.{IsAddress, parse-serialize_ethernet}
use sponge.EthernetFrame
use sponge.EthernetFrame.{EthernetFrame}
use sponge.NetworkInterface
use sponge.NetworkInterface.{NetworkInterface, find, no_datagram, no_frame, recv_ipv4, same_address}
use sponge.NetworkInterface.Sending.{IsInterface, frame_to, send_datagram_lem}
use sponge.TcpOverIpv4.{unwrap_tcp_in_ip, wrap_tcp_in_ip}
use sponge.TcpOverIpv4.RoundTrip.{
  IsConfigured, Accepting, IsConnectedTo, arriving, with_cksum, unwrap_tcp_in_ip-wrap_tcp_in_ip,
}
use sponge.TunTapAdapter.{Device, OverEthernet, send_frames, send_pending, send_from, read, write}

-- A frame with addresses of bytes is read back from the wire.
frame_back :
    (f : EthernetFrame)
    → IsAddress f.header.dst
    → IsAddress f.header.src
    → f.header.type < 2 ^ 16
    → EthernetFrame.parse no_frame (EthernetFrame.serialize f) ≡ (f, no_error)
unfolding EthernetFrame.parse EthernetFrame.serialize
frame_back f d s t =
    rw
      (parse-serialize_ethernet f.header no_frame.header f.payload
        (record { dst = d; src = s; type = t }))
      refl

same_address_self : (a : EthernetAddress) → same_address a a ≡ true
same_address_self a = ground arith

recv_ipv4_lem :
    (f : EthernetFrame) (d : Ipv4Datagram)
    → Ipv4Datagram.parse no_datagram f.payload ≡ (d, no_error)
    → recv_ipv4 f ≡ some d
unfolding recv_ipv4
recv_ipv4_lem f d e = rw (ap (λ p. p.1) e, recv_ipv4) (ap (λ p. some (p.0)) e)

-- A frame to the interface hands over the datagram that it carries.
recv_frame-ipv4 :
    (n : NetworkInterface) (f : EthernetFrame) (d : Ipv4Datagram)
    → f.header.dst ≡ n.ethernet_address
    → f.header.type ≡ type_ipv4
    → Ipv4Datagram.parse no_datagram f.payload ≡ (d, no_error)
    → NetworkInterface.recv_frame n f ≡ some (n, some d)
unfolding NetworkInterface.recv_frame recv_ipv4
recv_frame-ipv4 n f d to ip e =
    let own : same_address f.header.dst n.ethernet_address ≡ true =
      ap (λ x. same_address x n.ethernet_address) to ∙ same_address_self n.ethernet_address in
    rw (own, NetworkInterface.recv_frame)
      (rw (ip, NetworkInterface.recv_frame) (ap (λ o. some (n, o)) (recv_ipv4_lem f d e)))

-- What `send_datagram` does when the next hop is known.
sends_known :
    (n : NetworkInterface) (d : Ipv4Datagram) (next_hop : Address) (entry : EthernetAddress × ℕ)
    → IsInterface n
    → IsDatagram d
    → next_hop.ipv4_numeric < 2 ^ 32
    → find n.ip_map next_hop.ipv4_numeric ≡ some entry
    → (payload : Bytes) × (Ipv4Datagram.serialize d ≡ some payload)
      × (NetworkInterface.send_datagram n d next_hop
          ≡ some
              (record n { frames_out = n.frames_out ++ frame_to n entry.0 type_ipv4 payload ∷ [] }))
sends_known n d next_hop entry v w h known =
    let (t, e, cases) = send_datagram_lem {n = n} d next_hop v w h in
    elim cases [
      | inl s ↦ (
        s.payload,
        s.written,
        e
            ∙ ap some s.result
            ∙ ap
                (λ x.
                  some (record n {
                    frames_out = n.frames_out ++ frame_to n x type_ipv4 s.payload ∷ [];
                  }))
                (ap (λ x. x.0) (eq_of_some (sym s.known ∙ known))),
      )
      | inr (unknown, _) ↦ absurd (ground arith)
    ]

module _ {K : Type 0} (device : Device K) where
  -- What goes out of an adapter whose interface has made one frame.
  send_one :
      (a : OverEthernet K) (n : NetworkInterface) (f : EthernetFrame) (tap : K)
      → n.frames_out ≡ f ∷ []
      → device.write_bytes a.tap (EthernetFrame.serialize f) ≡ some tap
      → send_from device a (some n)
        ≡ some (record a { tap = tap; interface = record n { frames_out = [] } })
  unfolding send_pending send_frames
  send_one a n f tap e w = rw (e, send_pending) (rw (w, send_frames) refl)

  send_none : (a : OverEthernet K) → a.interface.frames_out ≡ [] → send_pending device a ≡ some a
  unfolding send_pending send_frames
  send_none a e = rw (e, send_pending) refl

module _ {K : Type 0} (device : Device K) (wire : K → K) where
  -- Writes succeed, and the other end of the wire reads what was written.
  abbrev pub Carries : Type 0
  Carries =
      (k : K) (bytes : Bytes)
      → (k' : K) × (rest : K) × (device.write_bytes k bytes ≡ some k')
        × (device.read_bytes (wire k') ≡ some (rest, bytes))

  -- `a` writes the segment, and `b` reads it from the other end and is connected.
  pub record Carried (a b : OverEthernet K) (seg : TcpSegment) : Type 0 where
    pub a' : OverEthernet K
    pub b' : OverEthernet K
    pub tcp_cksum : ℕ
    pub writes : write device a seg ≡ some a'
    pub reads :
        read device (record b { tap = wire a'.tap })
        ≡ some (b', some (arriving a.base seg tcp_cksum))
    pub connected : IsConnectedTo a.base b'.base

  -- The frame that is read, when the datagram in it is taken.
  read_frame :
      (b : OverEthernet K) (rest : K) (f : EthernetFrame) (d : Ipv4Datagram) (seg : TcpSegment)
      → device.read_bytes b.tap ≡ some (rest, EthernetFrame.serialize f)
      → EthernetFrame.parse no_frame (EthernetFrame.serialize f) ≡ (f, no_error)
      → NetworkInterface.recv_frame b.interface f ≡ some (b.interface, some d)
      → b.interface.frames_out ≡ []
      → (unwrap_tcp_in_ip b.base d).1 ≡ some seg
      → read device b
        ≡ some (record b { tap = rest; base = (unwrap_tcp_in_ip b.base d).0 }, some seg)
  unfolding read
  read_frame b rest f d seg r p h e u =
      rw (r, read) (rw (p) (rw (h, send_none device (record b { tap = rest }) e, u) refl))

module _ {K : Type 0} (device : Device K) (wire : K → K) (a b : OverEthernet K) (seg : TcpSegment)
    (link : Carries device wire) where
  write_one :
      (dgram : Ipv4Datagram) (f : EthernetFrame) (tap : K) (n : NetworkInterface)
      → (wrap_tcp_in_ip a.base seg).1 ≡ some dgram
      → NetworkInterface.send_datagram a.interface dgram a.next_hop ≡ some n
      → n.frames_out ≡ f ∷ []
      → device.write_bytes a.tap (EthernetFrame.serialize f) ≡ some tap
      → write device a seg ≡ some (record a { tap = tap; interface = record n { frames_out = [] } })
  unfolding write
  write_one dgram f tap n w s o t = rw (w, s) (send_one device a n f tap o t)

  -- For two Ethernet adapters on a wire whose writes succeed and are what the other end reads
  -- next, with configured addresses in range, no frames that wait, and a sender that knows the
  -- receiver's Ethernet address for its next hop, and a segment with header fields in range and
  -- at most 65000 bytes of payload: the write of the segment succeeds, and the read at the other
  -- end gives the segment with the ports of the sender and some checksum, if the receiver is
  -- connected to the sender, or if it listens on the port and the segment has SYN and not RST.
  -- After it the receiver is connected to the sender.
  pub read-write_ethernet :
      IsConfigured a.base
      → IsHeader seg.header
      → All IsByte seg.payload
      → length seg.payload ≤ 65000
      → Accepting a.base b.base seg
      → IsInterface a.interface
      → IsAddress b.interface.ethernet_address
      → a.next_hop.ipv4_numeric < 2 ^ 32
      → (age : ℕ)
      → find a.interface.ip_map a.next_hop.ipv4_numeric ≡ some (b.interface.ethernet_address, age)
      → a.interface.frames_out ≡ []
      → b.interface.frames_out ≡ []
      → Carried device wire a b seg
  read-write_ethernet conf head bytes short acc v w hop age known idle_a idle_b =
      let d =
        unwrap_tcp_in_ip-wrap_tcp_in_ip a.base b.base seg no_datagram conf head bytes short acc in
      let (payload, written, sent) =
        sends_known a.interface d.dgram a.next_hop (b.interface.ethernet_address, age) v d.valid hop
          known in
      let f = frame_to a.interface b.interface.ethernet_address type_ipv4 payload in
      let n : NetworkInterface = record (a.interface) {
        frames_out = a.interface.frames_out ++ f ∷ [];
      } in
      let (tap, rest, out, back) = link a.tap (EthernetFrame.serialize f) in
      let parsed : Ipv4Datagram.parse no_datagram payload
          ≡ (with_cksum d.dgram d.ip_cksum, no_error) =
        ap (Ipv4Datagram.parse no_datagram) (eq_of_some (sym written ∙ d.written)) ∙ d.read in
      record {
        a' = record a { tap = tap; interface = record n { frames_out = [] } };
        b' = record b {
          tap = rest;
          base = (unwrap_tcp_in_ip b.base (with_cksum d.dgram d.ip_cksum)).0;
        };
        tcp_cksum = d.tcp_cksum;
        writes =
            write_one d.dgram f tap n (ap (λ (_, o). o) d.wrapped) sent
              (ap (λ l. l ++ f ∷ []) idle_a) out;
        reads =
            read_frame device wire (record b { tap = wire tap }) rest f
              (with_cksum d.dgram d.ip_cksum) (arriving a.base seg d.tcp_cksum) back
              (frame_back f w v.card (omega arith))
              (recv_frame-ipv4 b.interface f (with_cksum d.dgram d.ip_cksum) refl refl parsed)
              idle_b d.taken;
        connected = d.connected;
      }
