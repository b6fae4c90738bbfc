-- ===== src/TcpOverIpv4/Filter.antt =====
-- Which datagrams reach the connection, libsponge/tcp_helpers/tcp_over_ip.cc.
use sponge.Prelude.{
  ◌≡◌, refl, ◌⊎◌, ap, sym, ◌∙◌, subst, ==_iff, true, false, not, ◌&&◌, Bool-cases, inl, inr, Option,
  none, some, ◌==◌, if◌then◌else◌, arith,
}
use sponge.NetParser.{ParseResult, no_error, is_no_error}
use sponge.TcpSegment
use sponge.TcpSegment.{TcpSegment}
use sponge.Ipv4Header.{pseudo_cksum}
use sponge.Ipv4Datagram.{Ipv4Datagram}
use sponge.FdAdapter.{FdAdapterBase, listening}
use sponge.TcpOverIpv4.{empty_segment, proto_tcp, learn, unwrap_segment, unwrap_tcp_in_ip}

-- What a listening adapter takes, and what a connected one takes.
abbrev pub Opens : TcpSegment → Type 0
Opens seg = (seg.header.syn ≡ true) × (seg.header.rst ≡ false)

pub record IsPeers (a : FdAdapterBase) (d : Ipv4Datagram) (seg : TcpSegment) : Type 0 where
  pub dst : d.header.dst ≡ a.config.source.ipv4_numeric
  pub src : d.header.src ≡ a.config.destination.ipv4_numeric
  pub sport : seg.header.sport ≡ a.config.destination.port

-- The datagram holds the segment, it is for our port, and it opens a connection or comes from the
-- peer.
pub record IsOurs (a : FdAdapterBase) (d : Ipv4Datagram) (seg : TcpSegment) : Type 0 where
  pub proto : d.header.proto ≡ proto_tcp
  pub parsed : TcpSegment.parse empty_segment d.payload (pseudo_cksum d.header) ≡ (seg, no_error)
  pub dport : seg.header.dport ≡ a.config.source.port
  pub state : ((listening a ≡ true) × Opens seg) ⊎ ((listening a ≡ false) × IsPeers a d seg)

-- The adapter after a segment: it has learnt its addresses, if it was listening.
abbrev pub after : FdAdapterBase → Ipv4Datagram → TcpSegment → FdAdapterBase
after a d seg = if listening a then learn a d seg else a

data Handled (a : FdAdapterBase) (d : Ipv4Datagram)
    : FdAdapterBase × Option TcpSegment → Type 0 where
  handled : (seg : TcpSegment) → IsOurs a d seg → Handled a d (after a d seg, some seg)
  ignored : ((seg : TcpSegment) → ¬ IsOurs a d seg) → Handled a d (a, none)

-- A listening adapter has become one that is connected to the sender of the segment: it no longer
-- listens, its own address is the one the datagram was sent to, with the port it had, and its
-- peer's is the one the datagram and the segment came from. The loss rates are the same.
pub record Connected (a : FdAdapterBase) (d : Ipv4Datagram) (seg : TcpSegment) (b : FdAdapterBase)
    : Type 0 where
  pub stopped : b.listen ≡ false
  pub own_address : b.config.source.ipv4_numeric ≡ d.header.dst
  pub own_port : b.config.source.port ≡ a.config.source.port
  pub peer_address : b.config.destination.ipv4_numeric ≡ d.header.src
  pub peer_port : b.config.destination.port ≡ seg.header.sport
  pub loss_rate_dn : b.config.loss_rate_dn ≡ a.config.loss_rate_dn
  pub loss_rate_up : b.config.loss_rate_up ≡ a.config.loss_rate_up

pub data Unwrapped (a : FdAdapterBase) (d : Ipv4Datagram)
    : FdAdapterBase × Option TcpSegment → Type 0 where
  opened :
      (b : FdAdapterBase) (seg : TcpSegment)
      → IsOurs a d seg
      → a.listen ≡ true
      → Connected a d seg b
      → Unwrapped a d (b, some seg)
  taken : (seg : TcpSegment) → IsOurs a d seg → a.listen ≡ false → Unwrapped a d (a, some seg)
  dropped : ((seg : TcpSegment) → ¬ IsOurs a d seg) → Unwrapped a d (a, none)

module _ (a : FdAdapterBase) (d : Ipv4Datagram) (seg : TcpSegment)
    (parsed : TcpSegment.parse empty_segment d.payload (pseudo_cksum d.header)
      ≡ (seg, no_error)) where
  -- The segment of the datagram is the one that was parsed.
  same : (other : TcpSegment) → IsOurs a d other → other ≡ seg
  same other o = ap (λ (s, _). s) (sym o.parsed ∙ parsed)

  other_port :
      ¬ (seg.header.dport ≡ a.config.source.port) → (other : TcpSegment) → ¬ IsOurs a d other
  other_port h other o = h (ap (λ s. s.header.dport) (sym (same other o)) ∙ o.dport)

  not_opening : listening a ≡ true → ¬ Opens seg → (other : TcpSegment) → ¬ IsOurs a d other
  not_opening l h other o = elim o.state [
    | inl (_, opens) ↦ h (subst Opens (same other o) opens)
    | inr (l', _) ↦ ground arith
  ]

  not_peers : listening a ≡ false → ¬ IsPeers a d seg → (other : TcpSegment) → ¬ IsOurs a d other
  not_peers l h other o = elim o.state [
    | inl (l', _) ↦ ground arith
    | inr (_, p) ↦ h (subst (IsPeers a d) (same other o) p)
  ]

  unwrap_segment_opening :
      d.header.proto ≡ proto_tcp
      → seg.header.dport ≡ a.config.source.port
      → listening a ≡ true
      → Handled a d (unwrap_segment a d seg)
  unfolding unwrap_segment
  unwrap_segment_opening proto port l = elim (Bool-cases (seg.header.syn && not seg.header.rst)) [
    | inl opens ↦
        let ours : IsOurs a d seg = record {
          proto = proto;
          parsed = parsed;
          dport = port;
          state = inl (l, (ground arith, ground arith));
        } in
        subst (Handled a d) (ground arith) (handled seg ours)
    | inr no_open ↦ subst (Handled a d) (ground arith) (ignored (not_opening l (λ o. ground arith)))
  ]

  unwrap_segment_connected :
      d.header.proto ≡ proto_tcp
      → seg.header.dport ≡ a.config.source.port
      → listening a ≡ false
      → d.header.dst ≡ a.config.source.ipv4_numeric
      → d.header.src ≡ a.config.destination.ipv4_numeric
      → Handled a d (unwrap_segment a d seg)
  unfolding unwrap_segment
  unwrap_segment_connected proto port l dst src =
      elim (Bool-cases (seg.header.sport == a.config.destination.port)) [
        | inl e ↦
            let ours : IsOurs a d seg = record {
              proto = proto;
              parsed = parsed;
              dport = port;
              state = inr (l, record { dst = dst; src = src; sport = (==_iff _ _).0 e });
            } in
            subst (Handled a d) (ground arith) (handled seg ours)
        | inr e ↦
            subst (Handled a d) (ground arith)
              (ignored (not_peers l (λ p. ground (arith, p.sport))))
      ]

  unwrap_segment-Handled :
      d.header.proto ≡ proto_tcp
      → (listening a ≡ true)
        ⊎ ((listening a ≡ false)
            × (d.header.dst ≡ a.config.source.ipv4_numeric)
            × (d.header.src ≡ a.config.destination.ipv4_numeric))
      → Handled a d (unwrap_segment a d seg)
  unwrap_segment-Handled proto h = elim (Bool-cases (seg.header.dport == a.config.source.port)) [
    | inl e ↦ elim h [
      | inl l ↦ unwrap_segment_opening proto ((==_iff _ _).0 e) l
      | inr (l, dst, src) ↦ unwrap_segment_connected proto ((==_iff _ _).0 e) l dst src
    ]
    | inr e ↦
        subst (Handled a d) {x = (a, none)} (unfold unwrap_segment in ground arith)
          (ignored (other_port (λ p. ground arith)))
  ]

module _ (a : FdAdapterBase) (d : Ipv4Datagram) where
  not_parsed :
      is_no_error (TcpSegment.parse empty_segment d.payload (pseudo_cksum d.header)).1 ≡ false
      → (seg : TcpSegment) → ¬ IsOurs a d seg
  not_parsed h seg o = ground (arith, ap (λ (_, r). is_no_error r) o.parsed)

  no_error_of : (r : ParseResult) → is_no_error r ≡ true → r ≡ no_error
  no_error_of r h = ground arith

  reaches_segment :
      d.header.proto ≡ proto_tcp
      → (listening a ≡ true)
        ⊎ ((listening a ≡ false)
            × (d.header.dst ≡ a.config.source.ipv4_numeric)
            × (d.header.src ≡ a.config.destination.ipv4_numeric))
      → Handled a d (unwrap_tcp_in_ip a d)
  unfolding unwrap_tcp_in_ip
  reaches_segment proto h =
      let p = TcpSegment.parse empty_segment d.payload (pseudo_cksum d.header) in
      elim (Bool-cases (is_no_error p.1)) [
        | inl ok ↦
            let e : (p.1 ≡ no_error) = no_error_of p.1 ok in
            subst (Handled a d) (ground arith)
              (unwrap_segment-Handled a d p.0 (ap (λ r. (p.0, r)) e) proto h)
        | inr bad ↦ subst (Handled a d) (ground arith) (ignored (not_parsed bad))
      ]

  unwrap_tcp_in_ip-Handled : Handled a d (unwrap_tcp_in_ip a d)
  unfolding unwrap_tcp_in_ip
  unwrap_tcp_in_ip-Handled = elim (Bool-cases (d.header.proto == proto_tcp)) [
    | inl tcp ↦ elim (Bool-cases (listening a)) [
      | inl l ↦ reaches_segment ((==_iff _ _).0 tcp) (inl l)
      | inr l ↦
          elim (Bool-cases (
            d.header.dst == a.config.source.ipv4_numeric
            && d.header.src == a.config.destination.ipv4_numeric)) [
              | inl e ↦ reaches_segment ((==_iff _ _).0 tcp) (inr (l, ground arith, ground arith))
              | inr e ↦ subst (Handled a d) (ground arith) (
                  ignored (λ seg o. elim o.state [
                    | inl (l', _) ↦ ground arith
                    | inr (_, p) ↦ ground (arith, p.dst, p.src)
                  ]))
            ]
    ]
    | inr other ↦ subst (Handled a d) (ground arith) (ignored (λ seg o. ground (arith, o.proto)))
  ]

  taken_of :
      {r : FdAdapterBase × Option TcpSegment} (seg : TcpSegment)
      → IsOurs a d seg
      → Handled a d r
      → r ≡ (after a d seg, some seg)
  taken_of seg o (handled seg' o') = ap (λ s. (after a d s, some s)) (same a d seg o.parsed seg' o')
  taken_of seg o (ignored other) = absurd (other seg o)

  -- A segment that is ours is taken.
  pub unwrap_tcp_in_ip-IsOurs :
      (seg : TcpSegment) → IsOurs a d seg → unwrap_tcp_in_ip a d ≡ (after a d seg, some seg)
  unwrap_tcp_in_ip-IsOurs seg o = taken_of seg o unwrap_tcp_in_ip-Handled

  after-Unwrapped : (seg : TcpSegment) → IsOurs a d seg → Unwrapped a d (after a d seg, some seg)
  after-Unwrapped seg o = elim (Bool-cases (listening a)) [
    | inl l ↦ subst (Unwrapped a d) (ground arith) (
        opened (learn a d seg) seg o l (record {
          stopped = refl;
          own_address = refl;
          own_port = refl;
          peer_address = refl;
          peer_port = refl;
          loss_rate_dn = refl;
          loss_rate_up = refl;
        }))
    | inr l ↦ subst (Unwrapped a d) (ground arith) (taken seg o l)
  ]

  Unwrapped-Handled : {r : FdAdapterBase × Option TcpSegment} → Handled a d r → Unwrapped a d r
  Unwrapped-Handled (handled seg o) = after-Unwrapped seg o
  Unwrapped-Handled (ignored other) = dropped other

  -- For every adapter and datagram: unwrap_tcp_in_ip takes the segment of a datagram that claims
  -- to be TCP, parses without an error, is for the adapter's port, and, if the adapter listens,
  -- has SYN and not RST, or else comes from the peer's address and port to the adapter's address;
  -- a listening adapter then no longer listens, its own address is the one that the datagram was
  -- sent to, with the port that it had, its peer's are the address and port that the segment came
  -- from, and its loss rates are the same; a connected one is unchanged. If no segment meets
  -- these conditions, nothing is returned and the adapter is unchanged.
  pub unwrap_tcp_in_ip-Unwrapped : Unwrapped a d (unwrap_tcp_in_ip a d)
  unwrap_tcp_in_ip-Unwrapped = Unwrapped-Handled unwrap_tcp_in_ip-Handled
