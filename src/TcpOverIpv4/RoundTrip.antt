-- ===== src/TcpOverIpv4/RoundTrip.antt =====
-- What one adapter wraps, another unwraps, libsponge/tcp_helpers/tcp_over_ip.cc.
use sponge.Prelude.{
  ℕ, ◌^◌, ◌≤◌, ◌<◌, ◌≡◌, ◌⊎◌, refl, ap, sym, ◌∙◌, subst, true, false, inl, inr, some, All, Bytes,
  length, arith,
}
use sponge.NetParser.{no_error}
use sponge.Address.{Address}
use sponge.InternetChecksum.Sum.{IsByte}
use sponge.TcpHeader.RoundTrip.{IsHeader}
use sponge.TcpSegment
use sponge.TcpSegment.{TcpSegment}
use sponge.TcpSegment.RoundTrip.{parse-serialize_segment, length-serialize}
use sponge.Ipv4Header.{Ipv4Header, pseudo_cksum}
use sponge.Ipv4Header.RoundTrip.{IsIpv4Header}
use sponge.Ipv4Datagram
use sponge.Ipv4Datagram.{Ipv4Datagram}
use sponge.Ipv4Datagram.RoundTrip.{IsDatagram, parse-serialize_datagram}
use sponge.FdAdapter.{FdAdapterBase, listening}
use sponge.TcpOverIpv4.{
  empty_segment, with_ports, wrapping_header, wrap_tcp_in_ip, unwrap_tcp_in_ip,
}
use sponge.TcpOverIpv4.Filter.{IsOurs, Opens, after, unwrap_tcp_in_ip-IsOurs}

-- An address in the range of its types.
pub record IsAddress (a : Address) : Type 0 where
  pub ip : a.ipv4_numeric < 2 ^ 32
  pub port : a.port < 2 ^ 16

pub record IsConfigured (a : FdAdapterBase) : Type 0 where
  pub source : IsAddress a.config.source
  pub destination : IsAddress a.config.destination

-- The adapter `b` takes what `a` sends: it listens on the port, or it is connected to `a`.
abbrev pub Accepting : FdAdapterBase → FdAdapterBase → TcpSegment → Type 0
Accepting a b seg =
    ((listening b ≡ true) × (b.config.source.port ≡ a.config.destination.port) × Opens seg)
    ⊎ ((listening b ≡ false)
        × (b.config.source ≡ a.config.destination)
        × (b.config.destination ≡ a.config.source))

pseudo_cksum-lt :
    (h : Ipv4Header) → h.src < 2 ^ 32 → h.dst < 2 ^ 32 → h.proto < 2 ^ 8 → pseudo_cksum h < 2 ^ 20
unfolding pseudo_cksum
pseudo_cksum-lt h src dst proto = omega arith

-- The checksum field of the datagram is no part of the pseudo-checksum.
pseudo_cksum-cksum :
    (h : Ipv4Header) (c : ℕ) → pseudo_cksum (record h { cksum = c }) ≡ pseudo_cksum h
unfolding pseudo_cksum
pseudo_cksum-cksum h c = refl

IsHeader-with_ports :
    (a : FdAdapterBase) (seg : TcpSegment)
    → IsConfigured a
    → IsHeader seg.header
    → IsHeader (with_ports a seg).header
IsHeader-with_ports a seg c v = record {
  sport = c.source.port;
  dport = c.destination.port;
  seqno = v.seqno;
  ackno = v.ackno;
  doff_min = v.doff_min;
  doff_max = v.doff_max;
  win = v.win;
  cksum = v.cksum;
  uptr = v.uptr;
}

module _ (a : FdAdapterBase) (seg : TcpSegment) (conf : IsConfigured a) (v : IsHeader seg.header)
    (b : All IsByte seg.payload) (short : length seg.payload ≤ 65000) where
  abbrev header : Ipv4Header
  header = wrapping_header a (with_ports a seg)

  header-IsIpv4Header : IsIpv4Header header
  header-IsIpv4Header = record {
    ver = refl;
    hlen_min = omega arith;
    hlen_max = omega arith;
    tos = omega arith;
    len = omega arith;
    id = omega arith;
    offset = omega arith;
    ttl = omega arith;
    proto = omega arith;
    cksum = omega arith;
    src = conf.source.ip;
    dst = conf.destination.ip;
  }

  abbrev pseudo : ℕ
  pseudo = pseudo_cksum header

  pseudo-lt : pseudo < 2 ^ 20
  pseudo-lt = pseudo_cksum-lt header conf.source.ip conf.destination.ip (omega arith)

  sent :
      (s : Bytes) × (c : ℕ) × (TcpSegment.serialize (with_ports a seg) pseudo ≡ some s)
      × (TcpSegment.parse empty_segment s pseudo
          ≡ (record seg { header = record ((with_ports a seg).header) { cksum = c } }, no_error))
  sent =
      parse-serialize_segment (with_ports a seg) pseudo (IsHeader-with_ports a seg conf v) b
        pseudo-lt short empty_segment

  wrapped-IsDatagram :
      (s : Bytes)
      → TcpSegment.serialize (with_ports a seg) pseudo ≡ some s
      → IsDatagram (record { header = header; payload = s })
  wrapped-IsDatagram s e = record {
    header = header-IsIpv4Header;
    total = omega (
      arith,
      length-serialize (with_ports a seg) pseudo (IsHeader-with_ports a seg conf v) b pseudo-lt
          short s e,
      v.doff_max,
    );
  }

  wrapped :
      (s : Bytes)
      → TcpSegment.serialize (with_ports a seg) pseudo ≡ some s
      → wrap_tcp_in_ip a seg ≡ (with_ports a seg, some (record { header = header; payload = s }))
  unfolding wrap_tcp_in_ip
  wrapped s e = rw (e, wrap_tcp_in_ip) refl

-- The adapter is connected: it talks to the other's address from the address the other talks to.
pub record IsConnectedTo (a b : FdAdapterBase) : Type 0 where
  pub source : b.config.source ≡ a.config.destination
  pub destination : b.config.destination ≡ a.config.source
  pub connected : listening b ≡ false

-- The segment as it arrives: with the ports of `a`, and a checksum.
abbrev pub arriving : FdAdapterBase → TcpSegment → ℕ → TcpSegment
arriving a seg c = record seg { header = record ((with_ports a seg).header) { cksum = c } }

abbrev pub with_cksum : Ipv4Datagram → ℕ → Ipv4Datagram
with_cksum d k = record d { header = record (d.header) { cksum = k } }

pub record Delivered (a b : FdAdapterBase) (seg : TcpSegment) (before : Ipv4Datagram) : Type 0 where
  pub dgram : Ipv4Datagram
  pub bytes : Bytes
  pub tcp_cksum : ℕ
  pub ip_cksum : ℕ
  pub wrapped : wrap_tcp_in_ip a seg ≡ (with_ports a seg, some dgram)
  pub valid : IsDatagram dgram
  pub written : Ipv4Datagram.serialize dgram ≡ some bytes
  pub read : Ipv4Datagram.parse before bytes ≡ (with_cksum dgram ip_cksum, no_error)
  pub taken : (unwrap_tcp_in_ip b (with_cksum dgram ip_cksum)).1 ≡ some (arriving a seg tcp_cksum)
  pub connected : IsConnectedTo a (unwrap_tcp_in_ip b (with_cksum dgram ip_cksum)).0

arrived-IsOurs :
    (a b : FdAdapterBase) (seg : TcpSegment) (s : Bytes) (c k : ℕ)
    → Accepting a b seg
    → TcpSegment.parse empty_segment s (pseudo_cksum (wrapping_header a (with_ports a seg)))
      ≡ (arriving a seg c, no_error)
    → IsOurs b
        (with_cksum (record { header = wrapping_header a (with_ports a seg); payload = s }) k)
        (arriving a seg c)
arrived-IsOurs a b seg s c k acc e = record {
  proto = refl;
  parsed =
      ap (TcpSegment.parse empty_segment s)
        (pseudo_cksum-cksum (wrapping_header a (with_ports a seg)) k)
      ∙ e;
  dport = elim acc [ inl (_, p, _) ↦ sym p | inr (_, p, _) ↦ ap (λ x. x.port) (sym p) ];
  state = elim acc [
    | inl (l, _, o) ↦ inl (l, o)
    | inr (l, p, q) ↦ inr (
      l,
      record {
        dst = ap (λ x. x.ipv4_numeric) (sym p);
        src = ap (λ x. x.ipv4_numeric) (sym q);
        sport = ap (λ x. x.port) (sym q);
      },
    )
  ];
}

after-IsConnectedTo :
    (a b : FdAdapterBase) (seg : TcpSegment) (s : Bytes) (c k : ℕ)
    → Accepting a b seg
    → IsConnectedTo a (
        after b
          (with_cksum (record { header = wrapping_header a (with_ports a seg); payload = s }) k)
          (arriving a seg c))
after-IsConnectedTo a b seg s c k (inl (l, p, _)) =
    rw l (record { source = ground arith; destination = refl; connected = refl })
after-IsConnectedTo a b seg s c k (inr (l, p, q)) =
    rw l (record { source = p; destination = q; connected = refl })

-- For an adapter with addresses in range, a segment with header fields in range and at most 65000
-- bytes of payload, and another adapter that is connected to it, or listens on the port if the
-- segment has SYN and not RST: the segment is wrapped in a datagram that is valid, is written,
-- and is read back without an error whatever was held before, but for its checksum; the other
-- adapter unwraps from it the segment with the sender's ports and some checksum, and is connected
-- to the sender afterwards.
pub unwrap_tcp_in_ip-wrap_tcp_in_ip :
    (a b : FdAdapterBase) (seg : TcpSegment) (before : Ipv4Datagram)
    → IsConfigured a
    → IsHeader seg.header
    → All IsByte seg.payload
    → length seg.payload ≤ 65000
    → Accepting a b seg
    → Delivered a b seg before
unwrap_tcp_in_ip-wrap_tcp_in_ip a b seg before conf v bytes short acc =
    let (s, c, e, p) = sent a seg conf v bytes short in
    let dgram : Ipv4Datagram = record {
      header = wrapping_header a (with_ports a seg);
      payload = s;
    } in
    let (out, k, w, _, r) =
      parse-serialize_datagram dgram (wrapped-IsDatagram a seg conf v bytes short s e) before in
    let got =
      unwrap_tcp_in_ip-IsOurs b (with_cksum dgram k) (arriving a seg c)
        (arrived-IsOurs a b seg s c k acc p) in
    record {
      dgram = dgram;
      bytes = out;
      tcp_cksum = c;
      ip_cksum = k;
      wrapped = wrapped a seg conf v bytes short s e;
      valid = wrapped-IsDatagram a seg conf v bytes short s e;
      written = w;
      read = r;
      taken = ap (λ (_, o). o) got;
      connected =
          subst (λ (b', _). IsConnectedTo a b') (sym got) (after-IsConnectedTo a b seg s c k acc);
    }
