-- ===== src/FdAdapter/OverUdp.antt =====
-- libsponge/tcp_helpers/fd_adapter.hh and fd_adapter.cc: TCP segments in UDP payloads. The socket is
-- a parameter: `recv` gives the source address and the payload of a datagram, `sendto` sends one,
-- and `none` is an exception.
use sponge.Prelude.{false, not, ◌&&◌, Option, none, some, Bytes, if◌then◌else◌}
use sponge.NetParser.{is_no_error}
use sponge.Address.{Address, is_equal}
use sponge.TcpSegment
use sponge.TcpSegment.{TcpSegment}
use sponge.TcpOverIpv4.{empty_segment, with_ports}
use sponge.FdAdapter.{FdAdapterBase, Adapter, listening, set_listening}

-- The tests of `read` on a segment that was parsed.
abbrev pub take : FdAdapterBase → Address → TcpSegment → FdAdapterBase × Option TcpSegment
take a source seg =
    if listening a
    then (if seg.header.syn && not seg.header.rst
        then (
          set_listening (record a { config = record (a.config) { destination = source } }) false,
          some seg,
        )
        else (a, none))
    else (a, some seg)

-- `read`, behind `recv`.
unfoldable pub receive : FdAdapterBase → Address → Bytes → FdAdapterBase × Option TcpSegment
receive a source payload =
    if not (listening a) && not (is_equal source a.config.destination)
    then (a, none)
    else let (seg, result) = TcpSegment.parse empty_segment payload 0 in
      if not (is_no_error result) then (a, none) else take a source seg

pub record TcpOverUdp (K : Type 0) : Type 0 where
  pub base : FdAdapterBase
  pub sock : K

module _ {K : Type 0} (recv : K → Option (K × (Address × Bytes)))
    (sendto : K → Address → Bytes → Option K) where
  unfoldable pub read : TcpOverUdp K → Option (TcpOverUdp K × Option TcpSegment)
  read a = elim (recv a.sock) [
    | none ↦ none
    | some (sock, (source, payload)) ↦
        let (base, got) = receive a.base source payload in
        some (record { base = base; sock = sock }, got)
  ]

  -- The payload of the datagram that `write` sends.
  unfoldable pub write : TcpOverUdp K → TcpSegment → Option (TcpOverUdp K)
  write a seg = elim (TcpSegment.serialize (with_ports a.base seg) 0) [
    | none ↦ none
    | some payload ↦ elim (sendto a.sock a.base.config.destination payload) [
      | none ↦ none
      | some sock ↦ some (record a { sock = sock })
    ]
  ]

  abbrev pub over_udp : Adapter (TcpOverUdp K)
  over_udp = record {
    config_of = λ a. a.base.config;
    set_config = λ a cfg. record a { base = record (a.base) { config = cfg } };
    set_listen = λ a on. record a { base = set_listening a.base on };
    read = read;
    write = write;
    tick_ms = λ a ms. some a;
  }
