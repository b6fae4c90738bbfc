-- ===== src/TunTapAdapter.antt =====
-- libsponge/tcp_helpers/tuntap_adapter.hh and tuntap_adapter.cc: TCP segments in IPv4 datagrams over
-- a TUN device, and over Ethernet on a TAP device. The device is a parameter: it gives the bytes of
-- a read, and takes those of a write; `none` is an exception.
pub mod EndToEnd
mod Tests
use sponge.Prelude.{ℕ, List, [], ◌∷◌, Option, none, some, Bytes, not, if◌then◌else◌}
use sponge.NetParser.{is_no_error}
use sponge.Address.{Address}
use sponge.TcpSegment.{TcpSegment}
use sponge.Ipv4Datagram
use sponge.Ipv4Datagram.{Ipv4Datagram}
use sponge.EthernetHeader.{EthernetAddress}
use sponge.EthernetFrame
use sponge.EthernetFrame.{EthernetFrame}
use sponge.NetworkInterface
use sponge.NetworkInterface.{NetworkInterface, no_datagram, no_frame}
use sponge.FdAdapter
use sponge.FdAdapter.{FdAdapterBase, Adapter, set_listening}
use sponge.TcpOverIpv4.{unwrap_tcp_in_ip, wrap_tcp_in_ip}

-- The reads and writes of a device.
pub record Device (K : Type 0) : Type 0 where
  pub read_bytes : K → Option (K × Bytes)
  pub write_bytes : K → Bytes → Option K

-- `TCPOverIPv4OverTunFdAdapter`
pub record OverTun (K : Type 0) : Type 0 where
  pub base : FdAdapterBase
  pub tun : K

-- `TCPOverIPv4OverEthernetAdapter`
pub record OverEthernet (K : Type 0) : Type 0 where
  pub base : FdAdapterBase
  pub tap : K
  pub interface : NetworkInterface
  pub next_hop : Address

module _ {K : Type 0} (device : Device K) where
  -- `TCPOverIPv4OverTunFdAdapter::read`
  unfoldable pub read_tun : OverTun K → Option (OverTun K × Option TcpSegment)
  read_tun a = elim (device.read_bytes a.tun) [
    | none ↦ none
    | some (tun, bytes) ↦
        let (ip_dgram, result) = Ipv4Datagram.parse no_datagram bytes in
        if not (is_no_error result)
        then some (record a { tun = tun }, none)
        else let (base, got) = unwrap_tcp_in_ip a.base ip_dgram in
          some (record { base = base; tun = tun }, got)
  ]

  -- The bytes of a datagram that was made; `none` is an exception.
  abbrev pub bytes_of : Option Ipv4Datagram → Option Bytes
  bytes_of none = none
  bytes_of (some d) = Ipv4Datagram.serialize d

  -- `TCPOverIPv4OverTunFdAdapter::write`
  unfoldable pub write_tun : OverTun K → TcpSegment → Option (OverTun K)
  write_tun a seg = elim (bytes_of (wrap_tcp_in_ip a.base seg).1) [
    | none ↦ none
    | some bytes ↦ elim (device.write_bytes a.tun bytes) [
      | none ↦ none
      | some tun ↦ some (record a { tun = tun })
    ]
  ]

  -- `send_pending`, over the frames that wait in the interface.
  unfoldable pub send_frames : K → List EthernetFrame → Option K
  send_frames tap [] = some tap
  send_frames tap (frame ∷ rest) = elim (device.write_bytes tap (EthernetFrame.serialize frame)) [
    | none ↦ none
    | some tap' ↦ send_frames tap' rest
  ]

  unfoldable pub send_pending : OverEthernet K → Option (OverEthernet K)
  send_pending a = elim (send_frames a.tap a.interface.frames_out) [
    | none ↦ none
    | some tap ↦ some (record a { tap = tap; interface = record (a.interface) { frames_out = [] } })
  ]

  -- The constructor, which writes an empty frame first.
  unfoldable pub new : K → EthernetAddress → Address → Address → Option (OverEthernet K)
  new tap eth_address ip_address next_hop =
      elim (device.write_bytes tap (EthernetFrame.serialize no_frame)) [
        | none ↦ none
        | some tap' ↦ some (record {
          base = FdAdapter.new;
          tap = tap';
          interface = NetworkInterface.new eth_address ip_address;
          next_hop = next_hop;
        })
      ]

  -- The end of `read`: the datagram that the frame has carried, if any.
  abbrev pub unwrap : OverEthernet K → Option Ipv4Datagram → OverEthernet K × Option TcpSegment
  unwrap a none = (a, none)
  unwrap a (some ip_dgram) =
      let (base, got) = unwrap_tcp_in_ip a.base ip_dgram in (record a { base = base }, got)

  abbrev pub unwrap_after :
      Option (OverEthernet K) → Option Ipv4Datagram → Option (OverEthernet K × Option TcpSegment)
  unwrap_after none ip_dgram = none
  unwrap_after (some a) ip_dgram = some (unwrap a ip_dgram)

  -- `TCPOverIPv4OverEthernetAdapter::read`
  unfoldable pub read : OverEthernet K → Option (OverEthernet K × Option TcpSegment)
  read a = elim (device.read_bytes a.tap) [
    | none ↦ none
    | some (tap, bytes) ↦
        let (frame, result) = EthernetFrame.parse no_frame bytes in
        if not (is_no_error result)
        then some (record a { tap = tap }, none)
        else elim (NetworkInterface.recv_frame a.interface frame) [
          | none ↦ none
          | some (interface, ip_dgram) ↦
              unwrap_after (send_pending (record a { tap = tap; interface = interface })) ip_dgram
        ]
  ]

  -- The interface's part of `write` and of `tick`, with the frames that it has made.
  abbrev pub send_from : OverEthernet K → Option NetworkInterface → Option (OverEthernet K)
  send_from a none = none
  send_from a (some interface) = send_pending (record a { interface = interface })

  abbrev pub send_datagram : OverEthernet K → Option Ipv4Datagram → Option (OverEthernet K)
  send_datagram a none = none
  send_datagram a (some d) = send_from a (NetworkInterface.send_datagram a.interface d a.next_hop)

  -- `TCPOverIPv4OverEthernetAdapter::write`
  unfoldable pub write : OverEthernet K → TcpSegment → Option (OverEthernet K)
  write a seg = send_datagram a (wrap_tcp_in_ip a.base seg).1

  -- `TCPOverIPv4OverEthernetAdapter::tick`
  unfoldable pub tick : OverEthernet K → ℕ → Option (OverEthernet K)
  tick a ms = send_from a (some (NetworkInterface.tick a.interface ms))

  abbrev pub over_tun : Adapter (OverTun K)
  over_tun = record {
    config_of = λ a. a.base.config;
    set_config = λ a cfg. record a { base = record (a.base) { config = cfg } };
    set_listen = λ a on. record a { base = set_listening a.base on };
    read = read_tun;
    write = write_tun;
    tick_ms = λ a ms. some a;
  }

  abbrev pub over_ethernet : Adapter (OverEthernet K)
  over_ethernet = record {
    config_of = λ a. a.base.config;
    set_config = λ a cfg. record a { base = record (a.base) { config = cfg } };
    set_listen = λ a on. record a { base = set_listening a.base on };
    read = read;
    write = write;
    tick_ms = tick;
  }
