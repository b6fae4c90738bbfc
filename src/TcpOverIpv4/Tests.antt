-- ===== src/TcpOverIpv4/Tests.antt =====
-- Adapters at concrete datagrams.
use sponge.Prelude.{◌≡◌, refl, true, false, inr, [], ◌∷◌, none, arith}
use sponge.Address.{of_ip_port}
use sponge.TcpHeader
use sponge.TcpHeader.RoundTrip.{IsHeader}
use sponge.TcpSegment.{TcpSegment}
use sponge.Ipv4Header
use sponge.Ipv4Datagram.{Ipv4Datagram}
use sponge.FdAdapter.{FdAdapterBase, default_config}
use sponge.TcpOverIpv4.{unwrap_tcp_in_ip}
use sponge.TcpOverIpv4.Filter.{Unwrapped, unwrap_tcp_in_ip-Unwrapped}
use sponge.TcpOverIpv4.RoundTrip.{Delivered, unwrap_tcp_in_ip-wrap_tcp_in_ip}

abbrev client : FdAdapterBase
client = record {
  config = record default_config { source = of_ip_port 9 4000; destination = of_ip_port 7 80 };
  listen = false;
}

abbrev server : FdAdapterBase
server = record {
  config = record default_config { source = of_ip_port 7 80; destination = of_ip_port 9 4000 };
  listen = false;
}

abbrev segment : TcpSegment
segment = record { header = record TcpHeader.default { ack = true }; payload = 1 ∷ 2 ∷ [] }

abbrev foreign : Ipv4Datagram
foreign = record { header = record Ipv4Header.default { src = 8; dst = 7 }; payload = [] }

foreign_ignored : unwrap_tcp_in_ip server foreign ≡ (server, none)
unfolding unwrap_tcp_in_ip
foreign_ignored = refl

segment-IsHeader : IsHeader segment.header
segment-IsHeader = omega arith

unwrap_tcp_in_ip-Unwrapped_example : Unwrapped server foreign (unwrap_tcp_in_ip server foreign)
unwrap_tcp_in_ip-Unwrapped_example = unwrap_tcp_in_ip-Unwrapped server foreign

unwrap_tcp_in_ip-wrap_tcp_in_ip_example : Delivered client server segment foreign
unwrap_tcp_in_ip-wrap_tcp_in_ip_example =
    unwrap_tcp_in_ip-wrap_tcp_in_ip client server segment foreign (omega arith) segment-IsHeader
      (omega arith, (omega arith, tt)) (omega arith) (inr (refl, refl, refl))
