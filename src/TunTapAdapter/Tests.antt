-- ===== src/TunTapAdapter/Tests.antt =====
-- Two Ethernet adapters at concrete addresses, over a wire that keeps the frames written.
use sponge.Prelude.{
  ℕ, ◌<◌, ◌≡◌, refl, true, false, inl, List, [], ◌∷◌, Option, none, some, Bytes, arith,
}
use sponge.Address.{of_ip_port}
use sponge.TcpHeader
use sponge.TcpHeader.RoundTrip.{IsHeader}
use sponge.TcpSegment.{TcpSegment}
use sponge.EthernetHeader.{EthernetAddress}
use sponge.EthernetHeader.RoundTrip.{IsAddress}
use sponge.NetworkInterface.{find}
use sponge.NetworkInterface.Sending.{IsInterface}
use sponge.FdAdapter.{default_config}
use sponge.TunTapAdapter.{Device, OverEthernet}
use sponge.TunTapAdapter.EndToEnd.{Carries, Carried, read-write_ethernet}

abbrev newest : List Bytes → Option (List Bytes × Bytes)
newest [] = none
newest (bytes ∷ rest) = some (rest, bytes)

abbrev wire : Device (List Bytes)
wire = record { read_bytes = newest; write_bytes = λ k bytes. some (bytes ∷ k) }

wire-Carries : Carries wire (λ k. k)
wire-Carries k bytes = (bytes ∷ k, k, refl, refl)

abbrev card : ℕ → EthernetAddress
card n = record { byte0 = 2; byte1 = 0; byte2 = 0; byte3 = 0; byte4 = 0; byte5 = n }

abbrev client : OverEthernet (List Bytes)
client = record {
  base = record {
    config = record default_config { source = of_ip_port 9 4000; destination = of_ip_port 7 80 };
    listen = false;
  };
  tap = [];
  interface = record {
    ethernet_address = card 1;
    ip_address = of_ip_port 9 0;
    frames_out = [];
    frames_waited = [];
    ip_map = (7, (card 2, 100)) ∷ [];
    arp_timer = [];
  };
  next_hop = of_ip_port 7 0;
}

abbrev server : OverEthernet (List Bytes)
server = record {
  base = record { config = record default_config { source = of_ip_port 0 80 }; listen = true };
  tap = [];
  interface = record {
    ethernet_address = card 2;
    ip_address = of_ip_port 7 0;
    frames_out = [];
    frames_waited = [];
    ip_map = [];
    arp_timer = [];
  };
  next_hop = of_ip_port 9 0;
}

abbrev syn : TcpSegment
syn = record { header = record TcpHeader.default { syn = true }; payload = 1 ∷ [] }

syn-IsHeader : IsHeader syn.header
syn-IsHeader = omega arith

card-IsAddress : (n : ℕ) → n < 256 → IsAddress (card n)
card-IsAddress n h = omega arith

client-IsInterface : IsInterface client.interface
client-IsInterface = record {
  card = card-IsAddress 1 (omega arith);
  ip = omega arith;
  mappings = (card-IsAddress 2 (omega arith), tt);
}

client-knows_server : find client.interface.ip_map 7 ≡ some (card 2, 100)
unfolding find
client-knows_server = refl

read-write_ethernet_example : Carried wire (λ k. k) client server syn
read-write_ethernet_example =
    read-write_ethernet wire (λ k. k) client server syn wire-Carries (omega arith) syn-IsHeader
      (omega arith, tt) (omega arith) (inl (refl, refl, (refl, refl))) client-IsInterface
      (card-IsAddress 2 (omega arith)) (omega arith) 100 client-knows_server refl refl
