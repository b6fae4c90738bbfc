-- ===== src/EthernetHeader/Tests.antt =====
-- ethernet_header.cc run on short buffers, and the round trip at a concrete input.
use sponge.Prelude.{◌≡◌, refl, [], ◌∷◌, arith}
use sponge.NetParser.{packet_too_short, of_buffer}
use sponge.EthernetHeader.{EthernetAddress, EthernetHeader, ethernet_broadcast, type_arp, parse}
use sponge.EthernetHeader.RoundTrip.{IsEthernetHeader}

abbrev card : EthernetAddress
card = record { byte0 = 2; byte1 = 0; byte2 = 0; byte3 = 0; byte4 = 0; byte5 = 9 }

abbrev header : EthernetHeader
header = record { dst = ethernet_broadcast; src = card; type = type_arp }

parse_run :
    parse header (of_buffer (1 ∷ 2 ∷ 3 ∷ []))
    ≡ (of_buffer (1 ∷ 2 ∷ 3 ∷ []), header, packet_too_short)
unfolding parse
parse_run = refl

header-IsEthernetHeader : IsEthernetHeader header
header-IsEthernetHeader = record {
  dst = record {
    byte0 = omega arith;
    byte1 = omega arith;
    byte2 = omega arith;
    byte3 = omega arith;
    byte4 = omega arith;
    byte5 = omega arith;
  };
  src = record {
    byte0 = omega arith;
    byte1 = omega arith;
    byte2 = omega arith;
    byte3 = omega arith;
    byte4 = omega arith;
    byte5 = omega arith;
  };
  type = omega arith;
}
