-- ===== src/Router/Tests.antt =====
-- router.cc run on a small table, and the theorems at concrete inputs.
use sponge.Prelude.{
  ℕ, zero, suc, ◌*◌, ◌^◌, ◌+◌, ◌≡◌, ◌<◌, refl, true, false, List, [], ◌∷◌, ◌⊎◌, none, some, All,
  length, arith, map,
}
use sponge.Address.{from_ipv4_numeric}
use sponge.Ipv4Header
use sponge.Ipv4Datagram
use sponge.Ipv4Datagram.RoundTrip.{IsDatagram}
use sponge.EthernetHeader
use sponge.EthernetHeader.{EthernetAddress}
use sponge.EthernetHeader.RoundTrip.{IsAddress}
use sponge.EthernetFrame
use sponge.ArpMessage
use sponge.NetParser
use sponge.NetUnparser
use sponge.NetworkInterface
use sponge.NetworkInterface.{new}
use sponge.NetworkInterface.Sending.{IsInterface}
use sponge.Ipv4Datagram.{Ipv4Datagram}
use sponge.Router
use sponge.Router.{
  Router, RouteTableEntry, AsyncNetworkInterface, find_route, route_one_datagram, route,
}
use sponge.Router.Match.{Agrees, IsRoute, Longest, find_route-Longest}
use sponge.Router.Forward.{IsValid, Forwarded, route_one_datagram-Forwarded}
use sponge.Router.Queues.{waiting, route_lem}

abbrev ip : ℕ → ℕ → ℕ → ℕ → ℕ
ip a b c d = a * 2 ^ 24 + b * 2 ^ 16 + c * 2 ^ 8 + d

abbrev entry : ℕ → ℕ → ℕ → RouteTableEntry
entry route_prefix prefix_length interface_num = record {
  route_prefix = route_prefix;
  prefix_length = prefix_length;
  next_hop = none;
  interface_num = interface_num;
}

-- The default route stands behind a longer one.
abbrev table : List RouteTableEntry
table = entry (ip 10 0 0 0) 8 0 ∷ entry 0 0 1 ∷ entry (ip 10 1 0 0) 16 1 ∷ []

abbrev any_shift : ℕ → ℕ → ℕ
any_shift x n = 99

abbrev card : ℕ → EthernetAddress
card n = record { byte0 = 2; byte1 = 0; byte2 = 0; byte3 = 0; byte4 = 0; byte5 = n }

abbrev datagram : ℕ → ℕ → Ipv4Datagram
datagram ttl dst = record {
  header = record Ipv4Header.default { len = 20; ttl = ttl; dst = dst };
  payload = [];
}

abbrev interface : ℕ → List Ipv4Datagram → AsyncNetworkInterface
interface n queue = record { base = new (card n) (from_ipv4_numeric n); datagrams_out = queue }

abbrev router : Router
router = record {
  interfaces =
      interface 1 (datagram 64 (ip 10 1 2 3) ∷ datagram 1 (ip 10 1 2 3) ∷ [])
      ∷ interface 2 (datagram 64 (ip 10 2 2 3) ∷ [])
      ∷ [];
  routing_table = table;
}

-- Of an interface: the datagrams that wait for an address, by their time to live and next hop, and
-- the numbers of frames that have gone out and of datagrams that are to be routed.
abbrev seen : AsyncNetworkInterface → List (ℕ × ℕ) × ℕ × ℕ
seen i = (
  map (λ e. (e.0.header.ttl, e.1.ipv4_numeric)) i.base.frames_waited,
  length i.base.frames_out,
  length i.datagrams_out,
)

route_run :
    (elim (route any_shift router) [ none ↦ none | some r ↦ some (map seen r.interfaces) ])
    ≡ some (((63, ip 10 2 2 3) ∷ [], 1, 0) ∷ ((63, ip 10 1 2 3) ∷ [], 1, 0) ∷ [])
unfolding route Router.route_from Router.drain route_one_datagram Router.forward find_route
    Router.search Router.consider Router.shift_right new NetworkInterface.send_datagram
    NetworkInterface.find NetworkInterface.set NetworkInterface.request NetworkInterface.send_arp
    NetworkInterface.push_frame EthernetFrame.parse EthernetHeader.parse EthernetHeader.serialize
    EthernetHeader.parse_address EthernetHeader.unparse_address ArpMessage.serialize
    NetParser.parse_int NetParser.parse_loop NetParser.check_size NetUnparser.unparse_int
    NetUnparser.unparse_loop
route_run = refl

-- A datagram of another version, which an interface has taken in, is not written where its next
-- hop is known: the exception leaves `route`.
abbrev other_version : Ipv4Datagram
other_version = record (datagram 64 (ip 10 2 2 3)) {
  header = record ((datagram 64 (ip 10 2 2 3)).header) { ver = 6 };
}

abbrev resolved : AsyncNetworkInterface
resolved = record (interface 1 (other_version ∷ [])) {
  base = record (new (card 1) (from_ipv4_numeric 1)) { ip_map = (ip 10 2 2 3, (card 9, 0)) ∷ [] };
}

unsendable_run :
    route any_shift (record { interfaces = resolved ∷ []; routing_table = table }) ≡ none
unfolding route Router.route_from Router.drain route_one_datagram Router.forward find_route
    Router.search Router.consider Router.shift_right new NetworkInterface.send_datagram
    NetworkInterface.find NetworkInterface.send_frame Ipv4Datagram.serialize
    Ipv4Datagram.serialize_with Ipv4Header.serialize
unsendable_run = refl

card-IsAddress : (n : ℕ) → n < 256 → IsAddress (card n)
card-IsAddress n h = record {
  byte0 = omega arith;
  byte1 = omega arith;
  byte2 = omega arith;
  byte3 = omega arith;
  byte4 = omega arith;
  byte5 = h;
}

interface-IsInterface :
    (n : ℕ) (queue : List Ipv4Datagram) → n < 256 → IsInterface (interface n queue).base
unfolding new
interface-IsInterface n queue h = record {
  card = card-IsAddress n h;
  ip = omega arith;
  mappings = tt;
}

datagram-IsDatagram : (ttl dst : ℕ) → ttl < 256 → dst < 2 ^ 32 → IsDatagram (datagram ttl dst)
datagram-IsDatagram ttl dst h k = record {
  header = record {
    ver = refl;
    hlen_min = omega arith;
    hlen_max = omega arith;
    tos = omega arith;
    len = omega arith;
    id = omega arith;
    offset = omega arith;
    ttl = h;
    proto = omega arith;
    cksum = omega arith;
    src = omega arith;
    dst = k;
  };
  total = refl;
}

table-IsRoute : All IsRoute table
table-IsRoute = (
  record { prefix_small = omega arith; length_small = omega arith },
  (
    record { prefix_small = omega arith; length_small = omega arith },
    (record { prefix_small = omega arith; length_small = omega arith }, tt),
  ),
)

router-IsValid : IsValid router
router-IsValid = record {
  routes = table-IsRoute;
  in_range = (omega arith, (omega arith, (omega arith, tt)));
  next_hops = (
    λ a h. absurd (ground arith),
    (λ a h. absurd (ground arith), (λ a h. absurd (ground arith), tt)),
  );
  interfaces =
      (interface-IsInterface 1 [] (omega arith), (interface-IsInterface 2 [] (omega arith), tt));
}

router-IsDatagram : (j : ℕ) → All IsDatagram (waiting router.interfaces j)
router-IsDatagram zero = (
  datagram-IsDatagram 64 (ip 10 1 2 3) (omega arith) (omega arith),
  (datagram-IsDatagram 1 (ip 10 1 2 3) (omega arith) (omega arith), tt),
)
router-IsDatagram (suc zero) =
    (datagram-IsDatagram 64 (ip 10 2 2 3) (omega arith) (omega arith), tt)
router-IsDatagram (suc (suc j)) = tt

find_route-Longest_example :
    let l = find_route any_shift table (ip 10 1 2 3) in
    ((l.find_match ≡ false) × All (λ x. ¬ Agrees (ip 10 1 2 3) x) table)
    ⊎ ((l.find_match ≡ true) × Longest table (ip 10 1 2 3) l.matched_entry)
find_route-Longest_example =
    find_route-Longest any_shift table (ip 10 1 2 3) (omega arith) table-IsRoute

route_one_datagram-Forwarded_example :
    (t : Router) × (route_one_datagram any_shift router (datagram 64 (ip 10 1 2 3)) ≡ some t)
    × Forwarded router (datagram 64 (ip 10 1 2 3)) t
route_one_datagram-Forwarded_example =
    route_one_datagram-Forwarded any_shift (datagram 64 (ip 10 1 2 3)) router-IsValid
      (datagram-IsDatagram 64 (ip 10 1 2 3) (omega arith) (omega arith))

route_lem_example :
    (t : Router) × (route any_shift router ≡ some t)
    × (t.routing_table ≡ router.routing_table)
    × (length t.interfaces ≡ length router.interfaces)
    × ((j : ℕ) → j < length t.interfaces → waiting t.interfaces j ≡ [])
    × IsValid t
route_lem_example = route_lem any_shift router-IsValid router-IsDatagram
