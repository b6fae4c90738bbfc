-- ===== src/Router.antt =====
-- libsponge/router.hh and router.cc: a router over network interfaces. `none` is an exception
-- of an interface, or an index behind the interfaces, which has no defined result.
pub mod Match
pub mod Forward
pub mod Queues
mod Tests
use sponge.Prelude.{
  ℕ, zero, suc, ◌-◌, ◌/◌, ◌^◌, Bool, true, false, ◌&&◌, List, [], ◌∷◌, ◌++◌, Option, none, some,
  length, drop, leb, set_at, get_elem?, ◌==◌, if◌then◌else◌,
}
use sponge.EthernetFrame.{EthernetFrame}
use sponge.NetworkInterface
use sponge.NetworkInterface.{NetworkInterface}
use sponge.Address.{Address, from_ipv4_numeric}
use sponge.Ipv4Datagram.{Ipv4Datagram}

-- `struct RouteTableEntry`
pub record RouteTableEntry : Type 0 where
  pub route_prefix : ℕ
  pub prefix_length : ℕ
  pub next_hop : Option Address
  pub interface_num : ℕ

-- `RouteTableEntry()`
abbrev pub no_entry : RouteTableEntry
no_entry = record { route_prefix = 0; prefix_length = 0; next_hop = none; interface_num = 0 }

-- The local variables of the loop of `route_one_datagram`.
pub record Lookup : Type 0 where
  pub find_match : Bool
  pub max_prelen : ℕ
  pub matched_entry : RouteTableEntry

abbrev pub nothing_found : Lookup
nothing_found = record { find_match = false; max_prelen = 0; matched_entry = no_entry }

abbrev pub matched : RouteTableEntry → Lookup
matched entry = record {
  find_match = true;
  max_prelen = entry.prefix_length;
  matched_entry = entry;
}

-- `x >> (32 - prefix_length)`. The shift of a 32-bit number is undefined unless it is by less than
-- 32 bits: `any_shift` is whatever it then gives.
module _ (any_shift : ℕ → ℕ → ℕ) where
  unfoldable pub shift_right : ℕ → ℕ → ℕ
  shift_right x prefix_length =
      if leb 1 prefix_length && leb prefix_length 32
      then x / 2 ^ (32 - prefix_length)
      else any_shift x prefix_length

  -- One round of the loop.
  unfoldable pub consider : Lookup → ℕ → RouteTableEntry → Lookup
  consider l dst_ip entry =
      if entry.prefix_length == 0 && leb l.max_prelen entry.prefix_length
      then matched entry
      else if shift_right entry.route_prefix entry.prefix_length
            == shift_right dst_ip entry.prefix_length
          && leb l.max_prelen entry.prefix_length
      then matched entry
      else l

  unfoldable pub search : Lookup → ℕ → List RouteTableEntry → Lookup
  search l dst_ip [] = l
  search l dst_ip (entry ∷ table) = search (consider l dst_ip entry) dst_ip table

  unfoldable pub find_route : List RouteTableEntry → ℕ → Lookup
  find_route table dst_ip = search nothing_found dst_ip table

-- `class AsyncNetworkInterface`
pub record AsyncNetworkInterface : Type 0 where
  pub base : NetworkInterface
  pub datagrams_out : List Ipv4Datagram

-- `class Router`
pub record Router : Type 0 where
  pub interfaces : List AsyncNetworkInterface
  pub routing_table : List RouteTableEntry

-- `AsyncNetworkInterface::recv_frame`
abbrev pub queue_datagram : AsyncNetworkInterface → Option Ipv4Datagram → AsyncNetworkInterface
queue_datagram i none = i
queue_datagram i (some dgram) = record i { datagrams_out = i.datagrams_out ++ dgram ∷ [] }

unfoldable pub recv_frame : AsyncNetworkInterface → EthernetFrame → Option AsyncNetworkInterface
recv_frame i frame = elim (NetworkInterface.recv_frame i.base frame) [
  | none ↦ none
  | some (base, optional_dgram) ↦ some (queue_datagram (record i { base = base }) optional_dgram)
]

unfoldable pub add_interface : Router → AsyncNetworkInterface → Router × ℕ
add_interface r i = (record r { interfaces = r.interfaces ++ i ∷ [] }, length r.interfaces)

unfoldable pub add_route : Router → ℕ → ℕ → Option Address → ℕ → Router
add_route r route_prefix prefix_length next_hop interface_num = record r {
  routing_table =
      r.routing_table
      ++ record {
        route_prefix = route_prefix;
        prefix_length = prefix_length;
        next_hop = next_hop;
        interface_num = interface_num;
      }
        ∷ [];
}

-- The address of the last statement of `route_one_datagram`.
abbrev pub hop : RouteTableEntry → Ipv4Datagram → Address
hop entry dgram = elim entry.next_hop [
  | none ↦ from_ipv4_numeric dgram.header.dst
  | some address ↦ address
]

unfoldable pub forward : Router → Ipv4Datagram → RouteTableEntry → Option Router
forward r dgram entry = elim (get_elem? r.interfaces entry.interface_num) [
  | none ↦ none
  | some i ↦ elim (NetworkInterface.send_datagram i.base dgram (hop entry dgram)) [
    | none ↦ none
    | some base ↦ some (record r {
      interfaces = set_at r.interfaces entry.interface_num (record i { base = base });
    })
  ]
]

abbrev pub decrement : Ipv4Datagram → Ipv4Datagram
decrement dgram = record dgram { header = record (dgram.header) { ttl = dgram.header.ttl - 1 } }

module _ (any_shift : ℕ → ℕ → ℕ) where
  unfoldable pub route_one_datagram : Router → Ipv4Datagram → Option Router
  route_one_datagram r dgram =
      if dgram.header.ttl == 0
      then some r
      else if dgram.header.ttl - 1 == 0
      then some r
      else let l = find_route any_shift r.routing_table dgram.header.dst in
        if l.find_match then forward r (decrement dgram) l.matched_entry else some r

  -- `queue.pop()` of the interface at an index.
  abbrev pub pop : Router → ℕ → Router
  pop r i = elim (get_elem? r.interfaces i) [
    | none ↦ r
    | some interface ↦ record r {
      interfaces =
          set_at r.interfaces i
            (record interface { datagrams_out = drop 1 interface.datagrams_out });
    }
  ]

  -- The `while` of `route`, over the queue: nothing is added to it while it is emptied.
  unfoldable pub drain : Router → ℕ → List Ipv4Datagram → Option Router
  drain r i [] = some r
  drain r i (dgram ∷ queue) = elim (route_one_datagram r dgram) [
    | none ↦ none
    | some r' ↦ drain (pop r' i) i queue
  ]

  -- The `for` of `route`, over the `n` interfaces from the one at index `i` on.
  unfoldable pub route_from : ℕ → ℕ → Router → Option Router
  route_from zero i r = some r
  route_from (suc n) i r = elim (get_elem? r.interfaces i) [
    | none ↦ some r
    | some interface ↦ elim (drain r i interface.datagrams_out) [
      | none ↦ none
      | some r' ↦ route_from n (suc i) r'
    ]
  ]

  unfoldable pub route : Router → Option Router
  route r = route_from (length r.interfaces) 0 r
