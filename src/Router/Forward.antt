-- ===== src/Router/Forward.antt =====
-- What becomes of a datagram that is routed, and of the queues of the interfaces.
use sponge.Prelude.{
  ℕ, ◌-◌, ◌^◌, ◌≤◌, ◌<◌, ◌≡◌, refl, sym, ◌⊎◌, inl, inr, none, some, length, All, All-middle,
  get_elem?, set_at, get_elem?-lt, All-get_elem?, All-set_at, length-set_at, arith, ℕ_discrete,
  subst, Option-cases,
}
use sponge.Address.{Address, from_ipv4_numeric}
use sponge.Ipv4Datagram.{Ipv4Datagram}
use sponge.Ipv4Datagram.RoundTrip.{IsDatagram}
use sponge.NetworkInterface.{NetworkInterface, find}
use sponge.NetworkInterface.Sending.{IsInterface, Sends, Asks, queued, send_datagram_lem}
use sponge.Router.{
  Router, RouteTableEntry, AsyncNetworkInterface, hop, forward, decrement, route_one_datagram,
}
use sponge.Router.Match.{Agrees, IsRoute, Longest, find_route-Longest}

-- The routes can be looked up, and lead to interfaces that the router has and to addresses of 32
-- bits; the interfaces have addresses in range.
pub record IsValid (r : Router) : Type 0 where
  pub routes : All IsRoute r.routing_table
  pub in_range : All (λ e. e.interface_num < length r.interfaces) r.routing_table
  pub next_hops :
      All (λ e. (a : Address) → e.next_hop ≡ some a → a.ipv4_numeric < 2 ^ 32) r.routing_table
  pub interfaces : All (λ i. IsInterface i.base) r.interfaces

-- The datagram with its time to live decremented.
abbrev pub aged : Ipv4Datagram → Ipv4Datagram
aged dgram = record dgram { header = record (dgram.header) { ttl = dgram.header.ttl - 1 } }

-- The next hop of the route, or the destination of the datagram where the route has none.
abbrev pub IsHop : RouteTableEntry → Ipv4Datagram → Address → Type 0
IsHop entry dgram a =
    (entry.next_hop ≡ some a) ⊎ ((entry.next_hop ≡ none) × (a ≡ from_ipv4_numeric dgram.header.dst))

-- The interface has sent the datagram, or keeps it and asks for the address of its next hop, or
-- keeps it and has asked before.
abbrev pub Handed : NetworkInterface → Ipv4Datagram → Address → NetworkInterface → Type 0
Handed n dgram next_hop t =
    Sends n dgram next_hop t
    ⊎ ((find n.ip_map next_hop.ipv4_numeric ≡ none)
        × ((((at : ℕ) × (find n.arp_timer next_hop.ipv4_numeric ≡ some at))
              × (t ≡ queued n dgram next_hop))
            ⊎ ((find n.arp_timer next_hop.ipv4_numeric ≡ none) × Asks n dgram next_hop t)))

-- An interface that was handed a datagram has the addresses that it had.
Handed-IsInterface :
    {n : NetworkInterface} (dgram : Ipv4Datagram) (next_hop : Address) (t : NetworkInterface)
    → Handed n dgram next_hop t
    → IsInterface n
    → IsInterface t
Handed-IsInterface dgram next_hop t (inl s) v =
    subst IsInterface (sym s.result) (record { card = v.card; ip = v.ip; mappings = v.mappings })
Handed-IsInterface dgram next_hop t (inr (unknown, inl (asked, e))) v =
    subst IsInterface (sym e) (record { card = v.card; ip = v.ip; mappings = v.mappings })
Handed-IsInterface dgram next_hop t (inr (unknown, inr (fresh, a))) v =
    subst IsInterface (sym a.result) (record { card = v.card; ip = v.ip; mappings = v.mappings })

-- The datagram was handed, with its time to live decremented, to the interface of the best route,
-- for its next hop.
pub record Sent (r : Router) (dgram : Ipv4Datagram) (t : Router) : Type 0 where
  pub alive : 1 < dgram.header.ttl
  pub entry : RouteTableEntry
  pub longest : Longest r.routing_table dgram.header.dst entry
  pub interface : AsyncNetworkInterface
  pub found : get_elem? r.interfaces entry.interface_num ≡ some interface
  pub next_hop : Address
  pub is_hop : IsHop entry dgram next_hop
  pub base : NetworkInterface
  pub handed : Handed interface.base (aged dgram) next_hop base
  pub result : t ≡ record r {
    interfaces = set_at r.interfaces entry.interface_num (record interface { base = base });
  }

abbrev pub Forwarded : Router → Ipv4Datagram → Router → Type 0
Forwarded r dgram t =
    ((t ≡ r) × ((dgram.header.ttl ≤ 1) ⊎ All (λ e. ¬ Agrees dgram.header.dst e) r.routing_table))
    ⊎ Sent r dgram t

pub Forwarded-IsValid :
    {r : Router} (dgram : Ipv4Datagram) (t : Router) → Forwarded r dgram t → IsValid r → IsValid t
Forwarded-IsValid dgram t (inl (e, why)) v = subst IsValid (sym e) v
Forwarded-IsValid {r} dgram t (inr s) v = subst IsValid (sym s.result) (record {
  routes = v.routes;
  in_range =
      subst (λ n. All (λ (e : RouteTableEntry). e.interface_num < n) r.routing_table)
        (sym (length-set_at r.interfaces _ _)) v.in_range;
  next_hops = v.next_hops;
  interfaces =
      All-set_at (λ i. IsInterface i.base) r.interfaces _ _ v.interfaces
        (Handed-IsInterface (aged dgram) s.next_hop s.base s.handed
          (All-get_elem? (λ i. IsInterface i.base) r.interfaces _ _ v.interfaces s.found));
})

aged-IsDatagram : (dgram : Ipv4Datagram) → IsDatagram dgram → IsDatagram (aged dgram)
aged-IsDatagram dgram v = record {
  header = record {
    ver = v.header.ver;
    hlen_min = v.header.hlen_min;
    hlen_max = v.header.hlen_max;
    tos = v.header.tos;
    len = v.header.len;
    id = v.header.id;
    offset = v.header.offset;
    ttl = omega (arith, v.header.ttl);
    proto = v.header.proto;
    cksum = v.header.cksum;
    src = v.header.src;
    dst = v.header.dst;
  };
  total = v.total;
}

hop-IsHop :
    (entry : RouteTableEntry) (dgram : Ipv4Datagram)
    → ((a : Address) → entry.next_hop ≡ some a → a.ipv4_numeric < 2 ^ 32)
    → dgram.header.dst < 2 ^ 32
    → IsHop entry dgram (hop entry (decrement dgram))
      × ((hop entry (decrement dgram)).ipv4_numeric < 2 ^ 32)
hop-IsHop entry dgram small dst = elim (Option-cases entry.next_hop) [
  | inl e ↦ (inr (e, ground (arith, e)), ground (arith, e))
  | inr (a, e) ↦ (inl (ground (arith, e)), ground (arith, e, small a e))
]

forward-Sent :
    {r : Router} (dgram : Ipv4Datagram) (entry : RouteTableEntry)
    → IsValid r
    → IsDatagram dgram
    → 1 < dgram.header.ttl
    → Longest r.routing_table dgram.header.dst entry
    → (t : Router) × (forward r (decrement dgram) entry ≡ some t) × Sent r dgram t
unfolding forward
forward-Sent {r} dgram entry v d alive l =
    let inside : entry.interface_num < length r.interfaces =
      All-middle (λ (e : RouteTableEntry). e.interface_num < length r.interfaces) l.before entry
        l.after (subst (All (λ e. e.interface_num < length r.interfaces)) l.split v.in_range) in
    let small =
      All-middle
        (λ (e : RouteTableEntry). (a : Address) → e.next_hop ≡ some a → a.ipv4_numeric < 2 ^ 32)
        l.before entry l.after
        (subst
          (All (λ (e : RouteTableEntry).
            (a : Address) → e.next_hop ≡ some a → a.ipv4_numeric < 2 ^ 32))
          l.split v.next_hops) in
    let (interface, found) = get_elem?-lt r.interfaces entry.interface_num inside in
    let (is_hop, hop_small) = hop-IsHop entry dgram small d.header.dst in
    let (base, sent, handed) =
      send_datagram_lem (aged dgram) (hop entry (decrement dgram))
        (All-get_elem? (λ i. IsInterface i.base) r.interfaces _ _ v.interfaces found)
        (aged-IsDatagram dgram d) hop_small in
    (
      _,
      rw (found, forward) (rw (sent, forward) refl),
      record {
        alive = alive;
        entry = entry;
        longest = l;
        interface = interface;
        found = found;
        next_hop = hop entry (decrement dgram);
        is_hop = is_hop;
        base = base;
        handed = handed;
        result = refl;
      },
    )

module _ (any_shift : ℕ → ℕ → ℕ) where
  -- For a router whose routes have 32-bit prefixes of lengths up to 32 and lead to interfaces
  -- that it has and next hops below 2 ^ 32, whose interfaces have addresses in range, and a
  -- datagram that is in range and right in its lengths: routing the datagram has a defined
  -- result; either the router is unchanged, and the time to live is at most 1 or no route agrees
  -- with the destination, or the interface of the longest agreeing route was handed the datagram
  -- with its time to live decremented, for the route's next hop or the destination: it has sent
  -- it in a frame to the known address, or keeps it and has asked for the address now or before;
  -- and nothing else has changed.
  pub route_one_datagram-Forwarded :
      {r : Router} (dgram : Ipv4Datagram)
      → IsValid r
      → IsDatagram dgram
      → (t : Router) × (route_one_datagram any_shift r dgram ≡ some t) × Forwarded r dgram t
  unfolding route_one_datagram
  route_one_datagram-Forwarded {r} dgram v d = elim (ℕ_discrete dgram.header.ttl 0) [
    | yes e ↦ (r, ground arith, inl (refl, inl (omega arith)))
    | no p ↦ elim (ℕ_discrete (dgram.header.ttl - 1) 0) [
      | yes e ↦ (r, ground arith, inl (refl, inl (omega arith)))
      | no q ↦
          elim (find_route-Longest any_shift r.routing_table dgram.header.dst d.header.dst
            v.routes) [
              | inl (f, n) ↦ (r, ground arith, inl (refl, inr n))
              | inr (f, l) ↦
                  let (t, e, s) = forward-Sent dgram _ v d (omega arith) l in
                  (t, ground (arith, e), inr s)
            ]
    ]
  ]
