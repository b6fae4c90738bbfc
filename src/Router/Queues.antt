-- ===== src/Router/Queues.antt =====
-- `route` serves the queues of all interfaces.
use sponge.Prelude.{
  ℕ, zero, suc, ◌+◌, ◌<◌, ◌≡◌, ◌≢◌, refl, ap, ◌∙◌, sym, List, [], ◌∷◌, inl, inr, none, some, length,
  drop, All, get_elem?, set_at, get_elem?-lt, get_elem?-some, length-set_at, All-get_elem?,
  All-set_at, get_elem?-set_at, get_elem?-set_at_other, arith, ℕ_discrete, subst,
}
use sponge.Ipv4Datagram.{Ipv4Datagram}
use sponge.Ipv4Datagram.RoundTrip.{IsDatagram}
use sponge.NetworkInterface.Sending.{IsInterface}
use sponge.Router.{Router, RouteTableEntry, AsyncNetworkInterface, pop, drain, route_from, route}
use sponge.Router.Forward.{IsValid, Forwarded, Forwarded-IsValid, route_one_datagram-Forwarded}

-- The queue of the interface at an index.
abbrev pub waiting : List AsyncNetworkInterface → ℕ → List Ipv4Datagram
waiting xs j = elim (get_elem? xs j) [ none ↦ [] | some i ↦ i.datagrams_out ]

waiting-set_at :
    (xs : List AsyncNetworkInterface) (i : ℕ) (y : AsyncNetworkInterface)
    → i < length xs
    → waiting (set_at xs i y) i ≡ y.datagrams_out
waiting-set_at xs i y h = rw (get_elem?-set_at xs i y h, waiting) refl

waiting-set_at_other :
    (xs : List AsyncNetworkInterface) (i j : ℕ) (y : AsyncNetworkInterface)
    → i ≢ j
    → waiting (set_at xs i y) j ≡ waiting xs j
waiting-set_at_other xs i j y h = rw (get_elem?-set_at_other xs i j y h, waiting) refl

-- Setting an interface with the queue that stood there changes no queue.
waiting-set_same :
    (xs : List AsyncNetworkInterface) (i : ℕ) (x y : AsyncNetworkInterface)
    → get_elem? xs i ≡ some x
    → y.datagrams_out ≡ x.datagrams_out
    → (j : ℕ) → waiting (set_at xs i y) j ≡ waiting xs j
waiting-set_same xs i x y e q j = elim (ℕ_discrete i j) [
  | no d ↦ waiting-set_at_other xs i j y d
  | yes d ↦
      subst (λ k. waiting (set_at xs i y) k ≡ waiting xs k) d
        (waiting-set_at xs i y (get_elem?-some xs i x e) ∙ q ∙ sym (rw (e, waiting) refl))
]

module _ (any_shift : ℕ → ℕ → ℕ) where
  -- Neither the table nor the number of interfaces has changed, nor a queue but the one at `i`.
  record OnlyAt (i : ℕ) (r t : Router) : Type 0 where
    table : t.routing_table ≡ r.routing_table
    count : length t.interfaces ≡ length r.interfaces
    others : (j : ℕ) → i ≢ j → waiting t.interfaces j ≡ waiting r.interfaces j

  pop-IsValid :
      (r : Router) (i : ℕ) (x : AsyncNetworkInterface)
      → get_elem? r.interfaces i ≡ some x
      → IsValid r
      → IsValid (pop any_shift r i)
  pop-IsValid r i x e v =
      rw (e, pop)
        (record {
          routes = v.routes;
          in_range =
              subst (λ n. All (λ (e : RouteTableEntry). e.interface_num < n) r.routing_table)
                (sym (length-set_at r.interfaces i _)) v.in_range;
          next_hops = v.next_hops;
          interfaces =
              All-set_at (λ y. IsInterface y.base) r.interfaces i _ v.interfaces
                (All-get_elem? (λ y. IsInterface y.base) r.interfaces i x v.interfaces e);
        })

  -- Routing a datagram changes no queue.
  Forwarded-waiting :
      {r : Router} (dgram : Ipv4Datagram) (t : Router)
      → Forwarded r dgram t
      → (t.routing_table ≡ r.routing_table)
        × (length t.interfaces ≡ length r.interfaces)
        × ((j : ℕ) → waiting t.interfaces j ≡ waiting r.interfaces j)
  Forwarded-waiting dgram t (inl (e, why)) = rw e (refl, refl, λ j. refl)
  Forwarded-waiting {r} dgram t (inr s) = rw (s.result) (
    refl,
    length-set_at r.interfaces _ _,
    waiting-set_same r.interfaces _ s.interface _ s.found refl,
  )

  -- `pop` takes the first datagram off one queue.
  pop-OnlyAt :
      (r : Router) (i : ℕ) (x : AsyncNetworkInterface)
      → get_elem? r.interfaces i ≡ some x
      → OnlyAt i r (pop any_shift r i)
        × (waiting (pop any_shift r i).interfaces i ≡ drop 1 x.datagrams_out)
  pop-OnlyAt r i x e =
      rw (e, pop)
        (
          record {
            table = refl;
            count = length-set_at r.interfaces i _;
            others = λ j d. waiting-set_at_other r.interfaces i j _ d;
          },
          waiting-set_at r.interfaces i _ (get_elem?-some r.interfaces i x e),
        )

  drain_lem :
      (queue : List Ipv4Datagram) (i : ℕ) {r : Router}
      → IsValid r
      → i < length r.interfaces
      → waiting r.interfaces i ≡ queue
      → All IsDatagram queue
      → (t : Router) × (drain any_shift r i queue ≡ some t)
        × OnlyAt i r t
        × IsValid t
        × (waiting t.interfaces i ≡ [])
  unfolding drain
  drain_lem [] i {r} v h q w =
      (r, refl, record { table = refl; count = refl; others = λ j d. refl }, v, q)
  drain_lem (dgram ∷ queue) i {r} v h q w =
      let (t, e, f) = route_one_datagram-Forwarded any_shift dgram v w.0 in
      let (table, count, same) = Forwarded-waiting dgram t f in
      let o : OnlyAt i r t = record { table = table; count = count; others = λ j d. same j } in
      let (x, at) = get_elem?-lt t.interfaces i (omega (arith, count)) in
      let (p, shorter) = pop-OnlyAt t i x at in
      let first : x.datagrams_out ≡ dgram ∷ queue = sym (rw (at, waiting) refl) ∙ same i ∙ q in
      let (u, e', o', v', done) =
        drain_lem queue i (pop-IsValid t i x at (Forwarded-IsValid dgram t f v))
          (omega (arith, count, p.count)) (shorter ∙ ap (drop 1) first) w.1 in
      (
        u,
        rw (e, drain) e',
        record {
          table = o'.table ∙ p.table ∙ o.table;
          count = o'.count ∙ p.count ∙ o.count;
          others = λ j d. o'.others j d ∙ p.others j d ∙ o.others j d;
        },
        v',
        done,
      )

  -- What the loop over the interfaces has done before index `i`.
  Emptied : Router → ℕ → Type 0
  Emptied r i = (j : ℕ) → j < i → waiting r.interfaces j ≡ []

  route_from_lem :
      (n i : ℕ) {r : Router}
      → IsValid r
      → ((j : ℕ) → All IsDatagram (waiting r.interfaces j))
      → i + n ≡ length r.interfaces
      → Emptied r i
      → (t : Router) × (route_from any_shift n i r ≡ some t)
        × (t.routing_table ≡ r.routing_table)
        × (length t.interfaces ≡ length r.interfaces)
        × Emptied t (length t.interfaces)
        × IsValid t
  unfolding route_from Emptied
  route_from_lem zero i {r} v w e d = (r, refl, refl, refl, (λ j h. d j (omega arith)), v)
  route_from_lem (suc n) i {r} v w e d =
      let (x, at) = get_elem?-lt r.interfaces i (omega arith) in
      let queue : waiting r.interfaces i ≡ x.datagrams_out = rw (at, waiting) refl in
      let (t, run, o, v', done) =
        drain_lem x.datagrams_out i v (omega arith) queue (subst (All IsDatagram) queue (w i)) in
      let (u, e', table, count, all, valid) =
        route_from_lem n (suc i) v'
          (λ j. elim (ℕ_discrete i j) [
            | yes p ↦
                subst (λ k. All IsDatagram (waiting t.interfaces k)) p
                  (subst (All IsDatagram) (sym done) tt)
            | no p ↦ subst (All IsDatagram) (sym (o.others j p)) (w j)
          ])
          (omega (arith, o.count))
          (λ j h. elim (ℕ_discrete i j) [
            | yes p ↦ subst (λ k. waiting t.interfaces k ≡ []) p done
            | no p ↦ o.others j p ∙ d j (omega arith)
          ]) in
      (u, rw (at, run, route_from) e', table ∙ o.table, count ∙ o.count, all, valid)

  -- For a router whose routes have 32-bit prefixes of lengths up to 32 and lead to interfaces
  -- that it has and next hops below 2 ^ 32, whose interfaces have addresses in range, and whose
  -- datagrams to be routed are in range and right in their lengths: route has a defined result,
  -- in which no interface has a datagram to be routed, the table and the number of interfaces are
  -- the same, and the conditions on routes and interfaces hold.
  pub route_lem :
      {r : Router}
      → IsValid r
      → ((j : ℕ) → All IsDatagram (waiting r.interfaces j))
      → (t : Router) × (route any_shift r ≡ some t)
        × (t.routing_table ≡ r.routing_table)
        × (length t.interfaces ≡ length r.interfaces)
        × ((j : ℕ) → j < length t.interfaces → waiting t.interfaces j ≡ [])
        × IsValid t
  unfolding route Emptied
  route_lem {r} v w =
      route_from_lem (length r.interfaces) 0 v w (omega arith) (λ j h. absurd (omega arith))
