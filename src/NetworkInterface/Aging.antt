-- ===== src/NetworkInterface/Aging.antt =====
-- What an interface still knows when time has passed.
use sponge.Prelude.{
  ℕ, ◌≤◌, ◌≡◌, ◌↔◌, refl, List, [], ◌∷◌, inl, inr, Any, ltb, add64, Bool-cases, arith,
}
use sponge.EthernetHeader.{EthernetAddress}
use sponge.NetworkInterface.{
  NetworkInterface, mapping_time_limit, arp_time, age_mappings, age_requests, tick,
}

module _ (ms : ℕ) where
  -- A pair before the time that is `(ip, now)` after it, and not over its limit.
  abbrev pub Asked : ℕ → ℕ → ℕ × ℕ → Type 0
  Asked ip now e = (e.0 ≡ ip) × (add64 (e.1) ms ≡ now) × (now ≤ arp_time)

  abbrev pub Mapped : ℕ → EthernetAddress → ℕ → ℕ × (EthernetAddress × ℕ) → Type 0
  Mapped ip address now e =
      (e.0 ≡ ip) × (e.1.0 ≡ address) × (add64 (e.1.1) ms ≡ now) × (now ≤ mapping_time_limit)

  requests_lem :
      (m : List (ℕ × ℕ)) (ip now : ℕ)
      → Any (λ e. e ≡ (ip, now)) (age_requests m ms) ↔ Any (Asked ip now) m
  unfolding age_requests
  requests_lem [] ip now = (λ h. h, λ h. h)
  requests_lem ((key, age) ∷ rest) ip now =
      let r = requests_lem rest ip now in
      elim (Bool-cases (ltb arp_time (add64 age ms))) [
        | inl over ↦ ground (arith, over, r)
        | inr kept ↦ ground (arith, kept, r)
      ]

  mappings_lem :
      (m : List (ℕ × (EthernetAddress × ℕ))) (ip : ℕ) (address : EthernetAddress) (now : ℕ)
      → Any (λ e. e ≡ (ip, (address, now))) (age_mappings m ms) ↔ Any (Mapped ip address now) m
  unfolding age_mappings
  mappings_lem [] ip address now = (λ h. h, λ h. h)
  mappings_lem ((key, (mac, age)) ∷ rest) ip address now =
      let r = mappings_lem rest ip address now in
      elim (Bool-cases (ltb mapping_time_limit (add64 age ms))) [
        | inl over ↦ ground (arith, over, r)
        | inr kept ↦ ground (arith, kept, r)
      ]

-- After a tick an address stands in the map with an age exactly if it stood there with an age
-- that, the tick added, is that one and not over 30000; a request is timed exactly if it was
-- timed with a time that, the tick added, is that one and not over 5000; and the frames and the
-- waiting datagrams are the same.
pub tick_ages :
    (n : NetworkInterface) (ms ip : ℕ) (address : EthernetAddress) (now : ℕ)
    → let t = tick n ms in
      (Any (λ e. e ≡ (ip, (address, now))) t.ip_map ↔ Any (Mapped ms ip address now) n.ip_map)
      × (Any (λ e. e ≡ (ip, now)) t.arp_timer ↔ Any (Asked ms ip now) n.arp_timer)
      × (t.frames_out ≡ n.frames_out)
      × (t.frames_waited ≡ n.frames_waited)
unfolding tick
tick_ages n ms ip address now =
    (mappings_lem ms n.ip_map ip address now, requests_lem ms n.arp_timer ip now, refl, refl)
