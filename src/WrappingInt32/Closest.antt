-- ===== src/WrappingInt32/Closest.antt =====
-- `unwrap` and the checkpoint: among the absolute numbers that wrap to the same sequence number it
-- answers the one nearest to the checkpoint, but for checkpoints from 2 ^ 32 up to 2 ^ 33, where it
-- never looks at the numbers below 2 ^ 32.
use sponge.Prelude.{
  ℕ, ◌+◌, ◌-◌, ◌/◌, ◌%◌, ◌^◌, ◌≤◌, ◌<◌, ◌≡◌, ◌≢◌, arith, leb, if◌then◌else◌, ◌*◌, ◌⊎◌, refl,
}
use sponge.WrappingInt32.{WrappingInt32, wrap, unwrap, init_absseqno, pick, distance}
use sponge.WrappingInt32.RoundTrip.{IsWord}

-- The distance between two absolute numbers.
abbrev pub gap : ℕ → ℕ → ℕ
gap a b = (a - b) + (b - a)

init_absseqno-wrap :
    (m : ℕ) (isn : WrappingInt32)
    → m < 2 ^ 64
    → IsWord isn
    → init_absseqno (wrap m isn) isn ≡ m % 2 ^ 32
unfolding init_absseqno wrap
init_absseqno-wrap m isn h k = ground arith

distance-gap : (a c : ℕ) → a < 2 ^ 64 → c < 2 ^ 64 → distance a c ≡ gap a c
distance-gap a c h k = ground arith

-- The ternary picks a candidate that no other candidate beats.
record Picks (a0 a1 a2 c : ℕ) (r : ℕ) : Type 0 where
  one_of : (r ≡ a0) ⊎ (r ≡ a1) ⊎ (r ≡ a2)
  le0 : distance r c ≤ distance a0 c
  le1 : distance r c ≤ distance a1 c
  le2 : distance r c ≤ distance a2 c

pick-Picks : (a0 a1 a2 c : ℕ) → Picks a0 a1 a2 c (pick a0 a1 a2 c)
unfolding pick
pick-Picks a0 a1 a2 c = ground arith

-- `unwrap` as a choice between three plain sums, where nothing overflows.
unwrap-pick :
    (m : ℕ) (isn : WrappingInt32) (c : ℕ)
    → m < 2 ^ 64
    → IsWord isn
    → c < 2 ^ 64 - 2 ^ 32
    → unwrap (wrap m isn) isn c
      ≡ pick
          (m % 2 ^ 32 + (if leb (c / 2 ^ 32) 1 then c / 2 ^ 32 else c / 2 ^ 32 - 1) * 2 ^ 32)
          (m % 2 ^ 32 + c / 2 ^ 32 * 2 ^ 32)
          (m % 2 ^ 32 + (c / 2 ^ 32 + 1) * 2 ^ 32)
          c
unfolding unwrap
unwrap-pick m isn c h k hc = ground (arith, init_absseqno-wrap m isn h k)

-- The number of whole turns in `m`, beside the checkpoint's, decides which candidate is as near.
pick_closest :
    (m c a0 r : ℕ)
    → a0 ≡ m % 2 ^ 32 + (if leb (c / 2 ^ 32) 1 then c / 2 ^ 32 else c / 2 ^ 32 - 1) * 2 ^ 32
    → m < 2 ^ 64
    → c < 2 ^ 64 - 2 ^ 32
    → (c / 2 ^ 32 ≢ 1) ⊎ (2 ^ 32 ≤ m)
    → r < 2 ^ 64
    → gap r c ≤ gap a0 c
    → gap r c ≤ gap (m % 2 ^ 32 + c / 2 ^ 32 * 2 ^ 32) c
    → gap r c ≤ gap (m % 2 ^ 32 + (c / 2 ^ 32 + 1) * 2 ^ 32) c
    → gap r c ≤ gap m c
pick_closest m c a0 r e h k far rl p q s = ground arith

unwrap_near :
    (m : ℕ) (isn : WrappingInt32) (c : ℕ)
    → m < 2 ^ 64
    → IsWord isn
    → c < 2 ^ 64 - 2 ^ 32
    → (c / 2 ^ 32 ≢ 1) ⊎ (2 ^ 32 ≤ m)
    → (unwrap (wrap m isn) isn c % 2 ^ 32 ≡ m % 2 ^ 32)
      × (gap (unwrap (wrap m isn) isn c) c ≤ gap m c)
unwrap_near m isn c h k hc far = rw (unwrap-pick m isn c h k hc) (near _ refl (pick-Picks _ _ _ c))
  where
    a1 : ℕ
    a1 = m % 2 ^ 32 + c / 2 ^ 32 * 2 ^ 32

    a2 : ℕ
    a2 = m % 2 ^ 32 + (c / 2 ^ 32 + 1) * 2 ^ 32

    near :
        (a0 : ℕ)
        → a0 ≡ m % 2 ^ 32 + (if leb (c / 2 ^ 32) 1 then c / 2 ^ 32 else c / 2 ^ 32 - 1) * 2 ^ 32
        → {r : ℕ} → Picks a0 a1 a2 c r
        → (r % 2 ^ 32 ≡ m % 2 ^ 32) × (gap r c ≤ gap m c)
    near a0 e {r} p =
        let bound : a0 < 2 ^ 64 = ground arith in
        let same : (r < 2 ^ 64) × (r % 2 ^ 32 ≡ m % 2 ^ 32) = ground arith in
        (
          same.1,
          pick_closest m c a0 r e h hc far same.0 (ground (arith, p)) (ground (arith, p))
              (ground (arith, p)),
        )

-- For a number m below 2 ^ 64, an initial number below 2 ^ 32 and a checkpoint below 2 ^ 64 - 2 ^
-- 32, outside the blind spot (the checkpoint in the second turn of the sequence space and m in
-- the first), what unwrap answers for the sequence number of m is at least as near to the
-- checkpoint as m.
pub unwrap_closest :
    (m : ℕ) (isn : WrappingInt32) (c : ℕ)
    → m < 2 ^ 64
    → IsWord isn
    → c < 2 ^ 64 - 2 ^ 32
    → (c / 2 ^ 32 ≢ 1) ⊎ (2 ^ 32 ≤ m)
    → gap (unwrap (wrap m isn) isn c) c ≤ gap m c
unwrap_closest m isn c h k hc far = (unwrap_near m isn c h k hc far).1

-- For an absolute number below 2 ^ 64, an initial number below 2 ^ 32 and a checkpoint below 2 ^
-- 64 - 2 ^ 32 at less than 2 ^ 31 from it, outside the blind spot (the checkpoint in the second
-- turn of the sequence space and the number in the first), unwrap gives the number back from its
-- sequence number.
pub unwrap-wrap :
    (m : ℕ) (isn : WrappingInt32) (c : ℕ)
    → m < 2 ^ 64
    → IsWord isn
    → c < 2 ^ 64 - 2 ^ 32
    → (c / 2 ^ 32 ≢ 1) ⊎ (2 ^ 32 ≤ m)
    → gap m c < 2 ^ 31
    → unwrap (wrap m isn) isn c ≡ m
unwrap-wrap m isn c h k hc far near = omega (arith, unwrap_near m isn c h k hc far)

-- With an initial number below 2 ^ 32 and a checkpoint in the second turn of the sequence space,
-- a number of the first turn that lies less than 2 ^ 31 before the checkpoint comes back from its
-- sequence number one turn too late.
pub unwrap_skips_first_turn :
    (m : ℕ) (isn : WrappingInt32) (c : ℕ)
    → IsWord isn
    → c / 2 ^ 32 ≡ 1
    → m < 2 ^ 32
    → c - m < 2 ^ 31
    → unwrap (wrap m isn) isn c ≡ m + 2 ^ 32
unfolding pick
unwrap_skips_first_turn m isn c k turn h near =
    ground (arith, unwrap-pick m isn c (omega arith) k (omega arith))
