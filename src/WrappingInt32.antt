-- ===== src/WrappingInt32.antt =====
-- libsponge/wrapping_integers.hh and wrapping_integers.cc: 32-bit sequence numbers relative to an
-- initial one, and the 64-bit absolute numbers that they stand for. A `WrappingInt32` is its
-- `_raw_value`, a number below 2 ^ 32.
pub mod RoundTrip
pub mod Closest
mod Tests
use sponge.Prelude.{
  ℕ, ◌+◌, ◌-◌, ◌/◌, ◌%◌, ◌^◌, Bool, leb, ltb, ◌==◌, not, if◌then◌else◌, add64, sub64, mul64, add32,
  sub32,
}

pub record WrappingInt32 : Type 0 where
  pub raw_value : ℕ

-- `static_cast<uint64_t>(isn.raw_value() + n) % (1UL << 32)`, then stored in a `uint32_t`.
unfoldable pub wrap : ℕ → WrappingInt32 → WrappingInt32
wrap n isn = record { raw_value = add64 isn.raw_value n % 2 ^ 32 }

-- The first of the numbers from 0 on that wraps to `n`.
unfoldable pub init_absseqno : WrappingInt32 → WrappingInt32 → ℕ
init_absseqno n isn =
    if leb isn.raw_value n.raw_value
    then sub32 n.raw_value isn.raw_value
    else sub64 (add64 n.raw_value (2 ^ 32)) isn.raw_value

-- `distance0`, `distance1` and `distance2`.
abbrev pub distance : ℕ → ℕ → ℕ
distance absseqno checkpoint =
    if leb checkpoint absseqno then sub64 absseqno checkpoint else sub64 checkpoint absseqno

-- The nested ternary that ends `unwrap`.
unfoldable pub pick : ℕ → ℕ → ℕ → ℕ → ℕ
pick a0 a1 a2 checkpoint =
    if leb (distance a0 checkpoint) (distance a1 checkpoint)
    then if leb (distance a0 checkpoint) (distance a2 checkpoint) then a0 else a2
    else if leb (distance a1 checkpoint) (distance a2 checkpoint)
    then a1
    else a2

unfoldable pub unwrap : WrappingInt32 → WrappingInt32 → ℕ → ℕ
unwrap n isn checkpoint =
    let init = init_absseqno n isn in
    let n_power = checkpoint / 2 ^ 32 in
    pick (add64 init (mul64 (if leb n_power 1 then n_power else n_power - 1) (2 ^ 32)))
      (add64 init (mul64 n_power (2 ^ 32))) (add64 init (mul64 (n_power + 1) (2 ^ 32))) checkpoint

-- `operator==`, `operator!=`, and `operator+` and `operator-` with a `uint32_t`.
abbrev pub eq : WrappingInt32 → WrappingInt32 → Bool
eq a b = a.raw_value == b.raw_value

abbrev pub ne : WrappingInt32 → WrappingInt32 → Bool
ne a b = not (eq a b)

unfoldable pub plus : WrappingInt32 → ℕ → WrappingInt32
plus a b = record { raw_value = add32 a.raw_value b }

-- `a + -b`, where `-b` is that of `uint32_t`.
unfoldable pub minus : WrappingInt32 → ℕ → WrappingInt32
unfolding plus
minus a b = plus a (sub32 0 b)
