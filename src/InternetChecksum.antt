-- ===== src/InternetChecksum.antt =====
-- `class InternetChecksum` of libsponge/util/util.hh and util.cc.
pub mod Sum
use sponge.Prelude.{
  ℕ, zero, suc, ◌-◌, ◌*◌, ◌/◌, ◌%◌, ◌^◌, Bool, false, not, List, [], ◌∷◌, Bytes, ltb, if◌then◌else◌,
  add32,
}

pub record InternetChecksum : Type 0 where
  pub sum : ℕ
  pub parity : Bool

unfoldable pub new : ℕ → InternetChecksum
new initial_sum = record { sum = initial_sum; parity = false }

-- One round of the loop of `add`: `val` is a `uint16_t`.
unfoldable pub add_byte : InternetChecksum → ℕ → InternetChecksum
add_byte c byte =
    let val = if not c.parity then byte * 256 % 2 ^ 16 else byte in
    record { sum = add32 c.sum val; parity = not c.parity }

unfoldable pub add : InternetChecksum → Bytes → InternetChecksum
add c [] = c
add c (byte ∷ bytes) = add (add_byte c byte) bytes

-- The `while` of `value`: two rounds are enough for 32 bits.
unfoldable pub fold_loop : ℕ → ℕ → ℕ
fold_loop zero ret = ret
fold_loop (suc fuel) ret =
    let rest = fold_loop fuel (add32 (ret / 2 ^ 16) (ret % 2 ^ 16)) in
    if ltb (2 ^ 16 - 1) ret then rest else ret

-- `~ret`, as a `uint16_t`.
unfoldable pub value : InternetChecksum → ℕ
value c = (2 ^ 32 - 1 - fold_loop 3 c.sum) % 2 ^ 16
