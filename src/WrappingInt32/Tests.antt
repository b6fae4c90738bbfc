-- ===== src/WrappingInt32/Tests.antt =====
-- wrapping_integers.cc at the inputs of tests/wrapping_integers_unwrap.cc, and the theorems at
-- concrete inputs.
use sponge.Prelude.{ℕ, ◌+◌, ◌*◌, ◌-◌, ◌^◌, ◌≡◌, refl, arith, inr}
use sponge.WrappingInt32
use sponge.WrappingInt32.{WrappingInt32, wrap, unwrap, minus}
use sponge.WrappingInt32.Closest.{unwrap-wrap, unwrap_skips_first_turn}

abbrev at : ℕ → WrappingInt32
at n = record { raw_value = n }

unwrap_runs :
    (unwrap (at 1) (at 0) 0 ≡ 1)
    × (unwrap (at 1) (at 0) (2 ^ 32 - 1) ≡ 2 ^ 32 + 1)
    × (unwrap (at (2 ^ 32 - 1)) (at 0) (3 * 2 ^ 32) ≡ 3 * 2 ^ 32 - 1)
    × (unwrap (at 15) (at 16) 0 ≡ 2 ^ 32 - 1)
unfolding unwrap WrappingInt32.init_absseqno WrappingInt32.pick
unwrap_runs = (refl, refl, refl, refl)

minus_runs : minus (at 3) 5 ≡ at (2 ^ 32 - 2)
unfolding minus
minus_runs = refl

unwrap-wrap_example : unwrap (wrap (2 ^ 32 + 7) (at 5)) (at 5) (2 ^ 32 + 9) ≡ 2 ^ 32 + 7
unwrap-wrap_example =
    unwrap-wrap (2 ^ 32 + 7) (at 5) (2 ^ 32 + 9) (omega arith) (omega arith) (omega arith)
      (inr (omega arith)) (omega arith)

-- One byte in front of the second turn, seen from its start.
unwrap_skips_first_turn_example :
    unwrap (wrap (2 ^ 32 - 1) (at 5)) (at 5) (2 ^ 32) ≡ 2 ^ 32 - 1 + 2 ^ 32
unwrap_skips_first_turn_example =
    unwrap_skips_first_turn (2 ^ 32 - 1) (at 5) (2 ^ 32) (omega arith) (omega arith) (omega arith)
      (omega arith)
