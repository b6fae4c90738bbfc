-- ===== src/WrappingInt32/RoundTrip.antt =====
-- `wrap` and `unwrap` are inverse to one another.
use sponge.Prelude.{ℕ, ◌+◌, ◌-◌, ◌/◌, ◌%◌, ◌^◌, ◌<◌, ◌≡◌, arith, leb, if◌then◌else◌, ◌*◌, ◌⊎◌}
use sponge.WrappingInt32.{WrappingInt32, wrap, unwrap, init_absseqno, pick}

abbrev pub IsWord : WrappingInt32 → Type 0
IsWord a = a.raw_value < 2 ^ 32

pub wrap-IsWord : (n : ℕ) (isn : WrappingInt32) → IsWord (wrap n isn)
unfolding wrap
wrap-IsWord n isn = omega arith

pub init_absseqno-lt :
    (n isn : WrappingInt32)
    → IsWord n
    → IsWord isn
    → (init_absseqno n isn < 2 ^ 32)
      × ((isn.raw_value + init_absseqno n isn) % 2 ^ 32 ≡ n.raw_value)
unfolding init_absseqno
init_absseqno-lt n isn h k = ground arith

pub pick_cases :
    (a0 a1 a2 c : ℕ) → (pick a0 a1 a2 c ≡ a0) ⊎ (pick a0 a1 a2 c ≡ a1) ⊎ (pick a0 a1 a2 c ≡ a2)
unfolding pick
pick_cases a0 a1 a2 c = ground arith

-- For sequence and initial numbers below 2 ^ 32 and any checkpoint, the number that unwrap
-- answers wraps to the sequence number given.
pub wrap-unwrap :
    (n isn : WrappingInt32) (checkpoint : ℕ)
    → IsWord n
    → IsWord isn
    → wrap (unwrap n isn checkpoint) isn ≡ n
unfolding wrap unwrap
wrap-unwrap n isn c h k = ground (
  arith,
  init_absseqno-lt n isn h k,
  pick_cases
      ((init_absseqno n isn
          + (if leb (c / 2 ^ 32) 1 then c / 2 ^ 32 else c / 2 ^ 32 - 1) * 2 ^ 32 % 2 ^ 64)
        % 2 ^ 64)
      ((init_absseqno n isn + (c / 2 ^ 32) * 2 ^ 32 % 2 ^ 64) % 2 ^ 64)
      ((init_absseqno n isn + (c / 2 ^ 32 + 1) * 2 ^ 32 % 2 ^ 64) % 2 ^ 64) c,
)
