-- ===== src/Timer/Deadline.antt =====
-- When the retransmission timer runs out.
use sponge.Prelude.{
  ℕ, ◌+◌, ◌<◌, ◌^◌, ◌≡◌, refl, true, false, List, [], ◌∷◌, leb, arith, Bool-cases, inl, inr, ap,
  ◌∙◌,
}
use sponge.Timer.{Timer, start_timer, tick, ticks, total}

-- A running timer that has not run out has its deadline before it.
pub record IsRunning (t : Timer) : Type 0 where
  pub active : t.active ≡ true
  pub pending : t.expired ≡ false

ticks_expired : (ms : List ℕ) (t : Timer) → t.expired ≡ true → ticks t ms ≡ t
unfolding ticks tick
ticks_expired [] t h = refl
ticks_expired (m ∷ ms) t h = ground (arith, ticks_expired ms t h)

ticks-sum :
    (ms : List ℕ) (t : Timer)
    → IsRunning t
    → t.time_passed < t.rto
    → t.time_passed + total ms < 2 ^ 32
    → (ticks t ms).expired ≡ leb t.rto (t.time_passed + total ms)
unfolding ticks tick
ticks-sum [] t v h k = ground arith
ticks-sum (m ∷ ms) t v h k = elim (Bool-cases (leb t.rto (t.time_passed + m))) [
  | inl late ↦
      ground
        (arith, v, ticks_expired ms (record t { time_passed = t.time_passed + m; expired = true }))
  | inr early ↦
      ground
        (arith, v, ticks-sum ms (record t { time_passed = t.time_passed + m; expired = false }))
]

-- A timer that was started with a positive limit has expired after some ticks of less than 2 ^ 32
-- milliseconds altogether exactly if they sum up to the limit at least, whatever the timer did
-- before.
pub ticks-start_timer :
    (t : Timer) (rto : ℕ) (ms : List ℕ)
    → 0 < rto
    → total ms < 2 ^ 32
    → (ticks (start_timer t rto) ms).expired ≡ leb rto (total ms)
unfolding start_timer
ticks-start_timer t rto ms h k =
    ticks-sum ms _ (record { active = refl; pending = refl }) h (omega arith)
    ∙ ap (leb rto) {x = 0 + total ms} (omega arith)
