-- ===== src/Timer.antt =====
-- `class Timer` of libsponge/tcp_sender.hh: the one retransmission timer of a sender.
pub mod Deadline
mod Tests
use sponge.Prelude.{
  ℕ, ◌+◌, ◌≤◌, ◌<◌, ◌^◌, ◌≡◌, refl, Bool, true, false, not, ◌||◌, List, [], ◌∷◌, leb, if◌then◌else◌,
  add32, arith,
}

pub record Timer : Type 0 where
  pub rto : ℕ
  pub active : Bool
  pub time_passed : ℕ
  pub expired : Bool

unfoldable pub new : Timer
new = record { rto = 0; active = false; time_passed = 0; expired = false }

unfoldable pub stop_timer : Timer → Timer
stop_timer t = record t { active = false }

abbrev pub timer_closed : Timer → Bool
timer_closed t = not t.active

unfoldable pub start_timer : Timer → ℕ → Timer
start_timer t rto = record t { rto = rto; active = true; time_passed = 0; expired = false }

-- `_time_passed` is an `unsigned int`, and the time a `size_t`.
unfoldable pub tick : Timer → ℕ → Timer
tick t ms =
    if not t.active || t.expired
    then t
    else let passed = add32 t.time_passed ms in
      record t { time_passed = passed; expired = leb t.rto passed }

-- The timer after ticks of these lengths.
unfoldable pub ticks : Timer → List ℕ → Timer
ticks t [] = t
ticks t (ms ∷ rest) = ticks (tick t ms) rest

abbrev pub total : List ℕ → ℕ
total [] = 0
total (ms ∷ rest) = ms + total rest
