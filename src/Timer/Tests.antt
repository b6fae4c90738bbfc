-- ===== src/Timer/Tests.antt =====
-- The timer run on small ticks, and its theorem at a concrete input.
use sponge.Prelude.{◌≡◌, refl, true, false, [], ◌∷◌, leb, arith}
use sponge.Timer.{new, start_timer, tick, ticks, total}
use sponge.Timer.Deadline.{ticks-start_timer}

ticks_run :
    ((ticks (start_timer new 1000) (400 ∷ 599 ∷ [])).expired ≡ false)
    × ((ticks (start_timer new 1000) (400 ∷ 600 ∷ 1 ∷ [])).expired ≡ true)
unfolding ticks tick start_timer new
ticks_run = (refl, refl)

ticks-start_timer_example :
    (ticks (start_timer new 1000) (400 ∷ 600 ∷ 1 ∷ [])).expired
    ≡ leb 1000 (total (400 ∷ 600 ∷ 1 ∷ []))
ticks-start_timer_example =
    ticks-start_timer new 1000 (400 ∷ 600 ∷ 1 ∷ []) (omega arith) (omega arith)
