-- ===== src/EventLoop/Waiting.antt =====
-- `wait_next_event` of libsponge/util/eventloop.cc, compared with a relation.
use sponge.Prelude.{ℕ, ◌≡◌, ◌≢◌, true, false, All, Any, List, map, Option, none, some}
use sponge.FileDescriptor.{FdWrapper}
use sponge.EventLoop.{
  Rule, Result, success, timeout, exit, Pollfd, Revents, PollReturn, ready, timed_out, failed,
  Polled, eintr,
}
use sponge.EventLoop.Turns.{Prepared, Served}

module _ {W : Type 0} (fd_of : W → ℕ → FdWrapper)
    (poll : W → List Pollfd → ℕ → W × PollReturn) where
  -- What is asked of `poll`.
  abbrev pub asked : List (Polled W) → List Pollfd
  asked polls = map (λ p. p.pollfd) polls

  -- How a wait ends, with the world, the rules and the result after it.
  pub data Waits (w : W) (rules : List (Rule W)) (ms : ℕ)
      : W → List (Rule W) → Result → Type 0 where
    nothing_asked :
        {w1 : W} {polls : List (Polled W)}
        → Prepared fd_of poll w rules w1 polls
        → All (λ p. p.pollfd.asked ≡ false) polls
        → Waits w rules ms w1 (map (λ p. p.rule) polls) exit
    nothing_happened :
        {w1 w2 : W} {polls : List (Polled W)}
        → Prepared fd_of poll w rules w1 polls
        → Any (λ p. p.pollfd.asked ≡ true) polls
        → poll w1 (asked polls) ms ≡ (w2, timed_out)
        → Waits w rules ms w2 (map (λ p. p.rule) polls) timeout
    interrupted :
        {w1 w2 : W} {polls : List (Polled W)}
        → Prepared fd_of poll w rules w1 polls
        → Any (λ p. p.pollfd.asked ≡ true) polls
        → poll w1 (asked polls) ms ≡ (w2, failed eintr)
        → Waits w rules ms w2 (map (λ p. p.rule) polls) exit
    poll_failed :
        {w1 w2 : W} {polls : List (Polled W)} {errno : ℕ}
        → Prepared fd_of poll w rules w1 polls
        → Any (λ p. p.pollfd.asked ≡ true) polls
        → poll w1 (asked polls) ms ≡ (w2, failed errno)
        → errno ≢ eintr
        → Waits w rules ms w2 (map (λ p. p.rule) polls) success
    happened :
        {w1 w2 w3 : W} {polls : List (Polled W)} {vs : List Revents} {left : List (Rule W)}
        → Prepared fd_of poll w rules w1 polls
        → Any (λ p. p.pollfd.asked ≡ true) polls
        → poll w1 (asked polls) ms ≡ (w2, ready vs)
        → Served fd_of poll w2 polls vs w3 left
        → Waits w rules ms w3 left success

  abbrev WaitsAs : W → List (Rule W) → ℕ → Option (W × List (Rule W) × Result) → Type 0
  WaitsAs w rules ms none = Unit
  WaitsAs w rules ms (some (w', left, result)) = Waits w rules ms w' left result
