-- ===== src/EventLoop/Errors.antt =====
-- What `wait_next_event` does when `poll` fails, libsponge/util/eventloop.cc.
use sponge.Prelude.{ℕ, ◌≡◌, refl, ap, Bool, true, false, List, [], ◌∷◌, map, some, ◌==◌, arith}
use sponge.FileDescriptor.{FdWrapper}
use sponge.EventLoop.{
  Rule, success, Pollfd, PollReturn, Polled, failed, input, output, Direction, is_ready, no_revents,
  eintr, serve_rule, serve_ready, serve, set_up, something_to_poll, rules_of, succeed, after_poll,
  wait_next_event,
}

is_ready-no_revents : (d : Direction) (asked : Bool) → is_ready d asked no_revents ≡ false
is_ready-no_revents input asked = ground arith
is_ready-no_revents output asked = ground arith

module _ {W : Type 0} (fd_of : W → ℕ → FdWrapper)
    (poll : W → List Pollfd → ℕ → W × PollReturn) where
  -- Without events no rule is called, and all stay.
  pub serve-no_revents :
      (w : W) (polls : List (Polled W))
      → serve fd_of poll w polls [] ≡ some (w, rules_of fd_of poll polls)
  unfolding serve serve_rule serve_ready
  serve-no_revents w [] = refl
  serve-no_revents w (p ∷ polls) =
      rw (is_ready-no_revents p.pollfd.direction p.pollfd.asked, serve)
        (rw (serve-no_revents w polls, serve) refl)

  -- If some rule asks for its descriptor and poll fails with an error other than EINTR,
  -- wait_next_event does not throw: it returns success, with the rules that are left after the
  -- set-up and with no callback called.
  pub wait_next_event_swallows :
      (w w' : W) (rules : List (Rule W)) (polls : List (Polled W)) (ms errno : ℕ)
      → set_up fd_of poll w rules ≡ some (w', polls)
      → something_to_poll fd_of poll polls ≡ true
      → (poll w' (map (λ p. p.pollfd) polls) ms).1 ≡ failed errno
      → (errno == eintr) ≡ false
      → wait_next_event fd_of poll w rules ms
        ≡ some ((poll w' (map (λ p. p.pollfd) polls) ms).0, rules_of fd_of poll polls, success)
  unfolding wait_next_event after_poll
  wait_next_event_swallows w w' rules polls ms errno s p f other =
      rw (s, wait_next_event)
        (rw p (
          rw (f, after_poll)
            (rw (other, after_poll) (ap (succeed fd_of poll) (serve-no_revents _ polls)))))
