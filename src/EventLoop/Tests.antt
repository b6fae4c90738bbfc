-- ===== src/EventLoop/Tests.antt =====
-- An event loop at concrete rules, over one descriptor that counts its reads.
use sponge.Prelude.{ℕ, ◌≡◌, refl, true, List, [], ◌∷◌, none, some}
use sponge.FileDescriptor.{FdWrapper, new, register_read}
use sponge.EventLoop.{
  Rule, input, success, exit, Pollfd, PollReturn, ready, failed, no_revents, polled, set_up,
  something_to_poll, serve_rule, serve_ready, call_rule, serve, rules_of, after_poll,
  wait_next_event,
}
use sponge.EventLoop.Errors.{wait_next_event_swallows}

-- The descriptor, and how many bytes may still come.
pub record World : Type 0 where
  pub fd : FdWrapper
  pub left : ℕ

abbrev fd_of : World → ℕ → FdWrapper
fd_of w n = w.fd

abbrev readable : World → List Pollfd → ℕ → World × PollReturn
readable w fds ms = (w, ready (record no_revents { pollin = true } ∷ []))

abbrev broken : World → List Pollfd → ℕ → World × PollReturn
broken w fds ms = (w, failed 22)

abbrev start : World
start = record { fd = new 3; left = 2 }

-- A rule that reads, and one that does nothing while it goes on being interested.
abbrev reads : Rule World
reads = record {
  fd = 3;
  direction = input;
  callback = λ w. some (record { fd = register_read w.fd; left = w.left });
  interest = λ w. true;
  cancel = λ w. some w;
}

abbrev idles : Rule World
idles = record {
  fd = 3;
  direction = input;
  callback = λ w. some w;
  interest = λ w. true;
  cancel = λ w. some w;
}

served :
    wait_next_event fd_of readable start (reads ∷ []) 10
    ≡ some (record { fd = register_read start.fd; left = 2 }, reads ∷ [], success)
unfolding wait_next_event set_up something_to_poll after_poll serve serve_rule serve_ready call_rule
    new
served = refl

busy_wait : wait_next_event fd_of readable start (idles ∷ []) 10 ≡ none
unfolding wait_next_event set_up something_to_poll after_poll serve serve_rule serve_ready call_rule
    new
busy_wait = refl

nothing_left :
    wait_next_event fd_of readable
      (record { fd = record (new 3) { closed = true }; left = 0 })
      (reads ∷ [])
      10
    ≡ some (record { fd = record (new 3) { closed = true }; left = 0 }, [], exit)
unfolding wait_next_event set_up something_to_poll new
nothing_left = refl

set_up_start :
    set_up fd_of broken start (reads ∷ []) ≡ some (start, polled fd_of broken start reads ∷ [])
unfolding set_up new
set_up_start = refl

asks : something_to_poll fd_of broken (polled fd_of broken start reads ∷ []) ≡ true
unfolding something_to_poll
asks = refl

wait_next_event_swallows_example :
    wait_next_event fd_of broken start (reads ∷ []) 10
    ≡ some (start, rules_of fd_of broken (polled fd_of broken start reads ∷ []), success)
wait_next_event_swallows_example =
    wait_next_event_swallows fd_of broken start start (reads ∷ [])
      (polled fd_of broken start reads ∷ []) 10 22 set_up_start asks refl refl
