-- ===== src/TcpSpongeSocket/Delivery.antt =====
-- The bytes on their way to the application, along any run of the socket's loop.
use sponge.Prelude.{
  ℕ, ◌≡◌, ap, ap₂, sym, subst, Bool, true, false, ◌||◌, Bool-cases, if_both, Option-cases, inl, inr,
  [], ◌∷◌, ◌++◌, List, All, Option, none, some, Bytes, sub64,
}
use sponge.StreamReassembler.Grows.{Grows, Grows-self, Grows-trans}
use sponge.FileDescriptor.{FdWrapper}
use sponge.EventLoop.{Rule, Result, Pollfd, PollReturn}
use sponge.EventLoop.Keeps.{Holds, KeepsIt, Kept, wait_next_event-Kept}
use sponge.TcpConnection
use sponge.TcpConnection.{TcpConnection}
use sponge.TcpConnection.Inbound.{waiting, tick-waiting}
use sponge.FdAdapter.{Adapter}
use sponge.TcpSpongeSocket.{
  Socket, Pipe, LoopEnd, stopped, running, crashed, rules, fd_of, tcp_tick_ms, is_exit, tick_both,
  pass_time, wait, tcp_loop, end_outbound,
}
use sponge.TcpSpongeSocket.Rules.{
  IsPipe, stream, Grown, Unchanged, datagram_in-Grown, bytes_in-Grown, bytes_out-Unchanged,
  datagrams_out-Grown, end_outbound-stream,
}

module _ {A K : Type 0} (ad : Adapter A) (adapter_fd : A → FdWrapper) (pipe : Pipe K)
    (poll : Socket A K → List Pollfd → ℕ → Socket A K × PollReturn) (sent : K → Bytes)
    (law : IsPipe pipe sent) (start : Bytes) where
  abbrev bytes : Socket A K → Bytes
  bytes = stream ad adapter_fd pipe sent law

  -- The stream begins with what it was at the start.
  abbrev Begins : Socket A K → Type 0
  Begins s = Grows start (bytes s)

  later :
      (s : Socket A K) (o : Option (Socket A K))
      → Begins s
      → Grown ad adapter_fd pipe sent law s o
      → Holds Begins (λ t. t) o
  later s none b g = tt
  later s (some t) b g = Grows-trans start (bytes s) (bytes t) b g

  same : (s t : Socket A K) → Begins s → bytes t ≡ bytes s → Begins t
  same s t b e = subst (Grows start) (sym e) b

  same_some :
      (s : Socket A K) (o : Option (Socket A K))
      → Begins s
      → Unchanged ad adapter_fd pipe sent law s o
      → Holds Begins (λ t. t) o
  same_some s none b u = tt
  same_some s (some t) b u = same s t b u

  abbrev Keeps : Rule (Socket A K) → Type 0
  Keeps = KeepsIt (fd_of ad adapter_fd pipe) poll Begins

  rules-Keeps : All Keeps (rules ad adapter_fd pipe)
  rules-Keeps = (
    record {
      callback = λ s b. later s _ b (datagram_in-Grown ad adapter_fd pipe sent law s);
      cancel = λ s b. b;
    },
    (
      record {
        callback = λ s b. later s _ b (bytes_in-Grown ad adapter_fd pipe sent law s);
        cancel = λ s b.
            same s (end_outbound ad adapter_fd pipe s) b
              (end_outbound-stream ad adapter_fd pipe sent law s);
      },
      (
        record {
          callback = λ s b. same_some s _ b (bytes_out-Unchanged ad adapter_fd pipe sent law s);
          cancel = λ s b. b;
        },
        (
          record {
            callback = λ s b. later s _ b (datagrams_out-Grown ad adapter_fd pipe sent law s);
            cancel = λ s b. b;
          },
          tt,
        ),
      ),
    ),
  )

  ticked :
      (s : Socket A K) (t : TcpConnection) (ms : ℕ) (o : Option A)
      → Begins s
      → TcpConnection.tick s.tcp ms ≡ some t
      → Holds Begins
          (λ u. u)
          (elim o [ none ↦ none | some a ↦ some (record s { tcp = t; adapter = a }) ])
  ticked s t ms none b e = tt
  ticked s t ms (some a) b e =
      same s (record s { tcp = t; adapter = a }) b
        (ap (◌++◌ (sent s.pipe)) (tick-waiting s.tcp t ms e))

  tick_both-Begins :
      (s : Socket A K) (ms : ℕ)
      → Begins s
      → Holds Begins (λ u. u) (tick_both ad adapter_fd pipe poll s ms)
  unfolding tick_both
  tick_both-Begins s ms b = elim (Option-cases (TcpConnection.tick s.tcp ms)) [
    | inl e ↦ rw (e, tick_both) tt
    | inr (t, e) ↦ rw (e, tick_both) (ticked s t ms (ad.tick_ms s.adapter ms) b e)
  ]

  abbrev Passed : Option (Socket A K × ℕ) → Type 0
  Passed none = Unit
  Passed (some (s, base)) = Begins s

  at_time :
      (o : Option (Socket A K)) (now : ℕ)
      → Holds Begins (λ u. u) o
      → Passed (elim o [ none ↦ none | some s ↦ some (s, now) ])
  at_time none now h = tt
  at_time (some s) now h = h

  pass_time-Begins :
      (s : Socket A K) (base now : ℕ)
      → Begins s
      → Passed (pass_time ad adapter_fd pipe poll s base now)
  unfolding pass_time
  pass_time-Begins s base now b =
      if_both Passed s.tcp.active {y = some (s, base)}
        (at_time (tick_both ad adapter_fd pipe poll s (sub64 now base)) now
          (tick_both-Begins s (sub64 now base) b))
        b

  -- The socket with which the loop ends, or has got to so far.
  abbrev pub EndBegins : LoopEnd A K → Type 0
  EndBegins (stopped s rs) = Begins s
  EndBegins (running s rs) = Begins s
  EndBegins crashed = Unit

  abbrev Waited : Option (Socket A K × List (Rule (Socket A K)) × Result) → Type 0
  Waited = Kept (fd_of ad adapter_fd pipe) poll Begins

  module _ (condition : Socket A K → Bool)
      (quiet : (s : Socket A K) (fds : List Pollfd)
        → Begins s
        → Begins (poll s fds tcp_tick_ms).0) where
    abbrev Loops : List ℕ → Type 0
    Loops times =
        (base : ℕ) (s : Socket A K) (rs : List (Rule (Socket A K)))
        → Begins s
        → All Keeps rs
        → EndBegins (tcp_loop ad adapter_fd pipe poll condition times base s rs)

    after_time :
        (times : List ℕ) (rs : List (Rule (Socket A K))) (o : Option (Socket A K × ℕ))
        → Loops times
        → All Keeps rs
        → Passed o
        → EndBegins (elim o [
          | none ↦ crashed
          | some (s, base) ↦ tcp_loop ad adapter_fd pipe poll condition times base s rs
        ])
    after_time times rs none go k h = tt
    after_time times rs (some (s, base)) go k h = go base s rs h k

    after_wait :
        (times : List ℕ) (base now : ℕ)
        (o : Option (Socket A K × List (Rule (Socket A K)) × Result))
        → Loops times
        → Waited o
        → EndBegins (elim o [
          | none ↦ crashed
          | some (s, rs, ret) ↦ elim (is_exit ret || s.abort) [
            | true ↦ stopped s rs
            | false ↦ elim (pass_time ad adapter_fd pipe poll s base now) [
              | none ↦ crashed
              | some (s', base') ↦ tcp_loop ad adapter_fd pipe poll condition times base' s' rs
            ]
          ]
        ])
    after_wait times base now none go h = tt
    after_wait times base now (some (s, rs, ret)) go h =
        elim (Bool-cases (is_exit ret || s.abort)) [
          | inl e ↦ rw e h.0
          | inr e ↦ rw e (
              after_time times rs (pass_time ad adapter_fd pipe poll s base now) go h.1
                (pass_time-Begins s base now h.0))
        ]

    tcp_loop-Begins : (times : List ℕ) → Loops times
    unfolding tcp_loop
    tcp_loop-Begins [] base s rs b k = b
    tcp_loop-Begins (now ∷ times) base s rs b k = elim (Bool-cases (condition s)) [
      | inl e ↦
          rw (e, tcp_loop)
            (after_wait times base now (wait ad adapter_fd pipe poll s rs) (tcp_loop-Begins times) (
              wait_next_event-Kept (fd_of ad adapter_fd pipe) poll Begins s rs tcp_tick_ms b k
                quiet))
      | inr e ↦ rw (e, tcp_loop) b
    ]

module _ {A K : Type 0} (ad : Adapter A) (adapter_fd : A → FdWrapper) (pipe : Pipe K)
    (poll : Socket A K → List Pollfd → ℕ → Socket A K × PollReturn) (sent : K → Bytes)
    (law : IsPipe pipe sent)
    (same_tcp : (s : Socket A K) (fds : List Pollfd) → (poll s fds tcp_tick_ms).0.tcp ≡ s.tcp)
    (same_sent : (s : Socket A K) (fds : List Pollfd)
      → sent (poll s fds tcp_tick_ms).0.pipe ≡ sent s.pipe) where
  -- For a pipe to the application whose writev sends a first part of what it is given, or fails
  -- and sends nothing, and whose other calls send nothing, and a poll that leaves the connection
  -- and what was sent alone: however often the socket's loop has run or has been left, on any
  -- datagrams, timestamps and events and with any condition, but for a run that has thrown, the
  -- bytes that were sent to the application and, behind them, those that wait in the inbound
  -- stream begin with what these were at the start. No byte that was in order is lost, repeated
  -- or moved, whatever the segments, partial writes, resets and ticks.
  pub tcp_loop-EndBegins :
      (condition : Socket A K → Bool) (times : List ℕ) (base : ℕ) (s : Socket A K)
      → EndBegins ad adapter_fd pipe poll sent law
          (stream ad adapter_fd pipe sent law s)
          (tcp_loop ad adapter_fd pipe poll condition times base s (rules ad adapter_fd pipe))
  tcp_loop-EndBegins condition times base s =
      let start = stream ad adapter_fd pipe sent law s in
      tcp_loop-Begins ad adapter_fd pipe poll sent law start condition
        (λ t fds b.
          subst (Grows start)
            (ap₂ (λ x y. x ++ waiting y) (sym (same_sent t fds)) (sym (same_tcp t fds))) b)
        times base s (rules ad adapter_fd pipe) (Grows-self start)
        (rules-Keeps ad adapter_fd pipe poll sent law start)
