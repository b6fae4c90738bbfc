-- ===== src/TcpConnection/Linger.antt =====
-- How long a connection stays when both streams are done.
use sponge.Prelude.{
  ℕ, zero, suc, ◌+◌, ◌*◌, ◌^◌, ◌≤◌, ◌<◌, ◌≡◌, refl, ap, ◌∙◌, sym, true, false, ◌&&◌, List, [], ◌∷◌,
  map, some, ltb, leb, add64, arith, Bool-cases, inl, inr, ◌⊎◌, if◌then◌else◌,
}
use sponge.ByteStream
use sponge.Timer
use sponge.Timer.{total}
use sponge.TcpSender
use sponge.TcpSender.{TcpSender, fill_loop, fill_window, fill_size}
use sponge.TcpConnection.{
  TcpConnection, dispatch, send_all, follow_prereq, no_linger, finish, after_tick, tick,
}
use sponge.TcpConnection.Calls.{ticks, run, serve}

-- Both streams are done: the peer's is read up to its end, ours is sent and acknowledged with its
-- FIN; nothing is left to send, and the connection is to linger.
pub record IsDone (c : TcpConnection) : Type 0 where
  pub inbound : c.receiver.reassembler.output.input_end ≡ true
  pub outbound : ByteStream.eof c.sender.stream ≡ true
  pub sent : c.sender.next_seqno ≡ add64 c.sender.stream.bytes_written 2
  pub acked : c.sender.abs_ackno ≡ c.sender.next_seqno
  pub fin : c.sender.fin_sent ≡ true
  pub quiet : c.sender.segments_out ≡ []
  pub idle : c.sender.timer.active ≡ false
  pub pending : c.sender.timer.expired ≡ false
  pub calm : c.sender.consecutive_retransmissions ≤ 8
  pub linger : c.linger_after_streams_finish ≡ true

-- Once the FIN is out, `fill_window` sends nothing.
fill_loop-fin :
    (fuel : ℕ) (s : TcpSender) (fill : ℕ) → s.fin_sent ≡ true → fill_loop fuel s fill ≡ s
unfolding fill_loop
fill_loop-fin zero s fill f = refl
fill_loop-fin (suc fuel) s fill f = ground (arith, f)

fill_window-fin : (s : TcpSender) → s.fin_sent ≡ true → s.syn_sent ≡ true → fill_window s ≡ s
unfolding fill_window
fill_window-fin s f h = ground (arith, f, h, fill_loop-fin (fill_size s + 1) s (fill_size s) f)

send_all-quiet : (c : TcpConnection) → c.sender.segments_out ≡ [] → send_all c ≡ c
unfolding send_all dispatch
send_all-quiet c e =
    ap (dispatch c) e
    ∙ ap (λ q. record c { sender = record (c.sender) { segments_out = q } }) (sym e)

sender_tick-idle :
    (s : TcpSender) (ms : ℕ)
    → s.timer.active ≡ false
    → s.timer.expired ≡ false
    → TcpSender.tick s ms ≡ some s
unfolding TcpSender.tick Timer.tick
sender_tick-idle s ms h k = ground arith

-- The connection at a later time: over, if it has lingered for ten times the timeout.
abbrev pub later : TcpConnection → ℕ → TcpConnection
later c now =
    if leb (10 * c.cfg.rt_timeout) now
    then record c { time_since_last_segrecv = now; lingering = false; active = false }
    else record c { time_since_last_segrecv = now }

filled-done :
    (c : TcpConnection)
    → IsDone c
    → (if c.sender.syn_sent then record c { sender = fill_window c.sender } else c) ≡ c
filled-done c v = elim (Bool-cases c.sender.syn_sent) [
  | inl h ↦ simp h (ap (λ s. record c { sender = s }) (fill_window-fin c.sender v.fin h))
  | inr h ↦ simp h refl
]

finish-done : (c : TcpConnection) → IsDone c → finish c ≡ later c c.time_since_last_segrecv
unfolding finish follow_prereq no_linger
finish-done c v = ground (arith, v)

at_time-IsDone :
    {c : TcpConnection} (now : ℕ) → IsDone c → IsDone (record c { time_since_last_segrecv = now })
at_time-IsDone now v = ground (arith, v)

later-IsDone : {c : TcpConnection} (now : ℕ) → IsDone c → IsDone (later c now)
later-IsDone {c} now v = ground (arith, v)

after_tick-done : (c : TcpConnection) → IsDone c → after_tick c ≡ later c c.time_since_last_segrecv
unfolding after_tick
after_tick-done c v =
    let calm : ltb 8 c.sender.consecutive_retransmissions ≡ false = ground (arith, v.calm) in
    simp calm
      (ap finish (ap send_all (filled-done c v) ∙ send_all-quiet c v.quiet) ∙ finish-done c v)

tick-done :
    (c : TcpConnection) (ms : ℕ)
    → IsDone c
    → tick c ms ≡ some (later c (add64 c.time_since_last_segrecv ms))
unfolding tick
tick-done c ms v =
    let now = add64 c.time_since_last_segrecv ms in
    rw (sender_tick-idle c.sender ms v.idle v.pending, tick)
      (ap some
        (after_tick-done (record c { time_since_last_segrecv = now }) (at_time-IsDone now v)))

ticks_done :
    (ms : List ℕ) (c : TcpConnection)
    → IsDone c
    → c.time_since_last_segrecv + total ms < 2 ^ 64
    → (c.active ≡ false) ⊎ (c.time_since_last_segrecv < 10 * c.cfg.rt_timeout)
    → (t : TcpConnection) × (run c (map ticks ms) ≡ some t)
      × (t.active
          ≡ (c.active && ltb (c.time_since_last_segrecv + total ms) (10 * c.cfg.rt_timeout)))
      × (t.segments_out ≡ c.segments_out)
unfolding run serve
ticks_done [] c v small h = (c, refl, ground arith, refl)
ticks_done (m ∷ ms) c v small h =
    let now = add64 c.time_since_last_segrecv m in
    let same : now ≡ c.time_since_last_segrecv + m = omega arith in
    let (t, e, a, o) =
      ticks_done ms (later c now) (later-IsDone now v) (ground (arith, same))
        (ground (arith, same)) in
    (t, rw (tick-done c m v, run) e, ground (arith, a, same), ground (arith, o))

-- An active connection whose two streams are done (the peer's read to its end, its own sent and
-- acknowledged with its FIN, nothing left to send, the timer stopped), which is to linger and
-- last received a segment less than ten times its timeout ago: after any ticks, with no overflow
-- of the time, it is active exactly while that time, the ticks added, is less than ten times its
-- timeout, and it has sent nothing.
pub run-lingers :
    (ms : List ℕ) (c : TcpConnection)
    → IsDone c
    → c.active ≡ true
    → c.time_since_last_segrecv < 10 * c.cfg.rt_timeout
    → c.time_since_last_segrecv + total ms < 2 ^ 64
    → (t : TcpConnection) × (run c (map ticks ms) ≡ some t)
      × (t.active ≡ ltb (c.time_since_last_segrecv + total ms) (10 * c.cfg.rt_timeout))
      × (t.segments_out ≡ c.segments_out)
run-lingers ms c v alive early small =
    let (t, e, a, o) = ticks_done ms c v small (inr early) in (t, e, ground (arith, a, alive), o)
