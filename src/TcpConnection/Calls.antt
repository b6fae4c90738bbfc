-- ===== src/TcpConnection/Calls.antt =====
-- The calls of a connection's owner, in any order.
use sponge.Prelude.{
  ℕ, ◌≡◌, refl, Bool, true, false, List, [], ◌∷◌, Option, none, some, Bytes, length, arith, if_both,
  not, ◌&&◌, ltb, ◌==◌, add64,
}
use sponge.WrappingInt32.{WrappingInt32}
use sponge.TcpConfig.{TcpConfig, max_retx_attempts}
use sponge.TcpSegment.{TcpSegment, length_in_sequence_space}
use sponge.TcpSender.{TcpSender, fill_window, send_empty_segment}
use sponge.TcpSender.Armed.{
  IsArmed, new-IsArmed, fill_window-IsArmed, ack_received-IsArmed, send_empty_segment-IsArmed,
  tick_defined,
}
use sponge.TcpConnection.{
  TcpConnection, new, send_all, follow_prereq, no_linger, take_in, take_ack, put_rst, send_rst,
  kill, unclean_shutdown, finish, after_tick, tick, segment_received, write, end_input_stream,
  connect, answer, answer_empty, is_keep_alive, at_least_one, fill_on_syn,
}
use sponge.TcpConnection.Dispatch.{send_all_lem}

active-send_all : (c : TcpConnection) → (send_all c).active ≡ c.active
active-send_all c = rw (send_all_lem c)

-- The calls of a connection's owner.
pub data Call : Type 0 where
  connects : Call
  writes : Bytes → Call
  ends : Call
  receives : TcpSegment → Call
  ticks : ℕ → Call

unfoldable pub serve : TcpConnection → Call → Option TcpConnection
serve c connects = some (connect c)
serve c (writes text) = some (write c text).0
serve c ends = some (end_input_stream c)
serve c (receives seg) = some (segment_received c seg)
serve c (ticks ms) = tick c ms

unfoldable pub run : TcpConnection → List Call → Option TcpConnection
run c [] = some c
run c (k ∷ ks) = elim (serve c k) [ none ↦ none | some t ↦ run t ks ]

-- The sender of the connection is armed: its timer runs exactly while segments are outstanding.
abbrev SenderArmed : TcpConnection → Type 0
SenderArmed c = IsArmed c.sender

send_all-SenderArmed : (c : TcpConnection) → SenderArmed c → SenderArmed (send_all c)
send_all-SenderArmed c v = rw (send_all_lem c) (record { pending = v.pending; armed = v.armed })

put_rst-IsArmed : {s : TcpSender} → IsArmed s → IsArmed (put_rst s)
unfolding put_rst send_empty_segment
put_rst-IsArmed v = ground (arith, v)

unclean_shutdown-SenderArmed :
    (c : TcpConnection) (rst : Bool) → SenderArmed c → SenderArmed (unclean_shutdown c rst)
unfolding unclean_shutdown kill send_rst
unclean_shutdown-SenderArmed c true v =
    let w =
      send_all-SenderArmed (record c { sender = put_rst (fill_window c.sender) })
        (put_rst-IsArmed (fill_window-IsArmed v)) in
    record { pending = w.pending; armed = w.armed }
unclean_shutdown-SenderArmed c false v = record { pending = v.pending; armed = v.armed }

follow_prereq-SenderArmed : (c : TcpConnection) → SenderArmed c → SenderArmed (follow_prereq c).0
unfolding follow_prereq no_linger
follow_prereq-SenderArmed c v = ground (arith, v)

take_ack-SenderArmed :
    (c : TcpConnection) (seg : TcpSegment) → SenderArmed c → SenderArmed (take_ack c seg)
unfolding take_ack
take_ack-SenderArmed c seg v =
    ground (arith, v, ack_received-IsArmed seg.header.ackno seg.header.win v)

answer-SenderArmed :
    (c : TcpConnection) (seg : TcpSegment) → SenderArmed c → SenderArmed (answer c seg)
unfolding answer at_least_one fill_on_syn
answer-SenderArmed c seg v =
    let w =
      if_both IsArmed (seg.header.syn && not seg.header.ack) {x = fill_window c.sender}
        {y = c.sender} (fill_window-IsArmed v) v in
    send_all-SenderArmed (record c { sender = at_least_one (fill_on_syn c seg) })
      (if_both IsArmed (length (fill_on_syn c seg).segments_out == 0)
        {x = send_empty_segment (fill_on_syn c seg) false} {y = fill_on_syn c seg}
        (send_empty_segment-IsArmed false w) w)

answer_empty-SenderArmed :
    (c : TcpConnection) (seg : TcpSegment) → SenderArmed c → SenderArmed (answer_empty c seg)
unfolding answer_empty
answer_empty-SenderArmed c seg v = send_all-SenderArmed _ (
    if_both SenderArmed (is_keep_alive c seg)
      {x = record c { sender = send_empty_segment c.sender false }} {y = c}
      (send_empty_segment-IsArmed false v) v)

segment_received-SenderArmed :
    (c : TcpConnection) (seg : TcpSegment) → SenderArmed c → SenderArmed (segment_received c seg)
unfolding segment_received take_in
segment_received-SenderArmed c seg v =
    let c' = (follow_prereq (take_ack (take_in c seg) seg)).0 in
    let w = follow_prereq-SenderArmed _ (take_ack-SenderArmed (take_in c seg) seg v) in
    if_both SenderArmed (not c.active) v (
      if_both SenderArmed seg.header.rst (unclean_shutdown-SenderArmed (take_in c seg) false v) (
        if_both SenderArmed (length_in_sequence_space seg == 0) {x = answer_empty c' seg}
          {y = answer c' seg} (answer_empty-SenderArmed c' seg w) (answer-SenderArmed c' seg w)))

finish-SenderArmed : (c : TcpConnection) → SenderArmed c → SenderArmed (finish c)
unfolding finish
finish-SenderArmed c v = ground (arith, follow_prereq-SenderArmed c v)

after_tick-SenderArmed : (c : TcpConnection) → SenderArmed c → SenderArmed (after_tick c)
unfolding after_tick
after_tick-SenderArmed c v =
    if_both SenderArmed (ltb max_retx_attempts c.sender.consecutive_retransmissions)
      (unclean_shutdown-SenderArmed c true v)
      (finish-SenderArmed _ (
        send_all-SenderArmed _ (
          if_both SenderArmed c.sender.syn_sent {x = record c { sender = fill_window c.sender }}
            {y = c} (fill_window-IsArmed v) v)))

serve_defined :
    (c : TcpConnection) (k : Call)
    → SenderArmed c
    → (t : TcpConnection) × (serve c k ≡ some t) × SenderArmed t
unfolding serve connect write end_input_stream tick
serve_defined c connects v = (connect c, refl, send_all-SenderArmed _ (fill_window-IsArmed v))
serve_defined c (writes text) v = (
  (write c text).0,
  refl,
  send_all-SenderArmed _ (fill_window-IsArmed (record { pending = v.pending; armed = v.armed })),
)
serve_defined c ends v = (
  end_input_stream c,
  refl,
  send_all-SenderArmed _ (fill_window-IsArmed (record { pending = v.pending; armed = v.armed })),
)
serve_defined c (receives seg) v =
    (segment_received c seg, refl, segment_received-SenderArmed c seg v)
serve_defined c (ticks ms) v =
    let (s, e, w) = tick_defined ms v in
    let c' = record c {
      sender = s;
      time_since_last_segrecv = add64 c.time_since_last_segrecv ms;
    } in
    (after_tick c', rw (e, tick), after_tick-SenderArmed c' w)

run-SenderArmed :
    (ks : List Call) (c : TcpConnection)
    → SenderArmed c
    → (t : TcpConnection) × (run c ks ≡ some t) × SenderArmed t
unfolding run
run-SenderArmed [] c v = (c, refl, v)
run-SenderArmed (k ∷ ks) c v =
    let (t, e, w) = serve_defined c k v in
    let (u, e', w') = run-SenderArmed ks t w in (u, rw (e, run) e', w')

-- For any configuration, initial number and sequence of connects, writes, ends, received segments
-- and ticks, a new connection has a defined next state; and the retransmission timer of its
-- sender then runs, not expired, if and only if segments are outstanding.
pub run_defined :
    (cfg : TcpConfig) (random : WrappingInt32) (ks : List Call)
    → (t : TcpConnection) × (run (new cfg random) ks ≡ some t) × IsArmed t.sender
unfolding new
run_defined cfg random ks =
    run-SenderArmed ks (new cfg random)
      (new-IsArmed cfg.send_capacity cfg.rt_timeout cfg.fixed_isn random)
