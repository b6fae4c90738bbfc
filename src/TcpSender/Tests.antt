-- ===== src/TcpSender/Tests.antt =====
-- tcp_sender.cc run on small streams, and the theorems at concrete inputs.
use sponge.Prelude.{
  ◌+◌, ◌-◌, ◌^◌, ◌≤◌, ◌≡◌, refl, true, false, List, [], ◌∷◌, none, max, arith, inl,
}
use sponge.WrappingInt32.{WrappingInt32, wrap}
use sponge.WrappingInt32
use sponge.ByteStream
use sponge.ByteStream.{ByteStream}
use sponge.TcpSegment.{TcpSegment}
use sponge.Timer
use sponge.TcpSender
use sponge.TcpSender.{
  TcpSender, new, fill_window, fill_size, fill_loop, ack_received, check_seg_acked, open_window,
  tick, make_segment,
}
use sponge.TcpSender.Fill.{Sent, window_room, fill_window-Sent}
use sponge.TcpSender.Ack.{
  Outstanding, Acked, Acknowledges, newest, ack_received-Outstanding, check_seg_acked-stuck,
}

abbrev isn : WrappingInt32
isn = record { raw_value = 5 }

-- Five bytes wait, and the window has room for four.
abbrev text : ByteStream
text = record (ByteStream.new 10) { buffer = 1 ∷ 2 ∷ 3 ∷ 4 ∷ 5 ∷ []; bytes_written = 5 }

abbrev busy : TcpSender
busy = record (new 10 1000 none isn) {
  syn_sent = true;
  next_seqno = 1;
  abs_ackno = 1;
  window_size = 4;
  stream = text;
}

fill_window_run :
    let t = fill_window busy in
    (t.segments_out ≡ make_segment busy 1 false false (1 ∷ 2 ∷ 3 ∷ 4 ∷ []) ∷ [])
    × (t.next_seqno ≡ 5)
    × (t.stream.buffer ≡ 5 ∷ [])
unfolding fill_window fill_size fill_loop new TcpSender.next_segment TcpSender.read_payload
    TcpSender.make_segment TcpSender.send_segment TcpSender.transmit ByteStream.new ByteStream.read
    ByteStream.peek_output ByteStream.pop_output WrappingInt32.wrap Timer.new Timer.start_timer
fill_window_run = (refl, refl, refl)

fill_window-Sent_example :
    let t = fill_window busy in
    ((segs : List TcpSegment) × Sent busy (window_room busy) t segs)
    × (t.next_seqno - t.abs_ackno ≤ max (busy.next_seqno - busy.abs_ackno) (max busy.window_size 1))
fill_window-Sent_example =
    fill_window-Sent refl (unfold new ByteStream.new in refl) (omega arith) (omega arith)
      (omega arith)

-- Two segments are outstanding, and the first of them is acknowledged.
abbrev first : TcpSegment
first = make_segment busy 1 false false (1 ∷ 2 ∷ [])

abbrev second : TcpSegment
second = make_segment busy 3 false false (3 ∷ 4 ∷ 5 ∷ [])

abbrev waiting : TcpSender
waiting = record busy { segments_backup = first ∷ second ∷ []; next_seqno = 6 }

waiting-Outstanding : Outstanding waiting 1
unfolding new make_segment
waiting-Outstanding = record {
  chain = (refl, omega arith, (refl, omega arith, refl));
  lo_le = omega arith;
  ack_le = omega arith;
  unacked = omega arith;
  word = omega arith;
}

three-Acknowledges : Acknowledges waiting (record { raw_value = 8 }) 3
unfolding new WrappingInt32.wrap
three-Acknowledges = record {
  numbered = refl;
  small = omega arith;
  near = omega arith;
  seen = inl (omega arith);
}

ack_received-Outstanding_example :
    let t = ack_received waiting (record { raw_value = 8 }) 7 in
    Acked waiting 1 t
    × (t.abs_ackno ≡ newest waiting 3)
    × (t.next_seqno ≡ waiting.next_seqno)
    × (t.window_size ≡ 7)
    × (t.consecutive_retransmissions ≡ 0)
    × (t.retransmission_timeout ≡ waiting.initial_retransmission_timeout)
ack_received-Outstanding_example =
    ack_received-Outstanding 7 waiting-Outstanding three-Acknowledges
      (record { close = omega arith; small = omega arith; seen = inl (omega arith) })

-- The last byte of the first turn, acknowledged with the first of the second.
abbrev late : TcpSender
late = record busy { abs_ackno = 2 ^ 32 + 1; next_seqno = 2 ^ 32 + 1 }

check_seg_acked-stuck_example :
    check_seg_acked late (make_segment late (2 ^ 32 - 1) false false (9 ∷ [])) ≡ false
unfolding make_segment new
check_seg_acked-stuck_example =
    check_seg_acked-stuck late (make_segment late (2 ^ 32 - 1) false false (9 ∷ [])) (2 ^ 32 - 1)
      (omega arith) refl (omega arith) (omega arith) (omega arith) (omega arith)
