-- ===== src/TcpSender.antt =====
-- libsponge/tcp_sender.hh and tcp_sender.cc: the sending half of a connection. A queue is a list
-- with its front first.

pub mod Chain
pub mod Fill
pub mod Ack
pub mod Armed
mod Tests
use sponge.Prelude.{
  ℕ, zero, suc, ◌+◌, ◌*◌, ◌%◌, ◌^◌, Bool, true, false, ◌&&◌, not, List, [], ◌∷◌, ◌++◌, Option, none,
  some, Bytes, length, ltb, leb, ◌==◌, if◌then◌else◌, add32, add64, sub64, u16, max,
}
use sponge.WrappingInt32.{WrappingInt32, wrap, unwrap}
use sponge.ByteStream
use sponge.ByteStream.{ByteStream, eof}
use sponge.TcpConfig.{max_payload_size}
use sponge.TcpHeader
use sponge.TcpSegment.{TcpSegment, length_in_sequence_space}
use sponge.Timer
use sponge.Timer.{Timer, timer_closed, start_timer, stop_timer}

-- The members of `class TCPSender`.
pub record TcpSender : Type 0 where
  pub isn : WrappingInt32
  pub segments_out : List TcpSegment
  pub segments_backup : List TcpSegment
  pub initial_retransmission_timeout : ℕ
  pub retransmission_timeout : ℕ
  pub consecutive_retransmissions : ℕ
  pub stream : ByteStream
  pub next_seqno : ℕ
  pub abs_ackno : ℕ
  pub window_size : ℕ
  pub syn_sent : Bool
  pub fin_sent : Bool
  pub timer : Timer

-- The constructor; `random` is what `random_device()()` gives where no number is fixed.
unfoldable pub new : ℕ → ℕ → Option WrappingInt32 → WrappingInt32 → TcpSender
new capacity retx_timeout fixed_isn random = record {
  isn = elim fixed_isn [ none ↦ random | some isn ↦ isn ];
  segments_out = [];
  segments_backup = [];
  initial_retransmission_timeout = retx_timeout;
  retransmission_timeout = retx_timeout;
  consecutive_retransmissions = 0;
  stream = ByteStream.new capacity;
  next_seqno = 0;
  abs_ackno = 0;
  window_size = 1;
  syn_sent = false;
  fin_sent = false;
  timer = Timer.new;
}

abbrev pub bytes_in_flight : TcpSender → ℕ
bytes_in_flight s = sub64 s.next_seqno s.abs_ackno

unfoldable pub make_segment : TcpSender → ℕ → Bool → Bool → Bytes → TcpSegment
make_segment s abs_seqno syn fin payload = record {
  header = record TcpHeader.default { seqno = wrap abs_seqno s.isn; syn = syn; fin = fin };
  payload = payload;
}

-- What is common to the sending of the SYN and of the other segments: both queues, the timer if it
-- does not run, and the next sequence number.
unfoldable pub transmit : TcpSender → TcpSegment → TcpSender
transmit s seg = record s {
  segments_out = s.segments_out ++ seg ∷ [];
  segments_backup = s.segments_backup ++ seg ∷ [];
  timer = if timer_closed s.timer then start_timer s.timer s.retransmission_timeout else s.timer;
  next_seqno = add64 s.next_seqno (length_in_sequence_space seg);
}

unfoldable pub send_syn : TcpSender → TcpSender
send_syn s = record (transmit s (make_segment s s.next_seqno true false [])) { syn_sent = true }

-- The window counts as 1 where it is 0; `fill_size` is a `uint16_t`.
abbrev pub open_window : TcpSender → ℕ
open_window s = max s.window_size 1

unfoldable pub fill_size : TcpSender → ℕ
fill_size s =
    if ltb (bytes_in_flight s) (open_window s)
    then u16 (sub64 (open_window s) (bytes_in_flight s))
    else 0

-- `_stream.read`, for one segment.
unfoldable pub read_payload : TcpSender → ℕ → ByteStream × Bytes
read_payload s fill =
    ByteStream.read s.stream (if ltb max_payload_size fill then max_payload_size else fill)

-- The segment of one round, and the sender after its read.
unfoldable pub next_segment : TcpSender → ℕ → TcpSender × TcpSegment
next_segment s fill =
    let (stream, payload) = read_payload s fill in
    let s' = record s { stream = stream } in
    (
      s',
      make_segment s' s'.next_seqno false (if ltb (length payload) fill then eof stream else false)
          payload,
    )

unfoldable pub send_segment : TcpSender → TcpSegment → TcpSender
send_segment s seg = transmit (if seg.header.fin then record s { fin_sent = true } else s) seg

-- The `while` of `fill_window`. Each round but the last sends a segment and takes its length off
-- `fill_size`, so one round more than `fill_size` is enough.
unfoldable pub fill_loop : ℕ → TcpSender → ℕ → TcpSender
fill_loop zero s fill = s
fill_loop (suc fuel) s fill =
    let (s', seg) = next_segment s fill in
    let rest =
      fill_loop fuel (send_segment s' seg) (u16 (sub64 fill (length_in_sequence_space seg))) in
    elim (ltb 0 fill && not s.fin_sent && s.syn_sent) [
      | false ↦ s
      | true ↦ elim (length_in_sequence_space seg == 0) [ true ↦ s' | false ↦ rest ]
    ]

unfoldable pub fill_window : TcpSender → TcpSender
fill_window s = if not s.syn_sent then send_syn s else fill_loop (fill_size s + 1) s (fill_size s)

unfoldable pub check_seg_acked : TcpSender → TcpSegment → Bool
check_seg_acked s seg =
    leb (add64 (unwrap seg.header.seqno s.isn s.abs_ackno) (length_in_sequence_space seg))
      s.abs_ackno

-- The `while` of `ack_received`: what is left of the queue, and whether a segment was taken off.
unfoldable pub pop_acked : TcpSender → List TcpSegment → List TcpSegment × Bool
pop_acked s [] = ([], false)
pop_acked s (seg ∷ rest) =
    let (left, popped) = pop_acked s rest in
    if check_seg_acked s seg then (left, true) else (seg ∷ rest, false)

-- The first part of `ack_received`.
unfoldable pub note_ackno : TcpSender → WrappingInt32 → TcpSender
note_ackno s ackno =
    let abs = unwrap ackno s.isn s.abs_ackno in
    if ltb s.abs_ackno abs && leb abs s.next_seqno then record s { abs_ackno = abs } else s

-- The last part, from `if (_segments_backup.empty())` on.
unfoldable pub reset_timer : TcpSender → Bool → TcpSender
reset_timer s new_seg_acked =
    let none_left = length s.segments_backup == 0 in
    let stopped = if none_left then stop_timer s.timer else s.timer in
    record s {
      retransmission_timeout = s.initial_retransmission_timeout;
      timer =
          if not none_left && new_seg_acked
          then start_timer stopped s.initial_retransmission_timeout
          else stopped;
      consecutive_retransmissions = 0;
    }

unfoldable pub ack_received : TcpSender → WrappingInt32 → ℕ → TcpSender
ack_received s ackno window =
    let s1 = record (note_ackno s ackno) { window_size = window } in
    let (left, popped) = pop_acked s1 s1.segments_backup in
    reset_timer (record s1 { segments_backup = left }) popped

-- The back-off of `tick`: not while the peer's window is closed.
unfoldable pub back_off : TcpSender → TcpSender
back_off s = if s.window_size == 0 then s else record s {
  consecutive_retransmissions = add32 s.consecutive_retransmissions 1;
  retransmission_timeout = s.retransmission_timeout * 2 % 2 ^ 32;
}

unfoldable pub retransmit : TcpSender → TcpSegment → TcpSender
retransmit s seg =
    let s' = back_off (record s { segments_out = s.segments_out ++ seg ∷ [] }) in
    record s' { timer = start_timer s'.timer s'.retransmission_timeout }

-- `none` is `front()` of an empty queue, which has no defined result.
unfoldable pub tick : TcpSender → ℕ → Option TcpSender
tick s ms =
    let timer = Timer.tick s.timer ms in
    let s' = record s { timer = timer } in
    if not timer.expired
    then some s'
    else elim s'.segments_backup [ [] ↦ none | seg ∷ rest ↦ some (retransmit s' seg) ]

unfoldable pub send_empty_segment : TcpSender → Bool → TcpSender
send_empty_segment s rst =
    let seg = make_segment s s.next_seqno false false [] in
    record s {
      segments_out =
          s.segments_out ++ record seg { header = record (seg.header) { rst = rst } } ∷ [];
    }
