-- ===== src/TcpConnection.antt =====
-- libsponge/tcp_connection.hh and tcp_connection.cc: an endpoint, made of a sender and a receiver.
pub mod Dispatch
pub mod Replies
pub mod Lifetime
pub mod Calls
pub mod Over
pub mod Linger
pub mod Inbound
mod Tests
use sponge.Prelude.{
  ℕ, ◌+◌, ◌-◌, ◌*◌, ◌^◌, Bool, true, false, ◌&&◌, not, List, [], ◌∷◌, ◌++◌, Option, none, some,
  Bytes, length, ltb, leb, ◌==◌, if◌then◌else◌, add64,
}
use sponge.WrappingInt32.{WrappingInt32, eq, minus}
use sponge.ByteStream
use sponge.TcpConfig.{TcpConfig, max_retx_attempts}
use sponge.TcpSegment.{TcpSegment, length_in_sequence_space}
use sponge.TcpReceiver
use sponge.TcpReceiver.{TcpReceiver, window_size}
use sponge.TcpSender
use sponge.TcpSender.{TcpSender, bytes_in_flight, fill_window, ack_received, send_empty_segment}

-- The members of `class TCPConnection`.
pub record TcpConnection : Type 0 where
  pub cfg : TcpConfig
  pub receiver : TcpReceiver
  pub sender : TcpSender
  pub segments_out : List TcpSegment
  pub linger_after_streams_finish : Bool
  pub lingering : Bool
  pub time_since_last_segrecv : ℕ
  pub active : Bool

-- `random` is the sender's initial sequence number where the configuration fixes none.
unfoldable pub new : TcpConfig → WrappingInt32 → TcpConnection
new cfg random = record {
  cfg = cfg;
  receiver = TcpReceiver.new cfg.recv_capacity;
  sender = TcpSender.new cfg.send_capacity cfg.rt_timeout cfg.fixed_isn random;
  segments_out = [];
  linger_after_streams_finish = true;
  lingering = false;
  time_since_last_segrecv = 0;
  active = true;
}

abbrev pub remaining_outbound_capacity : TcpConnection → ℕ
remaining_outbound_capacity c = ByteStream.remaining_capacity c.sender.stream

-- The window that a header can carry.
abbrev pub capped_window : TcpReceiver → ℕ
capped_window r = if ltb (2 ^ 16 - 1) (window_size r) then 2 ^ 16 - 1 else window_size r

-- `handle_sender_segment`: the receiver's acknowledgment and window go into the header.
unfoldable pub handle_sender_segment : TcpReceiver → TcpSegment → TcpSegment
handle_sender_segment r seg = elim r.ackno [
  | none ↦ record seg { header = record (seg.header) { win = capped_window r } }
  | some ackno ↦ record seg {
    header = record (seg.header) { ack = true; ackno = ackno; win = capped_window r };
  }
]

-- The loop of `send_all`, over the sender's queue.
unfoldable pub dispatch : TcpConnection → List TcpSegment → TcpConnection
dispatch c [] = record c { sender = record (c.sender) { segments_out = [] } }
dispatch c (seg ∷ rest) =
    dispatch
      (record c { segments_out = c.segments_out ++ handle_sender_segment c.receiver seg ∷ [] }) rest

unfoldable pub send_all : TcpConnection → TcpConnection
send_all c = dispatch c c.sender.segments_out

-- The three conditions of a clean shutdown.
abbrev pub prereq1 : TcpConnection → Bool
prereq1 c = ByteStream.input_ended c.receiver.reassembler.output

abbrev pub prereq2 : TcpConnection → Bool
prereq2 c =
    ByteStream.eof c.sender.stream && c.sender.next_seqno == add64 c.sender.stream.bytes_written 2

abbrev pub prereq3 : TcpConnection → Bool
prereq3 c = bytes_in_flight c.sender == 0

-- `follow_prereq`: the connection, which need not linger if the peer was first to finish, and
-- whether the conditions hold.
unfoldable pub no_linger : TcpConnection → TcpConnection
no_linger c =
    if ByteStream.eof c.receiver.reassembler.output && not c.sender.fin_sent
    then record c { linger_after_streams_finish = false }
    else c

unfoldable pub follow_prereq : TcpConnection → TcpConnection × Bool
follow_prereq c = (no_linger c, prereq1 c && prereq2 c && prereq3 c)

-- The first segment of the queue with the RST flag, or an empty one where the queue is empty.
unfoldable pub put_rst : TcpSender → TcpSender
put_rst s = elim s.segments_out [
  | [] ↦ send_empty_segment s true
  | seg ∷ rest ↦ record s {
    segments_out = record seg { header = record (seg.header) { rst = true } } ∷ rest;
  }
]

unfoldable pub send_rst : TcpConnection → TcpConnection
send_rst c = send_all (record c { sender = put_rst (fill_window c.sender) })

-- Both streams are set to the error state, and the connection ends.
unfoldable pub kill : TcpConnection → TcpConnection
kill c = record c {
  receiver = record (c.receiver) {
    reassembler = record (c.receiver.reassembler) {
      output = ByteStream.set_error c.receiver.reassembler.output;
    };
  };
  sender = record (c.sender) { stream = ByteStream.set_error c.sender.stream };
  active = false;
}

unfoldable pub unclean_shutdown : TcpConnection → Bool → TcpConnection
unclean_shutdown c rst_sent = kill (if rst_sent then send_rst c else c)

-- The answer to a segment that takes up no sequence numbers: a keep-alive gets an empty segment.
abbrev pub is_keep_alive : TcpConnection → TcpSegment → Bool
is_keep_alive c seg = elim c.receiver.ackno [
  | none ↦ false
  | some ackno ↦ eq seg.header.seqno (minus ackno 1)
]

unfoldable pub answer_empty : TcpConnection → TcpSegment → TcpConnection
answer_empty c seg =
    send_all
      (if is_keep_alive c seg then record c { sender = send_empty_segment c.sender false } else c)

-- The answer to any other segment: at least one segment goes out.
unfoldable pub fill_on_syn : TcpConnection → TcpSegment → TcpSender
fill_on_syn c seg = if seg.header.syn && not seg.header.ack then fill_window c.sender else c.sender

unfoldable pub at_least_one : TcpSender → TcpSender
at_least_one s = if length s.segments_out == 0 then send_empty_segment s false else s

unfoldable pub answer : TcpConnection → TcpSegment → TcpConnection
answer c seg = send_all (record c { sender = at_least_one (fill_on_syn c seg) })

-- The part of `segment_received` that feeds the receiver and the sender.
unfoldable pub take_in : TcpConnection → TcpSegment → TcpConnection
take_in c seg = record c {
  time_since_last_segrecv = 0;
  receiver = TcpReceiver.segment_received c.receiver seg;
}

unfoldable pub take_ack : TcpConnection → TcpSegment → TcpConnection
take_ack c seg =
    if seg.header.ack
    then record c { sender = ack_received c.sender seg.header.ackno seg.header.win }
    else c

unfoldable pub segment_received : TcpConnection → TcpSegment → TcpConnection
segment_received c seg =
    if not c.active
    then c
    else if seg.header.rst
    then unclean_shutdown (take_in c seg) false
    else let c' = (follow_prereq (take_ack (take_in c seg) seg)).0 in
      if length_in_sequence_space seg == 0 then answer_empty c' seg else answer c' seg

unfoldable pub write : TcpConnection → Bytes → TcpConnection × ℕ
write c text =
    let (stream, written_size) = ByteStream.write c.sender.stream text in
    (
      send_all (record c { sender = fill_window (record (c.sender) { stream = stream }) }),
      written_size,
    )

unfoldable pub end_input_stream : TcpConnection → TcpConnection
end_input_stream c = send_all (record c {
  sender = fill_window (record (c.sender) { stream = ByteStream.end_input c.sender.stream });
})

unfoldable pub connect : TcpConnection → TcpConnection
connect c = send_all (record c { sender = fill_window c.sender })

-- The end of `tick`: a connection whose streams are done ends at once, or after it has lingered.
unfoldable pub finish : TcpConnection → TcpConnection
finish c =
    let (c', done) = follow_prereq c in
    if not done
    then c'
    else if not c'.linger_after_streams_finish
    then record c' { active = false }
    else if leb (10 * c'.cfg.rt_timeout) c'.time_since_last_segrecv
    then record c' { lingering = false; active = false }
    else c'

unfoldable pub after_tick : TcpConnection → TcpConnection
after_tick c =
    if ltb max_retx_attempts c.sender.consecutive_retransmissions
    then unclean_shutdown c true
    else finish
        (send_all (if c.sender.syn_sent then record c { sender = fill_window c.sender } else c))

-- `none` only where the sender's `tick` has no defined result.
unfoldable pub tick : TcpConnection → ℕ → Option TcpConnection
tick c ms = elim (TcpSender.tick c.sender ms) [
  | none ↦ none
  | some sender ↦ some (
      after_tick (record c {
        sender = sender;
        time_since_last_segrecv = add64 c.time_since_last_segrecv ms;
      }))
]

-- The destructor.
unfoldable pub destroy : TcpConnection → TcpConnection
destroy c = if c.active then unclean_shutdown c true else c
