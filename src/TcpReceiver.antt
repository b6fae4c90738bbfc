-- ===== src/TcpReceiver.antt =====
-- libsponge/tcp_receiver.hh and tcp_receiver.cc: the receiving half of a connection.
pub mod Acks
pub mod SynFin
mod Tests
use sponge.Prelude.{
  ℕ, ◌+◌, Bool, true, false, ◌&&◌, not, Option, none, some, length, if◌then◌else◌, add64, sub64,
}
use sponge.WrappingInt32.{WrappingInt32, wrap, unwrap}
use sponge.ByteStream.{buffer_size}
use sponge.StreamReassembler
use sponge.StreamReassembler.{StreamReassembler, push_substring, reach_end}
use sponge.TcpSegment.{TcpSegment}

-- The members of `class TCPReceiver`.
pub record TcpReceiver : Type 0 where
  pub reassembler : StreamReassembler
  pub capacity : ℕ
  pub isn : Option WrappingInt32
  pub ackno : Option WrappingInt32

unfoldable pub new : ℕ → TcpReceiver
new capacity = record {
  reassembler = StreamReassembler.new capacity;
  capacity = capacity;
  isn = none;
  ackno = none;
}

unfoldable pub window_size : TcpReceiver → ℕ
window_size r = sub64 r.capacity (buffer_size r.reassembler.output)

unfoldable pub get_abs_first_unassembled : TcpReceiver → ℕ
get_abs_first_unassembled r = elim r.isn [
  | none ↦ 0
  | some isn ↦ elim r.ackno [
    | none ↦ 0
    | some ackno ↦ unwrap ackno isn r.reassembler.first_unassembled
  ]
]

unfoldable pub get_abs_first_unacceptable : TcpReceiver → ℕ
unfolding get_abs_first_unassembled window_size
get_abs_first_unacceptable r = add64 (get_abs_first_unassembled r) (window_size r)

-- A flag added to a number.
abbrev pub bit : Bool → ℕ
bit b = if b then 1 else 0

-- The first segment with a SYN: its sequence number is the initial one.
unfoldable pub first_received : TcpReceiver → TcpSegment → TcpReceiver
first_received r seg =
    let re = push_substring r.reassembler seg.payload 0 seg.header.fin in
    record r {
      reassembler = re;
      isn = some seg.header.seqno;
      ackno =
          some (wrap (add64 (add64 1 re.first_unassembled) (bit seg.header.fin)) seg.header.seqno);
    }

-- A later segment, where the initial sequence number is known.
unfoldable pub next_received : TcpReceiver → WrappingInt32 → TcpSegment → TcpReceiver
next_received r isn seg =
    let abs_seqno = unwrap seg.header.seqno isn r.reassembler.first_unassembled in
    let re = push_substring r.reassembler seg.payload (sub64 abs_seqno 1) seg.header.fin in
    record r {
      reassembler = re;
      ackno = some (wrap (add64 (add64 re.first_unassembled 1) (bit (reach_end re))) isn);
    }

unfoldable pub segment_received : TcpReceiver → TcpSegment → TcpReceiver
segment_received r seg = elim r.isn [
  | none ↦ if seg.header.syn then first_received r seg else r
  | some isn ↦ next_received r isn seg
]
