-- ===== src/TcpReceiver/SynFin.antt =====
-- What `Acks` leaves out: a SYN with a FIN and a payload that the window cuts.
use sponge.Prelude.{ℕ, ◌+◌, ◌<◌, ◌≡◌, true, some, length, arith}
use sponge.WrappingInt32.{WrappingInt32, wrap}
use sponge.StreamReassembler.{push_substring}
use sponge.StreamReassembler.Receive.{Consistent}
use sponge.StreamReassembler.Reassembly.{
  push_substring-Inv, cap-push_substring, bytes_read-push_substring,
}
use sponge.TcpSegment.{TcpSegment}
use sponge.TcpReceiver.{TcpReceiver, first_received, segment_received}
use sponge.TcpReceiver.Acks.{IsWaiting}

-- A receiver to which no SYN has come, given a segment with SYN and FIN whose payload is the
-- start of the peer's stream and longer than the capacity, acknowledges one number more than it
-- has received, although it has not reached the end of the stream.
pub segment_received-syn_fin_overacks :
    {peer : ℕ → ℕ} {size : ℕ} {isn : WrappingInt32} {r : TcpReceiver} (seg : TcpSegment)
    → IsWaiting peer size isn r
    → seg.header.syn ≡ true
    → seg.header.fin ≡ true
    → seg.header.seqno ≡ isn
    → Consistent peer size r.reassembler seg.payload 0 seg.header.fin
    → r.capacity < length seg.payload
    → let t = segment_received r seg in
      (t.ackno ≡ some (wrap (t.reassembler.first_unassembled + 2) isn))
      × (t.reassembler.first_unassembled < size)
unfolding segment_received first_received
segment_received-syn_fin_overacks {peer} {size} {isn} {r} seg v s f n c long =
    let re = push_substring r.reassembler seg.payload 0 seg.header.fin in
    ground (
      arith,
      v.isn_unknown,
      v.cap,
      v.unread,
      (push_substring-Inv peer size v.inv c).core,
      cap-push_substring peer size v.inv c,
      bytes_read-push_substring peer size v.inv c,
    )
