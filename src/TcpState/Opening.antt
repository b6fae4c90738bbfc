-- ===== src/TcpState/Opening.antt =====
-- What a segment with SYN does to a connection, and the summaries of the parts that it leaves.
use sponge.Prelude.{◌≡◌, refl, ◌<◌, true, false, [], arith, ap, ◌∙◌, ap₂, map, ◌++◌, some, ℕ}
use sponge.WrappingInt32.{WrappingInt32}
use sponge.ByteStream
use sponge.StreamReassembler
use sponge.TcpSegment
use sponge.TcpSegment.{TcpSegment}
use sponge.TcpReceiver
use sponge.TcpSender
use sponge.TcpConnection
use sponge.TcpConnection.{TcpConnection, new, connect, segment_received, handle_sender_segment}
use sponge.TcpConnection.Dispatch.{send_all_lem}
use sponge.TcpState.{receiver_summary, sender_summary}
use sponge.TcpState.ReceiverSummary
use sponge.TcpState.SenderSummary

pub syn_taken :
    (capacity : ℕ)
    → let r = StreamReassembler.push_substring (StreamReassembler.new capacity) [] 0 false in
      (r.output.error ≡ false)
      × (r.output.input_end ≡ false)
      × (r.has_eof ≡ false)
      × (r.first_unassembled ≡ 0)
unfolding StreamReassembler.new ByteStream.new StreamReassembler.push_substring
    StreamReassembler.accept StreamReassembler.note_eof StreamReassembler.truncation_data
    StreamReassembler.push_onestr StreamReassembler.emit StreamReassembler.check_end
    StreamReassembler.keep StreamReassembler.read_out StreamReassembler.scan ByteStream.write
syn_taken capacity = ground arith

-- A segment with SYN, without RST and FIN, and without payload.
pub record IsSyn (seg : TcpSegment) : Type 0 where
  pub syn : seg.header.syn ≡ true
  pub no_rst : seg.header.rst ≡ false
  pub no_fin : seg.header.fin ≡ false
  pub no_text : seg.payload ≡ []

pub record SynTaken (r : TcpReceiver.TcpReceiver) : Type 0 where
  pub live : r.reassembler.output.error ≡ false
  pub going : r.reassembler.output.input_end ≡ false
  pub ackno : WrappingInt32
  pub acked : r.ackno ≡ some ackno

pub new-SynTaken :
    (capacity : ℕ) (seg : TcpSegment)
    → IsSyn seg
    → SynTaken (TcpReceiver.segment_received (TcpReceiver.new capacity) seg)
unfolding TcpReceiver.segment_received TcpReceiver.new TcpReceiver.first_received
new-SynTaken capacity seg v =
    let (live, going, no_eof, first) = syn_taken capacity in
    rw (v.syn, TcpReceiver.segment_received)
      (rw (v.no_text, v.no_fin) (record { live = live; going = going; ackno = _; acked = refl }))

pub receiver_syn_recv :
    {r : TcpReceiver.TcpReceiver} → SynTaken r → receiver_summary r ≡ ReceiverSummary.syn_recv
unfolding receiver_summary
receiver_syn_recv v = rw (v.live, v.acked, v.going) refl

pub sender_syn_sent :
    (s : TcpSender.TcpSender)
    → s.stream.error ≡ false
    → s.next_seqno ≡ 1
    → s.abs_ackno ≡ 0
    → sender_summary s ≡ SenderSummary.syn_sent
unfolding sender_summary
sender_syn_sent s live next acked = rw (live, next, acked) refl

pub sender_syn_acked :
    (s : TcpSender.TcpSender)
    → s.stream.error ≡ false
    → s.stream.input_end ≡ false
    → s.next_seqno ≡ 1
    → s.abs_ackno ≡ 1
    → sender_summary s ≡ SenderSummary.syn_acked
unfolding sender_summary
sender_syn_acked s live going next acked = rw (live, next, acked, going) refl

pub at_least_one-numbers :
    (s : TcpSender.TcpSender)
    → let u = TcpConnection.at_least_one s in
      (u.next_seqno ≡ s.next_seqno)
      × (u.abs_ackno ≡ s.abs_ackno)
      × (u.stream ≡ s.stream)
      × (u.isn ≡ s.isn)
unfolding TcpConnection.at_least_one TcpSender.send_empty_segment
at_least_one-numbers s = ground arith

-- What a segment with SYN leaves of a connection: the receiver has taken it, and the sender is the
-- one that the acknowledgment and the SYN of its own leave, but for its queue.
pub record Opened (c : TcpConnection) (seg : TcpSegment) (t : TcpConnection) : Type 0 where
  pub receiver : t.receiver ≡ TcpReceiver.segment_received c.receiver seg
  pub sender : TcpSender.TcpSender
  pub filled :
      sender
      ≡ TcpConnection.fill_on_syn (TcpConnection.take_ack (TcpConnection.take_in c seg) seg) seg
  pub next_seqno : t.sender.next_seqno ≡ sender.next_seqno
  pub abs_ackno : t.sender.abs_ackno ≡ sender.abs_ackno
  pub stream : t.sender.stream ≡ sender.stream
  pub isn : t.sender.isn ≡ sender.isn
  pub out :
      t.segments_out
      ≡ c.segments_out
        ++ map
            (handle_sender_segment (TcpReceiver.segment_received c.receiver seg))
            (TcpConnection.at_least_one sender).segments_out
  pub active : t.active ≡ true
  pub linger : t.linger_after_streams_finish ≡ c.linger_after_streams_finish

pub no_linger-syn :
    (c : TcpConnection)
    → c.receiver.reassembler.output.input_end ≡ false
    → TcpConnection.no_linger c ≡ c
unfolding TcpConnection.no_linger
no_linger-syn c h = rw h refl

pub segment_received-Opened :
    (c : TcpConnection) (seg : TcpSegment)
    → c.active ≡ true
    → IsSyn seg
    → SynTaken (TcpReceiver.segment_received c.receiver seg)
    → Opened c seg (segment_received c seg)
segment_received-Opened c seg alive v r =
    let c1 = TcpConnection.take_ack (TcpConnection.take_in c seg) seg in
    let kept : (c1.receiver ≡ TcpReceiver.segment_received c.receiver seg)
        × (c1.segments_out ≡ c.segments_out)
        × (c1.active ≡ true)
        × (c1.linger_after_streams_finish ≡ c.linger_after_streams_finish) =
      unfold TcpConnection.take_ack TcpConnection.take_in in ground (arith, alive) in
    let pos : 0 < TcpSegment.length_in_sequence_space seg = ground (arith, v.syn) in
    let path : segment_received c seg ≡ TcpConnection.answer (TcpConnection.no_linger c1) seg =
      unfold segment_received TcpConnection.follow_prereq in ground (arith, v.no_rst, pos, alive) in
    let ended : c1.receiver.reassembler.output.input_end ≡ false =
      ap (λ (x : TcpReceiver.TcpReceiver). x.reassembler.output.input_end) kept.0 ∙ r.going in
    let s = TcpConnection.fill_on_syn c1 seg in
    let n = at_least_one-numbers s in
    let t = send_all_lem (record c1 { sender = TcpConnection.at_least_one s }) in
    rw path (
      rw (no_linger-syn c1 ended) (
        unfold TcpConnection.answer in
        rw t (record {
          receiver = kept.0;
          sender = s;
          filled = refl;
          next_seqno = n.0;
          abs_ackno = n.1;
          stream = n.2;
          isn = n.3;
          out =
              ap₂
                (λ q r.
                  q ++ map (handle_sender_segment r) (TcpConnection.at_least_one s).segments_out)
                kept.1 kept.0;
          active = kept.2;
          linger = kept.3;
        })))

-- A SYN without text leaves the reassembler as it was.
pub new_unchanged :
    (capacity : ℕ)
    → StreamReassembler.push_substring (StreamReassembler.new capacity) [] 0 false
      ≡ StreamReassembler.new capacity
unfolding StreamReassembler.new ByteStream.new StreamReassembler.push_substring
    StreamReassembler.accept StreamReassembler.note_eof StreamReassembler.truncation_data
    StreamReassembler.push_onestr StreamReassembler.emit StreamReassembler.check_end
    StreamReassembler.keep StreamReassembler.read_out StreamReassembler.scan ByteStream.write
new_unchanged capacity = ground arith
