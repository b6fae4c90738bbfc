-- ===== src/TcpState/Acknowledged.antt =====
-- The last segment of the handshake: an acknowledgment without text.
use sponge.Prelude.{◌≡◌, refl, true, false, [], arith, inl, inr, ap, ◌∙◌, ◌∷◌, some, ℕ, Bool-cases}
use sponge.WrappingInt32.{WrappingInt32, wrap, unwrap}
use sponge.WrappingInt32.RoundTrip.{IsWord}
use sponge.WrappingInt32.Closest.{unwrap-wrap}
use sponge.StreamReassembler
use sponge.TcpSegment
use sponge.TcpSegment.{TcpSegment}
use sponge.TcpReceiver
use sponge.TcpReceiver.{TcpReceiver}
use sponge.TcpSender
use sponge.TcpConnection
use sponge.TcpConnection.{TcpConnection, new, connect, segment_received, handle_sender_segment}
use sponge.TcpConnection.Dispatch.{send_all_lem}
use sponge.TcpState.Opening.{new_unchanged, IsSyn, no_linger-syn, sender_syn_acked}
use sponge.TcpState.Transitions.{summed, ack_received-numbers, note_ackno-first}
use sponge.TcpState.{State, of_state, state, receiver_summary}
use sponge.TcpState.ReceiverSummary
use sponge.ByteStream

-- A segment with an acknowledgment alone.
pub record IsAck (seg : TcpSegment) : Type 0 where
  pub no_syn : seg.header.syn ≡ false
  pub no_rst : seg.header.rst ≡ false
  pub no_fin : seg.header.fin ≡ false
  pub ack : seg.header.ack ≡ true
  pub no_text : seg.payload ≡ []

-- A receiver that has taken a SYN with this number, and nothing else.
abbrev pub synchronized : ℕ → WrappingInt32 → TcpReceiver
synchronized capacity isn = record {
  reassembler = StreamReassembler.new capacity;
  capacity = capacity;
  isn = some isn;
  ackno = some (wrap 1 isn);
}

pub first_taken :
    (capacity : ℕ) (seg : TcpSegment)
    → IsSyn seg
    → TcpReceiver.segment_received (TcpReceiver.new capacity) seg
      ≡ synchronized capacity seg.header.seqno
unfolding TcpReceiver.segment_received TcpReceiver.new TcpReceiver.first_received
first_taken capacity seg v =
    rw (v.syn, TcpReceiver.segment_received)
      (rw (v.no_text, v.no_fin, new_unchanged capacity) (unfold StreamReassembler.new in refl))

pub second_taken :
    (capacity : ℕ) (isn : WrappingInt32) (seg : TcpSegment)
    → IsWord isn
    → IsAck seg
    → seg.header.seqno ≡ wrap 1 isn
    → TcpReceiver.segment_received (synchronized capacity isn) seg ≡ synchronized capacity isn
unfolding TcpReceiver.segment_received TcpReceiver.next_received
second_taken capacity isn seg w v e =
    let read : unwrap seg.header.seqno isn (StreamReassembler.new capacity).first_unassembled ≡ 1 =
      unfold StreamReassembler.new in
      rw e (unwrap-wrap 1 isn 0 (omega arith) w (omega arith) (inl (omega arith)) (omega arith)) in
    rw (read, v.no_text, v.no_fin, new_unchanged capacity)
      (unfold StreamReassembler.new StreamReassembler.reach_end in refl)

pub answer_empty-numbers :
    (c : TcpConnection) (seg : TcpSegment)
    → let t = TcpConnection.answer_empty c seg in
      (t.receiver ≡ c.receiver)
      × (t.sender.next_seqno ≡ c.sender.next_seqno)
      × (t.sender.abs_ackno ≡ c.sender.abs_ackno)
      × (t.sender.stream ≡ c.sender.stream)
      × (t.active ≡ c.active)
      × (t.linger_after_streams_finish ≡ c.linger_after_streams_finish)
unfolding TcpConnection.answer_empty TcpSender.send_empty_segment
answer_empty-numbers c seg = elim (Bool-cases (TcpConnection.is_keep_alive c seg)) [
  | inl e ↦ rw e (
      rw (send_all_lem (record c { sender = TcpSender.send_empty_segment c.sender false }))
        (refl, refl, refl, refl, refl, refl))
  | inr e ↦ rw e (rw (send_all_lem c) (refl, refl, refl, refl, refl, refl))
]

pub at_least_one-empty :
    (s : TcpSender.TcpSender)
    → s.segments_out ≡ []
    → let empty = TcpSender.make_segment s s.next_seqno false false [] in
      (TcpConnection.at_least_one s).segments_out
      ≡ (record empty { header = record (empty.header) { rst = false } }) ∷ []
unfolding TcpConnection.at_least_one TcpSender.send_empty_segment
at_least_one-empty s e = rw e refl

-- A connection that has taken the peer's SYN and has sent its own.
pub record HalfOpen (c : TcpConnection) (capacity : ℕ) (peer own : WrappingInt32) : Type 0 where
  pub receiver : c.receiver ≡ synchronized capacity peer
  pub isn : c.sender.isn ≡ own
  pub next_seqno : c.sender.next_seqno ≡ 1
  pub abs_ackno : c.sender.abs_ackno ≡ 0
  pub live : c.sender.stream.error ≡ false
  pub going : c.sender.stream.input_end ≡ false
  pub active : c.active ≡ true
  pub linger : c.linger_after_streams_finish ≡ true

took_ack :
    (c : TcpConnection) (seg : TcpSegment)
    → seg.header.ack ≡ true
    → TcpConnection.take_ack (TcpConnection.take_in c seg) seg
      ≡ record (TcpConnection.take_in c seg) {
        sender = TcpSender.ack_received c.sender seg.header.ackno seg.header.win;
      }
unfolding TcpConnection.take_ack TcpConnection.take_in
took_ack c seg a = rw a refl

synchronized-summary :
    (capacity : ℕ) (isn : WrappingInt32)
    → receiver_summary (synchronized capacity isn) ≡ ReceiverSummary.syn_recv
unfolding receiver_summary StreamReassembler.new ByteStream.new
synchronized-summary capacity isn = refl

pub acknowledged :
    (c : TcpConnection) (seg : TcpSegment) (capacity : ℕ) (peer own : WrappingInt32)
    → HalfOpen c capacity peer own
    → IsWord peer
    → IsWord own
    → IsAck seg
    → seg.header.seqno ≡ wrap 1 peer
    → seg.header.ackno ≡ wrap 1 own
    → state (segment_received c seg) ≡ of_state State.established
unfolding of_state
acknowledged c seg capacity peer own h wp wo v number acks =
    let s = TcpSender.ack_received c.sender seg.header.ackno seg.header.win in
    let c1 = record (TcpConnection.take_in c seg) { sender = s } in
    let receiver : c1.receiver ≡ synchronized capacity peer =
      unfold TcpConnection.take_in in
      ap (λ r. TcpReceiver.segment_received r seg) h.receiver
      ∙ second_taken capacity peer seg wp v number in
    let ended : c1.receiver.reassembler.output.input_end ≡ false =
      ap (λ (r : TcpReceiver). r.reassembler.output.input_end) receiver
      ∙ (unfold StreamReassembler.new ByteStream.new in refl) in
    let nothing : TcpSegment.length_in_sequence_space seg ≡ 0 =
      ground (arith, v.no_syn, v.no_fin, v.no_text) in
    let dispatched : segment_received c seg
        ≡ TcpConnection.answer_empty
            (TcpConnection.no_linger (TcpConnection.take_ack (TcpConnection.take_in c seg) seg))
            seg =
      (unfold segment_received TcpConnection.follow_prereq in
        ground (arith, h.active, v.no_rst, nothing)) in
    let path =
      dispatched
      ∙ ap (λ x. TcpConnection.answer_empty x seg)
          (ap TcpConnection.no_linger (took_ack c seg v.ack) ∙ no_linger-syn c1 ended) in
    let n = ack_received-numbers c.sender seg.header.ackno seg.header.win in
    let noted =
      note_ackno-first c.sender seg.header.ackno own wo acks h.isn h.next_seqno h.abs_ackno in
    let e = answer_empty-numbers c1 seg in
    let stream = e.3 ∙ n.2 in
    ap state path
    ∙ summed (TcpConnection.answer_empty c1 seg)
        (sender_syn_acked (TcpConnection.answer_empty c1 seg).sender
          (ap (λ (x : ByteStream.ByteStream). x.error) stream ∙ h.live)
          (ap (λ (x : ByteStream.ByteStream). x.input_end) stream ∙ h.going)
          (e.1 ∙ n.0 ∙ h.next_seqno) (e.2 ∙ n.1 ∙ noted))
        (ap receiver_summary (e.0 ∙ receiver) ∙ synchronized-summary capacity peer)
        (e.4 ∙ (unfold TcpConnection.take_in in h.active))
        (e.5 ∙ (unfold TcpConnection.take_in in h.linger))
