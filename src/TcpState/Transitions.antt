-- ===== src/TcpState/Transitions.antt =====
-- The summaries after the first segment of a peer.
use sponge.Prelude.{◌≡◌, refl, true, false, [], arith, inl, ap, ◌∙◌, sym, subst, ℕ}
use Prim.Native.String.{String}
use sponge.WrappingInt32.{WrappingInt32, wrap, unwrap}
use sponge.WrappingInt32.RoundTrip.{IsWord}
use sponge.WrappingInt32.Closest.{unwrap-wrap}
use sponge.ByteStream
use sponge.TcpConfig.{TcpConfig}
use sponge.TcpSegment.{TcpSegment}
use sponge.TcpReceiver
use sponge.TcpSender
use sponge.TcpConnection
use sponge.TcpConnection.{TcpConnection, new, connect, segment_received, handle_sender_segment}
use sponge.TcpConnection.Dispatch.{send_all_lem}
use sponge.TcpState.Opening.{
  IsSyn, SynTaken, new-SynTaken, receiver_syn_recv, sender_syn_sent, sender_syn_acked,
  segment_received-Opened,
}
use sponge.TcpState.{State, of_state, of_parts, state, receiver_summary, sender_summary}

pub summed :
    (t : TcpConnection) {a b : String}
    → sender_summary t.sender ≡ a
    → receiver_summary t.receiver ≡ b
    → t.active ≡ true
    → t.linger_after_streams_finish ≡ true
    → state t
      ≡ record { sender = a; receiver = b; active = true; linger_after_streams_finish = true }
unfolding state of_parts
summed t s r alive linger = rw (s, r, alive, linger) refl

-- What a new sender is after it has sent its SYN.
pub syn_out :
    (cfg : TcpConfig) (random : WrappingInt32)
    → let s = TcpSender.fill_window (new cfg random).sender in
      (s.next_seqno ≡ 1)
      × (s.abs_ackno ≡ 0)
      × (s.stream.error ≡ false)
      × (s.stream.input_end ≡ false)
      × (s.isn ≡ (new cfg random).sender.isn)
unfolding new TcpSender.new TcpSender.fill_window TcpSender.send_syn TcpSender.transmit
    TcpSender.make_segment ByteStream.new
syn_out cfg random = (refl, refl, refl, refl, refl)

pub fill_on_syn-passive :
    (c : TcpConnection) (seg : TcpSegment)
    → seg.header.syn ≡ true
    → seg.header.ack ≡ false
    → TcpConnection.fill_on_syn (TcpConnection.take_ack (TcpConnection.take_in c seg) seg) seg
      ≡ TcpSender.fill_window c.sender
unfolding TcpConnection.fill_on_syn TcpConnection.take_ack TcpConnection.take_in
fill_on_syn-passive c seg syn no_ack = rw (syn, no_ack) refl

pub ack_received-numbers :
    (s : TcpSender.TcpSender) (ackno : WrappingInt32) (window : ℕ)
    → let u = TcpSender.ack_received s ackno window in
      (u.next_seqno ≡ s.next_seqno)
      × (u.abs_ackno ≡ (TcpSender.note_ackno s ackno).abs_ackno)
      × (u.stream ≡ s.stream)
      × (u.segments_out ≡ s.segments_out)
      × (u.isn ≡ s.isn)
unfolding TcpSender.ack_received TcpSender.reset_timer TcpSender.note_ackno
ack_received-numbers s ackno window = ground arith

pub note_ackno-first :
    (s : TcpSender.TcpSender) (ackno isn : WrappingInt32)
    → IsWord isn
    → ackno ≡ wrap 1 isn
    → s.isn ≡ isn
    → s.next_seqno ≡ 1
    → s.abs_ackno ≡ 0
    → (TcpSender.note_ackno s ackno).abs_ackno ≡ 1
unfolding TcpSender.note_ackno
note_ackno-first s ackno isn w first start next acked =
    let read : unwrap ackno s.isn s.abs_ackno ≡ 1 =
      rw (first, start, acked)
        (unwrap-wrap 1 isn 0 (omega arith) w (omega arith) (inl (omega arith)) (omega arith)) in
    ground (arith, read, next, acked)

pub fill_on_syn-acked :
    (c : TcpConnection) (seg : TcpSegment)
    → seg.header.ack ≡ true
    → TcpConnection.fill_on_syn (TcpConnection.take_ack (TcpConnection.take_in c seg) seg) seg
      ≡ TcpSender.ack_received c.sender seg.header.ackno seg.header.win
unfolding TcpConnection.fill_on_syn TcpConnection.take_ack TcpConnection.take_in
fill_on_syn-acked c seg acked = ground (arith, acked)

pub passive :
    (cfg : TcpConfig) (random : WrappingInt32) (seg : TcpSegment)
    → IsSyn seg
    → seg.header.ack ≡ false
    → state (segment_received (new cfg random) seg) ≡ of_state State.syn_rcvd
unfolding of_state new
passive cfg random seg v no_ack =
    let c = new cfg random in
    let taken = new-SynTaken cfg.recv_capacity seg v in
    let o = segment_received-Opened c seg refl v taken in
    let filled = o.filled ∙ fill_on_syn-passive c seg v.syn no_ack in
    let (next, acked, live, going, isn) = syn_out cfg random in
    summed (segment_received c seg)
      (sender_syn_sent (segment_received c seg).sender
        (ap (λ (x : ByteStream.ByteStream). x.error) o.stream
          ∙ ap (λ (x : TcpSender.TcpSender). x.stream.error) filled
          ∙ live)
        (o.next_seqno ∙ ap (λ (x : TcpSender.TcpSender). x.next_seqno) filled ∙ next)
        (o.abs_ackno ∙ ap (λ (x : TcpSender.TcpSender). x.abs_ackno) filled ∙ acked))
      (ap receiver_summary o.receiver ∙ receiver_syn_recv taken) o.active o.linger

pub connect_lem :
    (cfg : TcpConfig) (random : WrappingInt32)
    → let c = connect (new cfg random) in
      (c.receiver ≡ TcpReceiver.new cfg.recv_capacity)
      × (c.sender ≡ record (TcpSender.fill_window (new cfg random).sender) { segments_out = [] })
      × (c.active ≡ true)
      × (c.linger_after_streams_finish ≡ true)
unfolding connect new
connect_lem cfg random =
    let c = new cfg random in
    rw (send_all_lem (record c { sender = TcpSender.fill_window c.sender }))
      (refl, refl, refl, refl)

pub answered :
    (cfg : TcpConfig) (random : WrappingInt32) (seg : TcpSegment)
    → IsSyn seg
    → seg.header.ack ≡ true
    → IsWord (new cfg random).sender.isn
    → seg.header.ackno ≡ wrap 1 (new cfg random).sender.isn
    → state (segment_received (connect (new cfg random)) seg) ≡ of_state State.established
unfolding of_state
answered cfg random seg v ack w first =
    let c = connect (new cfg random) in
    let (receiver, sender, alive, linger) = connect_lem cfg random in
    let taken =
      subst (λ r. SynTaken (TcpReceiver.segment_received r seg)) (sym receiver)
        (new-SynTaken cfg.recv_capacity seg v) in
    let o = segment_received-Opened c seg alive v taken in
    let filled = o.filled ∙ fill_on_syn-acked c seg ack in
    let n = ack_received-numbers c.sender seg.header.ackno seg.header.win in
    let (next, acked, live, going, isn) = syn_out cfg random in
    let noted : (TcpSender.note_ackno c.sender seg.header.ackno).abs_ackno ≡ 1 =
      note_ackno-first c.sender seg.header.ackno (new cfg random).sender.isn w first
        (ap (λ (x : TcpSender.TcpSender). x.isn) sender ∙ isn)
        (ap (λ (x : TcpSender.TcpSender). x.next_seqno) sender ∙ next)
        (ap (λ (x : TcpSender.TcpSender). x.abs_ackno) sender ∙ acked) in
    let stream =
      o.stream
      ∙ ap (λ (x : TcpSender.TcpSender). x.stream) filled
      ∙ n.2
      ∙ ap (λ (x : TcpSender.TcpSender). x.stream) sender in
    summed (segment_received c seg)
      (sender_syn_acked (segment_received c seg).sender
        (ap (λ (x : ByteStream.ByteStream). x.error) stream ∙ live)
        (ap (λ (x : ByteStream.ByteStream). x.input_end) stream ∙ going)
        (o.next_seqno
          ∙ ap (λ (x : TcpSender.TcpSender). x.next_seqno) filled
          ∙ n.0
          ∙ ap (λ (x : TcpSender.TcpSender). x.next_seqno) sender
          ∙ next)
        (o.abs_ackno ∙ ap (λ (x : TcpSender.TcpSender). x.abs_ackno) filled ∙ n.1 ∙ noted))
      (ap receiver_summary o.receiver ∙ receiver_syn_recv taken) o.active (o.linger ∙ linger)
