-- ===== src/TcpState/Segments.antt =====
-- The segments that open a connection.
use sponge.Prelude.{◌≡◌, refl, true, false, [], ap, ◌∙◌, sym, subst, ap₂, map, ◌++◌, ◌∷◌, some, ℕ}
use sponge.WrappingInt32.{WrappingInt32, wrap}
use sponge.ByteStream
use sponge.TcpConfig.{TcpConfig}
use sponge.TcpSegment.{TcpSegment}
use sponge.TcpReceiver
use sponge.TcpSender
use sponge.TcpConnection
use sponge.TcpConnection.{TcpConnection, new, connect, segment_received, handle_sender_segment}
use sponge.TcpConnection.Dispatch.{send_all_lem}
use sponge.TcpState.Transitions.{
  syn_out, ack_received-numbers, fill_on_syn-passive, fill_on_syn-acked, connect_lem,
}
use sponge.TcpState.Acknowledged.{IsAck, HalfOpen, first_taken, at_least_one-empty}
use sponge.TcpState.Opening.{syn_taken, IsSyn, SynTaken, new-SynTaken, segment_received-Opened}

acks_syn :
    (capacity : ℕ) (seg : TcpSegment)
    → IsSyn seg
    → (TcpReceiver.segment_received (TcpReceiver.new capacity) seg).ackno
      ≡ some (wrap 1 seg.header.seqno)
unfolding TcpReceiver.segment_received TcpReceiver.new TcpReceiver.first_received
acks_syn capacity seg v =
    let (live, going, no_eof, first) = syn_taken capacity in
    rw (v.syn, TcpReceiver.segment_received) (rw (v.no_text, v.no_fin, first) refl)

-- The SYN that a connection puts on its queue.
abbrev own_syn : TcpConfig → WrappingInt32 → TcpSegment
own_syn cfg random = TcpSender.make_segment (new cfg random).sender 0 true false []

filled_out :
    (cfg : TcpConfig) (random : WrappingInt32)
    → let s = TcpSender.fill_window (new cfg random).sender in
      (s.segments_out ≡ own_syn cfg random ∷ [])
      × ((TcpConnection.at_least_one s).segments_out ≡ own_syn cfg random ∷ [])
unfolding new TcpSender.new TcpSender.fill_window TcpSender.send_syn TcpSender.transmit
    TcpSender.make_segment TcpConnection.at_least_one
filled_out cfg random = (refl, refl)

-- A SYN of the connection, as it goes out.
pub record IsOwnSyn (cfg : TcpConfig) (random : WrappingInt32) (seg : TcpSegment) : Type 0 where
  pub shape : IsSyn seg
  pub number : seg.header.seqno ≡ wrap 0 (new cfg random).sender.isn

pub connect_out :
    (cfg : TcpConfig) (random : WrappingInt32)
    → (seg : TcpSegment) × ((connect (new cfg random)).segments_out ≡ seg ∷ [])
      × IsOwnSyn cfg random seg
      × (seg.header.ack ≡ false)
unfolding connect new handle_sender_segment TcpSender.make_segment TcpReceiver.new
connect_out cfg random =
    let c = new cfg random in
    (
      handle_sender_segment c.receiver (own_syn cfg random),
      rw (send_all_lem (record c { sender = TcpSender.fill_window c.sender }))
          (ap (map (handle_sender_segment c.receiver)) (filled_out cfg random).0),
      record {
        shape = record { syn = refl; no_rst = refl; no_fin = refl; no_text = refl };
        number = refl;
      },
      refl,
    )

stamped_syn :
    (cfg : TcpConfig) (random : WrappingInt32) (r : TcpReceiver.TcpReceiver) (ackno : WrappingInt32)
    → r.ackno ≡ some ackno
    → let seg = handle_sender_segment r (own_syn cfg random) in
      IsOwnSyn cfg random seg × (seg.header.ack ≡ true) × (seg.header.ackno ≡ ackno)
unfolding handle_sender_segment TcpSender.make_segment
stamped_syn cfg random r ackno e =
    rw (e, handle_sender_segment)
      (
        record {
          shape = record { syn = refl; no_rst = refl; no_fin = refl; no_text = refl };
          number = refl;
        },
        refl,
        refl,
      )

pub passive_out :
    (cfg : TcpConfig) (random : WrappingInt32) (seg : TcpSegment)
    → IsSyn seg
    → seg.header.ack ≡ false
    → (answer : TcpSegment) × ((segment_received (new cfg random) seg).segments_out ≡ answer ∷ [])
      × IsOwnSyn cfg random answer
      × (answer.header.ack ≡ true)
      × (answer.header.ackno ≡ wrap 1 seg.header.seqno)
passive_out cfg random seg v no_ack =
    let c = new cfg random in
    let r = TcpReceiver.segment_received (TcpReceiver.new cfg.recv_capacity) seg in
    let o =
      segment_received-Opened c seg (unfold new in refl) v
        (unfold new in new-SynTaken cfg.recv_capacity seg v) in
    let filled = o.filled ∙ fill_on_syn-passive c seg v.syn no_ack in
    let (own, acks, ackno) =
      stamped_syn cfg random r (wrap 1 seg.header.seqno) (acks_syn cfg.recv_capacity seg v) in
    (
      handle_sender_segment r (own_syn cfg random),
      o.out
          ∙ (unfold new in
              ap (map (handle_sender_segment r)) (
                ap (λ s. (TcpConnection.at_least_one s).segments_out) filled
                ∙ (filled_out cfg random).1)),
      own,
      acks,
      ackno,
    )

-- The server after the client's SYN.
pub served :
    (cfg : TcpConfig) (random : WrappingInt32) (seg : TcpSegment)
    → IsSyn seg
    → seg.header.ack ≡ false
    → HalfOpen
        (segment_received (new cfg random) seg)
        cfg.recv_capacity
        seg.header.seqno
        (new cfg random).sender.isn
served cfg random seg v no_ack =
    let c = new cfg random in
    let o =
      segment_received-Opened c seg (unfold new in refl) v
        (unfold new in new-SynTaken cfg.recv_capacity seg v) in
    let filled = o.filled ∙ fill_on_syn-passive c seg v.syn no_ack in
    let (next, acked, live, going, isn) = syn_out cfg random in
    record {
      receiver = o.receiver ∙ (unfold new in first_taken cfg.recv_capacity seg v);
      isn = o.isn ∙ ap (λ (x : TcpSender.TcpSender). x.isn) filled ∙ isn;
      next_seqno = o.next_seqno ∙ ap (λ (x : TcpSender.TcpSender). x.next_seqno) filled ∙ next;
      abs_ackno = o.abs_ackno ∙ ap (λ (x : TcpSender.TcpSender). x.abs_ackno) filled ∙ acked;
      live =
          ap (λ (x : ByteStream.ByteStream). x.error) o.stream
          ∙ ap (λ (x : TcpSender.TcpSender). x.stream.error) filled
          ∙ live;
      going =
          ap (λ (x : ByteStream.ByteStream). x.input_end) o.stream
          ∙ ap (λ (x : TcpSender.TcpSender). x.stream.input_end) filled
          ∙ going;
      active = o.active;
      linger = o.linger ∙ (unfold new in refl);
    }

-- The client's answer to a SYN with an acknowledgment.
stamped-IsAck :
    (s : TcpSender.TcpSender) (r : TcpReceiver.TcpReceiver) (ackno isn : WrappingInt32)
    → r.ackno ≡ some ackno
    → s.isn ≡ isn
    → s.next_seqno ≡ 1
    → let empty = TcpSender.make_segment s s.next_seqno false false [] in
      let seg =
        handle_sender_segment r (record empty { header = record (empty.header) { rst = false } }) in
      IsAck seg × (seg.header.seqno ≡ wrap 1 isn) × (seg.header.ackno ≡ ackno)
unfolding handle_sender_segment TcpSender.make_segment
stamped-IsAck s r ackno isn e i n =
    rw (e, handle_sender_segment)
      (
        record { no_syn = refl; no_rst = refl; no_fin = refl; ack = refl; no_text = refl },
        ap₂ wrap n i,
        refl,
      )

pub client_out :
    (cfg : TcpConfig) (random : WrappingInt32) (seg : TcpSegment)
    → IsSyn seg
    → seg.header.ack ≡ true
    → let c = connect (new cfg random) in
      (answer : TcpSegment) × ((segment_received c seg).segments_out
        ≡ c.segments_out ++ answer ∷ [])
      × IsAck answer
      × (answer.header.seqno ≡ wrap 1 (new cfg random).sender.isn)
      × (answer.header.ackno ≡ wrap 1 seg.header.seqno)
client_out cfg random seg v ack =
    let c = connect (new cfg random) in
    let (receiver, sender, alive, linger) = connect_lem cfg random in
    let taken =
      subst (λ r. SynTaken (TcpReceiver.segment_received r seg)) (sym receiver)
        (new-SynTaken cfg.recv_capacity seg v) in
    let o = segment_received-Opened c seg alive v taken in
    let s = TcpSender.ack_received c.sender seg.header.ackno seg.header.win in
    let r = TcpReceiver.segment_received c.receiver seg in
    let n = ack_received-numbers c.sender seg.header.ackno seg.header.win in
    let (next, acked, live, going, isn) = syn_out cfg random in
    let empty =
      at_least_one-empty s (n.3 ∙ ap (λ (x : TcpSender.TcpSender). x.segments_out) sender) in
    let (is_ack, number, ackno) =
      stamped-IsAck s r (wrap 1 seg.header.seqno) (new cfg random).sender.isn
        (ap (λ x. (TcpReceiver.segment_received x seg).ackno) receiver
          ∙ acks_syn cfg.recv_capacity seg v)
        (n.4 ∙ ap (λ (x : TcpSender.TcpSender). x.isn) sender ∙ isn)
        (n.0 ∙ ap (λ (x : TcpSender.TcpSender). x.next_seqno) sender ∙ next) in
    (
      _,
      o.out
          ∙ ap
              (λ x.
                c.segments_out
                ++ map (handle_sender_segment r) (TcpConnection.at_least_one x).segments_out)
              (o.filled ∙ fill_on_syn-acked c seg ack)
          ∙ ap (λ q. c.segments_out ++ map (handle_sender_segment r) q) empty,
      is_ack,
      number,
      ackno,
    )
