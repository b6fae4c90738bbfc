-- ===== src/TcpConnection/Inbound.antt =====
-- What the calls of a connection do to the bytes that wait for its reader.
use sponge.Prelude.{
  ℕ, ◌≡◌, refl, ap, sym, ◌∙◌, subst, Bool, true, false, not, if_both, Option, none, some, Bytes,
  Option-cases, inl, inr, ◌==◌, if◌then◌else◌, ltb, leb, ◌*◌, add64, eq_of_some, arith,
}
use sponge.WrappingInt32.{WrappingInt32}
use sponge.ByteStream
use sponge.StreamReassembler.Grows.{Grows, Grows-self, inbound, push_substring-Grows}
use sponge.TcpConfig.{max_retx_attempts}
use sponge.TcpSegment.{TcpSegment, length_in_sequence_space}
use sponge.TcpReceiver
use sponge.TcpReceiver.{TcpReceiver}
use sponge.TcpSender
use sponge.TcpSender.{TcpSender, fill_window}
use sponge.TcpConnection.{
  TcpConnection, send_all, no_linger, follow_prereq, send_rst, kill, unclean_shutdown, answer_empty,
  is_keep_alive, answer, take_in, take_ack, segment_received, write, end_input_stream, finish,
  after_tick, tick,
}
use sponge.TcpConnection.Dispatch.{send_all_lem}

-- The bytes that the connection has in order for its reader.
abbrev pub waiting : TcpConnection → Bytes
waiting c = inbound c.receiver.reassembler

abbrev Received : TcpReceiver → TcpReceiver → Type 0
Received r r' = Grows (inbound r.reassembler) (inbound r'.reassembler)

receive_with :
    (r : TcpReceiver) (seg : TcpSegment) (isn : Option WrappingInt32)
    → Received r (elim isn [
      | none ↦ if seg.header.syn then TcpReceiver.first_received r seg else r
      | some isn ↦ TcpReceiver.next_received r isn seg
    ])
unfolding TcpReceiver.first_received TcpReceiver.next_received
receive_with r seg none =
    if_both (Received r) seg.header.syn {x = TcpReceiver.first_received r seg} {y = r}
      (push_substring-Grows r.reassembler seg.payload 0 seg.header.fin)
      (Grows-self (inbound r.reassembler))
receive_with r seg (some isn) = push_substring-Grows r.reassembler seg.payload _ seg.header.fin

take_in-Grows : (c : TcpConnection) (seg : TcpSegment) → Grows (waiting c) (waiting (take_in c seg))
unfolding take_in TcpReceiver.segment_received
take_in-Grows c seg = receive_with c.receiver seg c.receiver.isn

send_all-receiver : (c : TcpConnection) → (send_all c).receiver ≡ c.receiver
send_all-receiver c = ap (λ x. x.receiver) (send_all_lem c)

take_ack-receiver : (c : TcpConnection) (seg : TcpSegment) → (take_ack c seg).receiver ≡ c.receiver
unfolding take_ack
take_ack-receiver c seg =
    if_both (λ (x : TcpConnection). x.receiver ≡ c.receiver) seg.header.ack {y = c} refl refl

no_linger-receiver : (c : TcpConnection) → (no_linger c).receiver ≡ c.receiver
unfolding no_linger
no_linger-receiver c =
    if_both (λ (x : TcpConnection). x.receiver ≡ c.receiver) _
      {x = record c { linger_after_streams_finish = false }} {y = c} refl refl

answer_empty-receiver :
    (c : TcpConnection) (seg : TcpSegment) → (answer_empty c seg).receiver ≡ c.receiver
unfolding answer_empty
answer_empty-receiver c seg =
    send_all-receiver _
    ∙ if_both (λ (x : TcpConnection). x.receiver ≡ c.receiver) (is_keep_alive c seg) {y = c} refl
        refl

answer-receiver : (c : TcpConnection) (seg : TcpSegment) → (answer c seg).receiver ≡ c.receiver
unfolding answer
answer-receiver c seg = send_all-receiver _

unclean_shutdown-waiting :
    (c : TcpConnection) (rst : Bool) → waiting (unclean_shutdown c rst) ≡ waiting c
unfolding unclean_shutdown kill send_rst ByteStream.set_error
unclean_shutdown-waiting c true = ap (λ r. inbound (r.reassembler)) (send_all-receiver _)
unclean_shutdown-waiting c false = refl

-- The connection `t` has the receiver of `c`.
abbrev Same : TcpConnection → TcpConnection → Type 0
Same c t = t.receiver ≡ c.receiver

normal-receiver :
    (c : TcpConnection) (seg : TcpSegment)
    → let c' = (follow_prereq (take_ack c seg)).0 in
      Same c (if length_in_sequence_space seg == 0 then answer_empty c' seg else answer c' seg)
unfolding follow_prereq
normal-receiver c seg =
    let kept = no_linger-receiver (take_ack c seg) ∙ take_ack-receiver c seg in
    if_both (Same c) (length_in_sequence_space seg == 0)
      (answer_empty-receiver (no_linger (take_ack c seg)) seg ∙ kept)
      (answer-receiver (no_linger (take_ack c seg)) seg ∙ kept)

abbrev More : TcpConnection → TcpConnection → Type 0
More c t = Grows (waiting c) (waiting t)

-- A segment that arrives only adds to them.
pub segment_received-Grows :
    (c : TcpConnection) (seg : TcpSegment) → Grows (waiting c) (waiting (segment_received c seg))
unfolding segment_received
segment_received-Grows c seg =
    let reset : More c (unclean_shutdown (take_in c seg) false) =
      subst (Grows (waiting c)) (sym (unclean_shutdown-waiting (take_in c seg) false))
        (take_in-Grows c seg) in
    let normal =
      subst (λ r. Grows (waiting c) (inbound (r.reassembler)))
        (sym (normal-receiver (take_in c seg) seg)) (take_in-Grows c seg) in
    if_both (More c) (not c.active) {x = c} (Grows-self (waiting c))
      (if_both (More c) seg.header.rst {x = unclean_shutdown (take_in c seg) false} reset normal)

-- The calls of the writer leave them alone.
pub write-waiting : (c : TcpConnection) (text : Bytes) → waiting (write c text).0 ≡ waiting c
unfolding write
write-waiting c text = ap (λ r. inbound (r.reassembler)) (send_all-receiver _)

pub end_input_stream-waiting : (c : TcpConnection) → waiting (end_input_stream c) ≡ waiting c
unfolding end_input_stream
end_input_stream-waiting c = ap (λ r. inbound (r.reassembler)) (send_all-receiver _)

finish-receiver : (c : TcpConnection) → Same c (finish c)
unfolding finish follow_prereq
finish-receiver c =
    let c' = no_linger c in
    let kept = no_linger-receiver c in
    if_both (Same c) _ {x = c'} kept (
      if_both (Same c) (not c'.linger_after_streams_finish) {x = record c' { active = false }} kept
        (if_both (Same c) (leb (10 * c'.cfg.rt_timeout) c'.time_since_last_segrecv)
          {x = record c' { lingering = false; active = false }} {y = c'} kept kept))

after_tick-waiting : (c : TcpConnection) → waiting (after_tick c) ≡ waiting c
unfolding after_tick
after_tick-waiting c =
    if_both (λ (x : TcpConnection). waiting x ≡ waiting c)
      (ltb max_retx_attempts c.sender.consecutive_retransmissions) {x = unclean_shutdown c true}
      (unclean_shutdown-waiting c true)
      (ap (λ r. inbound (r.reassembler))
        (finish-receiver _
          ∙ send_all-receiver _
          ∙ if_both (Same c) c.sender.syn_sent {x = record c { sender = fill_window c.sender }}
              {y = c} refl refl))

-- So does the time that passes.
pub tick-waiting : (c t : TcpConnection) (ms : ℕ) → tick c ms ≡ some t → waiting t ≡ waiting c
unfolding tick
tick-waiting c t ms e = elim (Option-cases (TcpSender.tick c.sender ms)) [
  | inl stuck ↦ absurd (ground (arith, stuck, e))
  | inr (s, ticked) ↦
      let e' : some (
            after_tick (record c {
              sender = s;
              time_since_last_segrecv = add64 c.time_since_last_segrecv ms;
            }))
          ≡ some t =
        rw (ticked, tick) at e in
      ap waiting (sym (eq_of_some e')) ∙ after_tick-waiting _
]
