-- ===== src/TcpReceiver/Acks.antt =====
-- What the receiver acknowledges: the first byte of the peer's stream that it has not got.
use sponge.Prelude.{
  ℕ, ◌+◌, ◌-◌, ◌/◌, ◌^◌, ◌≤◌, ◌<◌, ◌≡◌, ◌≢◌, refl, ap, ap₂, ◌∙◌, sym, true, false, ◌&&◌, ◌||◌, none,
  some, length, arith, ◌⊎◌, inl, inr, ◌==◌, add64, sub64, Bool-cases, dec_lt,
}
use sponge.WrappingInt32.{WrappingInt32, wrap, unwrap}
use sponge.WrappingInt32.RoundTrip.{IsWord}
use sponge.WrappingInt32.Closest.{gap, unwrap-wrap}
use sponge.StreamReassembler.{StreamReassembler, push_substring, reach_end}
use sponge.StreamReassembler.Invariant.{edge, Core, Inv}
use sponge.StreamReassembler.Held.{Held}
use sponge.StreamReassembler.Receive.{Consistent}
use sponge.StreamReassembler.Reassembly.{
  push_substring-Inv, push_substring-Held, push_substring-first_missing, has_eof-push_substring,
  cap-push_substring,
}
use sponge.TcpSegment.{TcpSegment}
use sponge.TcpReceiver.{
  TcpReceiver, window_size, bit, first_received, next_received, segment_received,
}

module _ (peer : ℕ → ℕ) (size : ℕ) (isn : WrappingInt32) where
  -- The sequence number behind the last byte that is written out, SYN counted, and FIN too once the
  -- end is known and reached.
  abbrev pub next_abs : StreamReassembler → ℕ
  next_abs re = re.first_unassembled + 1 + bit (re.has_eof && re.first_unassembled == size)

  pub record IsSynchronized (r : TcpReceiver) : Type 0 where
    pub inv : Inv peer size r.reassembler
    pub isn_known : r.isn ≡ some isn
    pub acked : r.ackno ≡ some (wrap (next_abs r.reassembler) isn)
    pub cap : r.capacity ≡ r.reassembler.output.capacity

  reach_end-size :
      {re : StreamReassembler}
      → Core peer size re
      → reach_end re ≡ (re.has_eof && re.first_unassembled == size)
  unfolding reach_end
  reach_end-size v = ground (arith, v)

  -- The advertised window ends where the reassembler's ends.
  pub window_size-edge :
      {r : TcpReceiver}
      → IsSynchronized r
      → r.reassembler.first_unassembled + window_size r ≡ edge r.reassembler
  unfolding window_size
  window_size-edge v = omega (arith, v.inv.core, v.cap)

  -- A segment of the peer, for a receiver that is synchronised: its sequence number stands for
  -- `abs`, near to what the receiver expects and not across the blind spot of `unwrap`, and its
  -- payload is a part of the stream that starts inside the window.
  pub record Expected (r : TcpReceiver) (seg : TcpSegment) (abs : ℕ) : Type 0 where
    pub numbered : seg.header.seqno ≡ wrap abs isn
    pub after_syn : 1 ≤ abs
    pub small : abs < 2 ^ 62
    pub near : gap abs r.reassembler.first_unassembled < 2 ^ 31
    pub seen : (r.reassembler.first_unassembled / 2 ^ 32 ≢ 1) ⊎ (2 ^ 32 ≤ abs)
    pub part : Consistent peer size r.reassembler seg.payload (abs - 1) seg.header.fin

  -- The index that `segment_received` computes for the payload is the peer's.
  index-eq :
      {r : TcpReceiver} {seg : TcpSegment} {abs : ℕ}
      → IsWord isn
      → Core peer size r.reassembler
      → Expected r seg abs
      → sub64 (unwrap seg.header.seqno isn r.reassembler.first_unassembled) 1 ≡ abs - 1
  index-eq {r} {seg} {abs} w v e =
      let back : unwrap seg.header.seqno isn r.reassembler.first_unassembled ≡ abs =
        ap (λ n. unwrap n isn r.reassembler.first_unassembled) e.numbered
        ∙ unwrap-wrap abs isn r.reassembler.first_unassembled (omega (arith, e)) w
            (omega (arith, v)) e.seen e.near in
      omega (arith, back, e)

  -- The acknowledgment after a step of the reassembler.
  synchronized :
      {re : StreamReassembler} (r : TcpReceiver)
      → Inv peer size re
      → r.capacity ≡ re.output.capacity
      → r.isn ≡ some isn
      → IsSynchronized (record r {
        reassembler = re;
        ackno = some (wrap (add64 (add64 re.first_unassembled 1) (bit (reach_end re))) isn);
      })
  synchronized {re} r v c i = record {
    inv = v;
    isn_known = i;
    acked =
        ap (λ n. some (wrap n isn))
          (ap (λ b. add64 (add64 re.first_unassembled 1) (bit b)) (reach_end-size v.core) ∙ sum);
    cap = c;
  }
    where
      sum :
          add64 (add64 re.first_unassembled 1) (bit (re.has_eof && re.first_unassembled == size))
          ≡ next_abs re
      sum = ground (arith, v.core)

  next_received-IsSynchronized :
      {r : TcpReceiver} (seg : TcpSegment) (abs : ℕ)
      → IsWord isn
      → IsSynchronized r
      → Expected r seg abs
      → IsSynchronized (next_received r isn seg)
        × ((next_received r isn seg).reassembler
            ≡ push_substring r.reassembler seg.payload (abs - 1) seg.header.fin)
  unfolding next_received
  next_received-IsSynchronized {r} seg abs w v e = rw (index-eq w v.inv.core e) (
    synchronized r (push_substring-Inv peer size v.inv e.part)
        (v.cap ∙ sym (cap-push_substring peer size v.inv e.part)) v.isn_known,
    refl,
  )

  -- For a receiver that is synchronised and an initial number below 2 ^ 32: a segment of the peer
  -- whose sequence number stands for a number behind that of the SYN (from 1 to 2 ^ 62) and
  -- within 2 ^ 31 of the first byte not written out, outside the blind spot of unwrap, with a
  -- payload that is the peer's at that place and starts inside the window, or at its end, and a
  -- FIN only behind the stream's last byte, goes to the reassembler at its own place in the
  -- stream; the receiver stays synchronised, so that its acknowledgment is that of the first byte
  -- not written out, or of what follows the FIN once the whole stream is there; and that byte is
  -- not held.
  pub segment_received-IsSynchronized :
      {r : TcpReceiver} (seg : TcpSegment) (abs : ℕ)
      → IsWord isn
      → IsSynchronized r
      → Expected r seg abs
      → let t = segment_received r seg in
        IsSynchronized t
        × (t.reassembler ≡ push_substring r.reassembler seg.payload (abs - 1) seg.header.fin)
        × ¬ Held t.reassembler t.reassembler.first_unassembled
  segment_received-IsSynchronized {r} seg abs w v e = rw (received) (
      let (a, b) = next_received-IsSynchronized seg abs w v e in
      (a, b, rw b (push_substring-first_missing peer size v.inv e.part)))
    where
      received : segment_received r seg ≡ next_received r isn seg
      received = unfold segment_received in ground (arith, v.isn_known)

  -- A receiver to which no SYN has come.
  pub record IsWaiting (r : TcpReceiver) : Type 0 where
    pub inv : Inv peer size r.reassembler
    pub isn_unknown : r.isn ≡ none
    pub not_acked : r.ackno ≡ none
    pub cap : r.capacity ≡ r.reassembler.output.capacity
    pub start : r.reassembler.first_unassembled ≡ 0
    pub unread : r.reassembler.output.bytes_read ≡ 0
    pub open_end : r.reassembler.has_eof ≡ false

  -- Before the SYN nothing is taken in, and nothing acknowledged.
  pub segment_received-before_syn :
      {r : TcpReceiver} (seg : TcpSegment)
      → IsWaiting r
      → seg.header.syn ≡ false
      → segment_received r seg ≡ r
  unfolding segment_received
  segment_received-before_syn seg v s = ground (arith, v.isn_unknown)

  first_reach :
      {r : TcpReceiver} (seg : TcpSegment)
      → (v : IsWaiting r) → Consistent peer size r.reassembler seg.payload 0 seg.header.fin
      → (seg.header.fin ≡ false) ⊎ (length seg.payload ≤ r.capacity)
      → let re = push_substring r.reassembler seg.payload 0 seg.header.fin in
        bit seg.header.fin ≡ bit (re.has_eof && re.first_unassembled == size)
  first_reach {r} seg v c whole = elim (Bool-cases seg.header.fin) [
    | inl f ↦ ground (arith, flag, arrived f)
    | inr f ↦ ground (arith, flag)
  ]
    where
      re : StreamReassembler
      re = push_substring r.reassembler seg.payload 0 seg.header.fin

      flag : re.has_eof ≡ (seg.header.fin || r.reassembler.has_eof)
      flag = has_eof-push_substring peer size v.inv c

      bound : re.first_unassembled ≤ size
      bound = (push_substring-Inv peer size v.inv c).core.in_stream

      arrived : seg.header.fin ≡ true → re.first_unassembled ≡ size
      arrived f = elim (dec_lt re.first_unassembled size) [
        | yes p ↦ absurd (
            push_substring-first_missing peer size v.inv c (
              (push_substring-Held peer size v.inv c re.first_unassembled).1 (
                inr
                  (omega arith, ground (arith, c.last), ground (arith, c.last, v.cap, v.unread)))))
        | no p ↦ omega (arith, bound)
      ]

  -- A receiver to which no SYN has come is synchronised by a segment with SYN whose payload is
  -- the start of the peer's stream, where a FIN in the same segment comes with a payload that
  -- fits the capacity.
  pub segment_received-syn :
      {r : TcpReceiver} (seg : TcpSegment)
      → IsWaiting r
      → seg.header.syn ≡ true
      → seg.header.seqno ≡ isn
      → Consistent peer size r.reassembler seg.payload 0 seg.header.fin
      → (seg.header.fin ≡ false) ⊎ (length seg.payload ≤ r.capacity)
      → IsSynchronized (segment_received r seg)
  unfolding first_received
  segment_received-syn {r} seg v s n c whole = rw (received) (record {
    inv = push_substring-Inv peer size v.inv c;
    isn_known = ap some n;
    acked = ap some (
        ap₂ wrap
          (ap (λ b. add64 (add64 1 re.first_unassembled) b) (first_reach seg v c whole) ∙ sum) n);
    cap = v.cap ∙ sym (cap-push_substring peer size v.inv c);
  })
    where
      received : segment_received r seg ≡ first_received r seg
      received = unfold segment_received in ground (arith, v.isn_unknown)

      re : StreamReassembler
      re = push_substring r.reassembler seg.payload 0 seg.header.fin

      core : Core peer size re
      core = (push_substring-Inv peer size v.inv c).core

      sum :
          add64 (add64 1 re.first_unassembled) (bit (re.has_eof && re.first_unassembled == size))
          ≡ next_abs re
      sum = ground (arith, core)
