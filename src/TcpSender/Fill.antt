-- ===== src/TcpSender/Fill.antt =====
-- What `fill_window` sends.
use sponge.Prelude.{
  ℕ, zero, suc, ◌+◌, ◌-◌, ◌^◌, ◌≤◌, ◌<◌, ◌≡◌, refl, ap, ◌∙◌, sym, true, false, ◌&&◌, not, List, [],
  ◌∷◌, ◌++◌, length, arith, subst, subst₂, if◌then◌else◌, append_assoc, append-nil, ltb, ◌==◌,
  add64, sub64, u16, max, Bool-cases, inl, inr, ◌⊎◌, eq-nil_of_length,
}
use sponge.WrappingInt32.{wrap}
use sponge.ByteStream
use sponge.ByteStream.{ByteStream, eof}
use sponge.ByteStream.Read.{read-ReadOff}
use sponge.TcpConfig.{max_payload_size}
use sponge.TcpSegment.{TcpSegment, length_in_sequence_space}
use sponge.TcpSender.{
  TcpSender, make_segment, transmit, fill_size, read_payload, next_segment, send_segment, fill_loop,
  fill_window,
}
use sponge.TcpSender.Chain.{Chain, payloads, Within}

-- What `fill_window` has sent in a run from `s` to `t` with `fill` numbers of room: the segments that
-- stand behind both queues, in sequence and without a gap; the bytes that left the stream are their
-- payloads, in order; no more than the room; and at the end the room is used up, or the FIN is out,
-- or there is nothing left to send.
pub record Sent (s : TcpSender) (fill : ℕ) (t : TcpSender) (segs : List TcpSegment) : Type 0 where
  pub out : t.segments_out ≡ s.segments_out ++ segs
  pub backup : t.segments_backup ≡ s.segments_backup ++ segs
  pub chain : Chain s.isn s.next_seqno segs t.next_seqno
  pub within : Within segs
  pub bytes : s.stream.buffer ≡ payloads segs ++ t.stream.buffer
  pub room : t.next_seqno ≤ s.next_seqno + fill
  pub full : (t.next_seqno ≡ s.next_seqno + fill) ⊎ ((t.fin_sent ≡ true) ⊎ (t.stream.buffer ≡ []))
  pub isn : t.isn ≡ s.isn
  pub abs_ackno : t.abs_ackno ≡ s.abs_ackno
  pub window_size : t.window_size ≡ s.window_size
  pub syn_sent : t.syn_sent ≡ s.syn_sent

-- The hypotheses under which it runs: a stream without an error, and no overflow.
pub record CanFill (s : TcpSender) (fill : ℕ) : Type 0 where
  pub live : s.stream.error ≡ false
  pub syn : s.syn_sent ≡ true
  pub small : s.next_seqno + fill < 2 ^ 64
  pub fill_small : fill < 2 ^ 16

-- One round: the read, the segment and the sending.
record Round (s : TcpSender) (fill : ℕ) (s' : TcpSender) (seg : TcpSegment) : Type 0 where
  bytes : s.stream.buffer ≡ seg.payload ++ s'.stream.buffer
  short : length seg.payload ≤ max_payload_size
  fits : length_in_sequence_space seg ≤ fill
  number : seg.header.seqno ≡ wrap s.next_seqno s.isn
  idle : (0 < fill) → (length_in_sequence_space seg ≡ 0) → s'.stream.buffer ≡ []
  rest : s' ≡ record s { stream = s'.stream }
  live : s'.stream.error ≡ s.stream.error

next_segment-Round :
    (s : TcpSender) (fill : ℕ)
    → s.stream.error ≡ false
    → let (s', seg) = next_segment s fill in Round s fill s' seg
unfolding next_segment read_payload make_segment
next_segment-Round s fill e =
    let len = if ltb max_payload_size fill then max_payload_size else fill in
    let t = (ByteStream.read s.stream len).0 in
    let text = (ByteStream.read s.stream len).1 in
    let r = read-ReadOff s.stream len e in
    record {
      bytes = r.joined;
      short = ground (arith, r.count);
      fits = ground (arith, r.count);
      number = refl;
      idle = λ p q. eq-nil_of_length t.buffer (ground (arith, r.count, r.left, p, q));
      rest = refl;
      live = r.error;
    }

-- A segment is sent: what changes.
record SentOne (s : TcpSender) (seg : TcpSegment) (t : TcpSender) : Type 0 where
  out : t.segments_out ≡ s.segments_out ++ seg ∷ []
  backup : t.segments_backup ≡ s.segments_backup ++ seg ∷ []
  next : t.next_seqno ≡ add64 s.next_seqno (length_in_sequence_space seg)
  stream : t.stream ≡ s.stream
  isn : t.isn ≡ s.isn
  abs_ackno : t.abs_ackno ≡ s.abs_ackno
  window_size : t.window_size ≡ s.window_size
  syn_sent : t.syn_sent ≡ s.syn_sent

send_segment-SentOne : (s : TcpSender) (seg : TcpSegment) → SentOne s seg (send_segment s seg)
unfolding send_segment transmit
send_segment-SentOne s seg = elim (Bool-cases seg.header.fin) [
  | inl f ↦ rw f (ground arith)
  | inr f ↦ rw f (ground arith)
]

Sent-nil :
    {s : TcpSender} {fill : ℕ}
    → s.syn_sent ≡ true
    → (ltb 0 fill && not s.fin_sent && s.syn_sent) ≡ false
    → Sent s fill s []
Sent-nil {s} h test = record {
  out = sym (append-nil s.segments_out);
  backup = sym (append-nil s.segments_backup);
  chain = refl;
  within = tt;
  bytes = refl;
  room = omega arith;
  full = ground arith;
  isn = refl;
  abs_ackno = refl;
  window_size = refl;
  syn_sent = refl;
}

Sent-idle :
    {s : TcpSender} {fill : ℕ} {s' : TcpSender} {seg : TcpSegment}
    → 0 < fill
    → length_in_sequence_space seg ≡ 0
    → Round s fill s' seg
    → Sent s fill s' []
Sent-idle {s} {fill} {s'} {seg} pos e r =
    let nothing : seg.payload ≡ [] = eq-nil_of_length seg.payload (omega arith) in
    rw (r.rest) (record {
      out = sym (append-nil s.segments_out);
      backup = sym (append-nil s.segments_backup);
      chain = refl;
      within = tt;
      bytes = r.bytes ∙ ap (λ p. p ++ s'.stream.buffer) nothing;
      room = omega arith;
      full = inr (inr (r.idle pos e));
      isn = refl;
      abs_ackno = refl;
      window_size = refl;
      syn_sent = refl;
    })

Sent-cons :
    {s : TcpSender} {fill : ℕ} {s' : TcpSender} {seg : TcpSegment} {t : TcpSender}
    (segs : List TcpSegment)
    → CanFill s fill
    → 0 < length_in_sequence_space seg
    → Round s fill s' seg
    → Sent (send_segment s' seg) (fill - length_in_sequence_space seg) t segs
    → Sent s fill t (seg ∷ segs)
Sent-cons {s} {fill} {s'} {seg} {t} segs c pos r v =
    let o = send_segment-SentOne s' seg in
    let next : (send_segment s' seg).next_seqno ≡ s.next_seqno + length_in_sequence_space seg =
      ground (arith, o.next, ap (λ (x : TcpSender). x.next_seqno) r.rest, c, r.fits) in
    let same_isn : (send_segment s' seg).isn ≡ s.isn =
      o.isn ∙ ap (λ (x : TcpSender). x.isn) r.rest in
    record {
      out =
          v.out
          ∙ ap (λ q. q ++ segs) (o.out ∙ ap (λ (x : TcpSender). x.segments_out ++ seg ∷ []) r.rest)
          ∙ append_assoc s.segments_out (seg ∷ []) segs;
      backup =
          v.backup
          ∙ ap (λ q. q ++ segs)
              (o.backup ∙ ap (λ (x : TcpSender). x.segments_backup ++ seg ∷ []) r.rest)
          ∙ append_assoc s.segments_backup (seg ∷ []) segs;
      chain = (r.number, pos, subst₂ (λ i n. Chain i n segs t.next_seqno) same_isn next v.chain);
      within = (r.short, v.within);
      bytes =
          r.bytes
          ∙ ap (◌++◌ seg.payload) (sym (ap (λ (x : ByteStream). x.buffer) o.stream) ∙ v.bytes)
          ∙ sym (append_assoc seg.payload (payloads segs) t.stream.buffer);
      room = omega (arith, next, v.room, r.fits);
      full = ground (arith, next, v.full, r.fits);
      isn = v.isn ∙ same_isn;
      abs_ackno = v.abs_ackno ∙ o.abs_ackno ∙ ap (λ (x : TcpSender). x.abs_ackno) r.rest;
      window_size = v.window_size ∙ o.window_size ∙ ap (λ (x : TcpSender). x.window_size) r.rest;
      syn_sent = v.syn_sent ∙ o.syn_sent ∙ ap (λ (x : TcpSender). x.syn_sent) r.rest;
    }

-- What the next round starts from.
CanFill-next :
    {s : TcpSender} {fill : ℕ} {s' : TcpSender} {seg : TcpSegment}
    → CanFill s fill
    → Round s fill s' seg
    → CanFill (send_segment s' seg) (fill - length_in_sequence_space seg)
CanFill-next {s} {fill} {s'} {seg} c r =
    let o = send_segment-SentOne s' seg in ground (arith, c, r.rest, r.live, r.fits, o)

fill_loop-Sent :
    (fuel : ℕ) (s : TcpSender) (fill : ℕ)
    → fill < fuel
    → CanFill s fill
    → (segs : List TcpSegment) × Sent s fill (fill_loop fuel s fill) segs
unfolding fill_loop
fill_loop-Sent zero s fill h c = absurd (omega arith)
fill_loop-Sent (suc fuel) s fill h c =
    let s' = (next_segment s fill).0 in
    let seg = (next_segment s fill).1 in
    let r = next_segment-Round s fill c.live in
    let left : u16 (sub64 fill (length_in_sequence_space seg))
        ≡ fill - length_in_sequence_space seg =
      omega (arith, r.fits, c.fill_small) in
    elim (Bool-cases (ltb 0 fill && not s.fin_sent && s.syn_sent)) [
      | inr stop ↦ rw (stop, fill_loop) ([], Sent-nil c.syn stop)
      | inl go ↦ elim (Bool-cases (length_in_sequence_space seg == 0)) [
        | inl idle ↦ rw (go, idle, fill_loop) ([], Sent-idle (ground arith) (ground arith) r)
        | inr busy ↦
            let (segs, v) =
              fill_loop-Sent fuel (send_segment s' seg) (fill - length_in_sequence_space seg)
                (ground (arith, r.fits)) (CanFill-next c r) in
            rw (go, busy, left, fill_loop) (seg ∷ segs, Sent-cons segs c (ground arith) r v)
      ]
    ]

-- The room that `fill_window` has: what the peer's window (1 if it is closed) leaves beside the
-- numbers in flight.
abbrev pub window_room : TcpSender → ℕ
window_room s = max s.window_size 1 - (s.next_seqno - s.abs_ackno)

fill_size-room :
    (s : TcpSender)
    → s.abs_ackno ≤ s.next_seqno
    → s.next_seqno < 2 ^ 63
    → s.window_size < 2 ^ 16
    → fill_size s ≡ window_room s
unfolding fill_size
fill_size-room s h k w = ground arith

-- Once the SYN is out, with a stream without error, an acknowledged number not above the next
-- one, the next one below 2 ^ 63 and a 16-bit window: the segments that fill_window sends follow
-- in sequence on what was sent before, go to the outbound queue and to the queue for
-- retransmission, carry the bytes of the stream in order, at most 1000 each, and fit the window
-- (which counts as 1 when closed) beside what is in flight; it stops only when that room is used
-- up, the FIN is out or the stream is empty; and no more is then in flight than the window, or
-- than before.
pub fill_window-Sent :
    {s : TcpSender}
    → s.syn_sent ≡ true
    → s.stream.error ≡ false
    → s.abs_ackno ≤ s.next_seqno
    → s.next_seqno < 2 ^ 63
    → s.window_size < 2 ^ 16
    → let t = fill_window s in
      ((segs : List TcpSegment) × Sent s (window_room s) t segs)
      × (t.next_seqno - t.abs_ackno ≤ max (s.next_seqno - s.abs_ackno) (max s.window_size 1))
fill_window-Sent {s} syn live h k w =
    let room = fill_size-room s h k w in
    let (segs, v) = fill_loop-Sent (fill_size s + 1) s (fill_size s) (omega arith) (record {
      live = live;
      syn = syn;
      small = omega (arith, room);
      fill_small = omega (arith, room);
    }) in
    let same : fill_window s ≡ fill_loop (fill_size s + 1) s (fill_size s) =
      unfold fill_window in ground arith in
    rw same (
      (segs, subst (λ f. Sent s f (fill_loop (fill_size s + 1) s (fill_size s)) segs) room v),
      omega (arith, room, v.room, v.abs_ackno),
    )
