-- ===== src/TcpSender/Ack.antt =====
-- What an acknowledgment takes off the queue of outstanding segments.
use sponge.Prelude.{
  ℕ, ◌+◌, ◌/◌, ◌^◌, ◌≤◌, ◌<◌, ◌≡◌, ◌≢◌, refl, ap, ◌∙◌, Bool, false, List, [], ◌∷◌, ◌++◌, leb, ltb,
  arith, if◌then◌else◌, Bool-cases, inl, inr, ◌⊎◌, add64, ◌&&◌,
}
use sponge.WrappingInt32.{WrappingInt32, wrap, unwrap}
use sponge.WrappingInt32.RoundTrip.{IsWord}
use sponge.WrappingInt32.Closest.{gap, unwrap-wrap, unwrap_skips_first_turn}
use sponge.TcpSegment.{TcpSegment, length_in_sequence_space}
use sponge.TcpSender.{TcpSender, check_seg_acked, pop_acked, note_ackno, reset_timer, ack_received}
use sponge.TcpSender.Chain.{Chain, Chain-le}

-- The first segment is not acknowledged whole.
abbrev pub Unacked : ℕ → ℕ → List TcpSegment → Type 0
Unacked ack lo [] = Unit
Unacked ack lo (seg ∷ segs) = ack < lo + length_in_sequence_space seg

-- The outstanding segments follow one another from `lo` up to the next number, and are those that
-- the acknowledged number has not passed.
pub record Outstanding (s : TcpSender) (lo : ℕ) : Type 0 where
  pub chain : Chain s.isn lo s.segments_backup s.next_seqno
  pub lo_le : lo ≤ s.abs_ackno
  pub ack_le : s.abs_ackno ≤ s.next_seqno
  pub unacked : Unacked s.abs_ackno lo s.segments_backup
  pub word : IsWord s.isn

-- The numbers around the acknowledged one are near enough for `unwrap`, and off its blind spot.
pub record Near (lo ack next : ℕ) : Type 0 where
  pub close : next < lo + 2 ^ 31
  pub small : next < 2 ^ 62
  pub seen : (ack / 2 ^ 32 ≢ 1) ⊎ (2 ^ 32 ≤ lo)

check_seg_acked_lem :
    (s : TcpSender) (seg : TcpSegment) (lo next : ℕ)
    → IsWord s.isn
    → seg.header.seqno ≡ wrap lo s.isn
    → lo ≤ s.abs_ackno
    → s.abs_ackno ≤ next
    → lo + length_in_sequence_space seg ≤ next
    → Near lo s.abs_ackno next
    → check_seg_acked s seg ≡ leb (lo + length_in_sequence_space seg) s.abs_ackno
unfolding check_seg_acked
check_seg_acked_lem s seg lo next w e h k fit near =
    let back : unwrap seg.header.seqno s.isn s.abs_ackno ≡ lo =
      ap (λ n. unwrap n s.isn s.abs_ackno) e
      ∙ unwrap-wrap lo s.isn s.abs_ackno (omega (arith, near)) w (omega (arith, near)) near.seen
          (omega (arith, near)) in
    ap (λ n. leb n s.abs_ackno)
      (ap (λ n. add64 n (length_in_sequence_space seg)) back ∙ omega (arith, near))

-- What is left when the acknowledged segments are off the queue.
record Popped (s : TcpSender) (segs : List TcpSegment) (lo next : ℕ) (left : List TcpSegment)
    (popped : Bool) : Type 0 where
  start : ℕ
  gone : List TcpSegment
  split : segs ≡ gone ++ left
  passed : Chain s.isn lo gone start
  chain : Chain s.isn start left next
  from : lo ≤ start
  upto : start ≤ s.abs_ackno
  unacked : Unacked s.abs_ackno start left
  moved : popped ≡ ltb lo start

pop_acked-Popped :
    (s : TcpSender) (segs : List TcpSegment) (lo next : ℕ)
    → IsWord s.isn
    → Chain s.isn lo segs next
    → lo ≤ s.abs_ackno
    → s.abs_ackno ≤ next
    → Near lo s.abs_ackno next
    → let (left, popped) = pop_acked s segs in Popped s segs lo next left popped
unfolding pop_acked
pop_acked-Popped s [] lo next w c h k near = record {
  start = lo;
  gone = [];
  split = refl;
  passed = refl;
  chain = c;
  from = omega arith;
  upto = h;
  unacked = tt;
  moved = ground arith;
}
pop_acked-Popped s (seg ∷ segs) lo next w c h k near =
    let after = lo + length_in_sequence_space seg in
    let fit = Chain-le s.isn segs after next c.2 in
    let test = check_seg_acked_lem s seg lo next w c.0 h k fit near in
    elim (Bool-cases (leb after s.abs_ackno)) [
      | inl acked ↦
          let p = pop_acked-Popped s segs after next w c.2 (ground arith) k (record {
            close = omega (arith, near);
            small = near.small;
            seen = ground (arith, near.seen);
          }) in
          rw (test ∙ acked) (record {
            start = p.start;
            gone = seg ∷ p.gone;
            split = ap (◌∷◌ seg) p.split;
            passed = (c.0, c.1, p.passed);
            chain = p.chain;
            from = omega (arith, p.from);
            upto = p.upto;
            unacked = p.unacked;
            moved = ground (arith, p.from, c.1);
          })
      | inr kept ↦ rw (test ∙ kept) (record {
        start = lo;
        gone = [];
        split = refl;
        passed = refl;
        chain = c;
        from = omega arith;
        upto = h;
        unacked = ground arith;
        moved = ground arith;
      })
    ]

-- The acknowledged number after an acknowledgment of `abs`: one that is behind or not yet sent is
-- ignored.
abbrev pub newest : TcpSender → ℕ → ℕ
newest s abs = if ltb s.abs_ackno abs && leb abs s.next_seqno then abs else s.abs_ackno

-- An acknowledgment whose sequence number stands for `abs`.
pub record Acknowledges (s : TcpSender) (ackno : WrappingInt32) (abs : ℕ) : Type 0 where
  pub numbered : ackno ≡ wrap abs s.isn
  pub small : abs < 2 ^ 62
  pub near : gap abs s.abs_ackno < 2 ^ 31
  pub seen : (s.abs_ackno / 2 ^ 32 ≢ 1) ⊎ (2 ^ 32 ≤ abs)

note_ackno-newest :
    {s : TcpSender} {ackno : WrappingInt32} {abs : ℕ}
    → IsWord s.isn
    → s.abs_ackno < 2 ^ 62
    → Acknowledges s ackno abs
    → note_ackno s ackno ≡ record s { abs_ackno = newest s abs }
unfolding note_ackno
note_ackno-newest {s} {ackno} {abs} w h a =
    let back : unwrap ackno s.isn s.abs_ackno ≡ abs =
      ap (λ n. unwrap n s.isn s.abs_ackno) a.numbered
      ∙ unwrap-wrap abs s.isn s.abs_ackno (omega (arith, a)) w (omega arith) a.seen a.near in
    ground (arith, back)

-- The segments that an acknowledgment has taken off the front of the queue: they are those from
-- `lo` up to `start`, unchanged, and so are those that are left, from `start` on.
pub record Acked (s : TcpSender) (lo : ℕ) (t : TcpSender) : Type 0 where
  pub start : ℕ
  pub gone : List TcpSegment
  pub split : s.segments_backup ≡ gone ++ t.segments_backup
  pub passed : Chain s.isn lo gone start
  pub left : Outstanding t start

-- When the queue for retransmission holds the segments from the number lo up to the next one, and
-- the numbers around an acknowledgment are within 2 ^ 31 and outside the blind spot of unwrap:
-- after ack_received the acknowledged number is that of the acknowledgment if it is new and was
-- sent, and the old one otherwise; the queue is what it was without a first part of it, the
-- segments up to a number that the acknowledged one has reached, and those that are left,
-- unchanged, go on from there to the next number, the first of them not acknowledged whole; the
-- window is the peer's; and the back-off is undone.
pub ack_received-Outstanding :
    {s : TcpSender} {ackno : WrappingInt32} {lo abs : ℕ} (window : ℕ)
    → Outstanding s lo
    → Acknowledges s ackno abs
    → Near lo (newest s abs) s.next_seqno
    → let t = ack_received s ackno window in
      Acked s lo t
      × (t.abs_ackno ≡ newest s abs)
      × (t.next_seqno ≡ s.next_seqno)
      × (t.window_size ≡ window)
      × (t.consecutive_retransmissions ≡ 0)
      × (t.retransmission_timeout ≡ s.initial_retransmission_timeout)
unfolding ack_received reset_timer
ack_received-Outstanding {s} {ackno} {lo} {abs} window v a near =
    rw (note_ackno-newest v.word (omega (arith, v.ack_le, near)) a) (
      let p =
        pop_acked-Popped (record s { abs_ackno = newest s abs; window_size = window })
          s.segments_backup lo s.next_seqno v.word v.chain (ground (arith, v.lo_le))
          (ground (arith, v.ack_le)) near in
      (
        record {
          start = p.start;
          gone = p.gone;
          split = p.split;
          passed = p.passed;
          left = record {
            chain = p.chain;
            lo_le = p.upto;
            ack_le = ground (arith, v.ack_le);
            unacked = p.unacked;
            word = v.word;
          };
        },
        refl,
        refl,
        refl,
        refl,
        refl,
      ))

-- A segment of less than 2 ^ 31 numbers from a number lo below 2 ^ 32 is seen as not acknowledged
-- whenever the acknowledged number is 2 ^ 32 or more and below lo + 2 ^ 31, though the peer may
-- have acknowledged all of it.
pub check_seg_acked-stuck :
    (s : TcpSender) (seg : TcpSegment) (lo : ℕ)
    → IsWord s.isn
    → seg.header.seqno ≡ wrap lo s.isn
    → lo < 2 ^ 32
    → 2 ^ 32 ≤ s.abs_ackno
    → s.abs_ackno < lo + 2 ^ 31
    → length_in_sequence_space seg < 2 ^ 31
    → check_seg_acked s seg ≡ false
unfolding check_seg_acked
check_seg_acked-stuck s seg lo w e h k near short =
    let back : unwrap seg.header.seqno s.isn s.abs_ackno ≡ lo + 2 ^ 32 =
      ap (λ n. unwrap n s.isn s.abs_ackno) e
      ∙ unwrap_skips_first_turn lo s.isn s.abs_ackno w (omega arith) h (omega arith) in
    rw back (ground arith)
