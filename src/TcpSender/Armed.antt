-- ===== src/TcpSender/Armed.antt =====
-- The timer runs exactly while segments are outstanding, after any calls; so `tick` always finds the
-- segment that it retransmits.
use sponge.Prelude.{
  ℕ, zero, suc, ◌+◌, ◌≤◌, ◌<◌, ◌≡◌, refl, ◌∙◌, Bool, true, false, ◌&&◌, not, List, [], ◌∷◌, Option,
  none, some, Bytes, length, ltb, ◌==◌, arith, Bool-cases, inl, inr, ◌⊎◌, length-append, sub64, u16,
}
use sponge.WrappingInt32.{WrappingInt32}
use sponge.ByteStream
use sponge.TcpSegment.{TcpSegment, length_in_sequence_space}
use sponge.Timer
use sponge.TcpSender.{
  TcpSender, new, make_segment, transmit, send_syn, fill_size, next_segment, send_segment,
  fill_loop, fill_window, pop_acked, note_ackno, reset_timer, ack_received, back_off, retransmit,
  tick, send_empty_segment,
}

pub record IsArmed (s : TcpSender) : Type 0 where
  pub pending : s.timer.expired ≡ false
  pub armed : s.timer.active ≡ not (length s.segments_backup == 0)

pub new-IsArmed :
    (cap timeout : ℕ) (isn : Option WrappingInt32) (random : WrappingInt32)
    → IsArmed (new cap timeout isn random)
unfolding new Timer.new
new-IsArmed cap timeout isn random = ground arith

transmit-IsArmed : {s : TcpSender} (seg : TcpSegment) → IsArmed s → IsArmed (transmit s seg)
unfolding transmit Timer.start_timer
transmit-IsArmed {s} seg v = ground (arith, v, length-append s.segments_backup (seg ∷ []))

send_segment-IsArmed : {s : TcpSender} (seg : TcpSegment) → IsArmed s → IsArmed (send_segment s seg)
unfolding send_segment
send_segment-IsArmed {s} seg v = elim (Bool-cases seg.header.fin) [
  | inl f ↦ simp f (transmit-IsArmed seg (ground (arith, v)))
  | inr f ↦ simp f (transmit-IsArmed seg v)
]

next_segment-IsArmed : {s : TcpSender} (fill : ℕ) → IsArmed s → IsArmed (next_segment s fill).0
unfolding next_segment
next_segment-IsArmed fill v = ground (arith, v)

fill_loop-IsArmed :
    (fuel : ℕ) (s : TcpSender) (fill : ℕ) → IsArmed s → IsArmed (fill_loop fuel s fill)
unfolding fill_loop
fill_loop-IsArmed zero s fill v = v
fill_loop-IsArmed (suc fuel) s fill v =
    let s' = (next_segment s fill).0 in
    let seg = (next_segment s fill).1 in
    let w = next_segment-IsArmed fill v in
    elim (Bool-cases (ltb 0 fill && not s.fin_sent && s.syn_sent)) [
      | inr stop ↦ rw (stop, fill_loop) v
      | inl go ↦ elim (Bool-cases (length_in_sequence_space seg == 0)) [
        | inl idle ↦ rw (go, idle, fill_loop) w
        | inr busy ↦
            rw (go, busy, fill_loop)
              (fill_loop-IsArmed fuel (send_segment s' seg)
                (u16 (sub64 fill (length_in_sequence_space seg))) (send_segment-IsArmed seg w))
      ]
    ]

send_syn-IsArmed : {s : TcpSender} → IsArmed s → IsArmed (send_syn s)
unfolding send_syn
send_syn-IsArmed {s} v =
    let w = transmit-IsArmed (make_segment s s.next_seqno true false []) v in
    record { pending = w.pending; armed = w.armed }

pub fill_window-IsArmed : {s : TcpSender} → IsArmed s → IsArmed (fill_window s)
unfolding fill_window
fill_window-IsArmed {s} v = elim (Bool-cases s.syn_sent) [
  | inl syn ↦ simp syn (fill_loop-IsArmed (fill_size s + 1) s (fill_size s) v)
  | inr syn ↦ simp syn (send_syn-IsArmed v)
]

-- What is taken off the queue was there before.
pop_acked-shorter :
    (s : TcpSender) (segs : List TcpSegment) → length (pop_acked s segs).0 ≤ length segs
unfolding pop_acked
pop_acked-shorter s [] = omega arith
pop_acked-shorter s (seg ∷ segs) = ground (arith, pop_acked-shorter s segs)

reset_timer-IsArmed :
    (s : TcpSender) (popped : Bool)
    → s.timer.expired ≡ false
    → (length s.segments_backup ≡ 0) ⊎ (s.timer.active ≡ true)
    → IsArmed (reset_timer s popped)
unfolding reset_timer Timer.start_timer Timer.stop_timer
reset_timer-IsArmed s popped h k = ground arith

pub ack_received-IsArmed :
    {s : TcpSender} (ackno : WrappingInt32) (window : ℕ)
    → IsArmed s
    → IsArmed (ack_received s ackno window)
unfolding ack_received note_ackno
ack_received-IsArmed {s} ackno window v =
    let s1 = record (note_ackno s ackno) { window_size = window } in
    reset_timer-IsArmed (record s1 { segments_backup = (pop_acked s1 s1.segments_backup).0 })
      (pop_acked s1 s1.segments_backup).1 (ground (arith, v))
      (ground (arith, v, pop_acked-shorter s1 s1.segments_backup))

pub send_empty_segment-IsArmed :
    {s : TcpSender} (rst : Bool) → IsArmed s → IsArmed (send_empty_segment s rst)
unfolding send_empty_segment
send_empty_segment-IsArmed rst v = ground (arith, v)

tick-runs :
    (t : Timer.Timer) (ms : ℕ)
    → t.expired ≡ false
    → ((Timer.tick t ms).active ≡ t.active)
      × (((Timer.tick t ms).expired ≡ false) ⊎ (t.active ≡ true))
unfolding Timer.tick
tick-runs t ms h = ground arith

retransmit-IsArmed :
    (s : TcpSender) (seg : TcpSegment) → 0 < length s.segments_backup → IsArmed (retransmit s seg)
unfolding retransmit back_off Timer.start_timer
retransmit-IsArmed s seg h = ground arith

expired-retransmit :
    (s : TcpSender) (ms : ℕ) (backup : List TcpSegment)
    → (Timer.tick s.timer ms).expired ≡ true
    → s.segments_backup ≡ backup
    → 0 < length backup
    → (t : TcpSender) × (tick s ms ≡ some t) × IsArmed t
unfolding tick
expired-retransmit s ms [] late e h = absurd (omega arith)
expired-retransmit s ms (seg ∷ rest) late e h = (
  retransmit (record s { timer = Timer.tick s.timer ms }) seg,
  ground arith,
  retransmit-IsArmed _ seg (ground arith),
)

-- `tick` has a defined result: where the timer runs out, there is a segment to retransmit. And it
-- leaves the timer running exactly if a segment is outstanding.
pub tick_defined :
    {s : TcpSender} (ms : ℕ) → IsArmed s → (t : TcpSender) × (tick s ms ≡ some t) × IsArmed t
tick_defined {s} ms v =
    let (same, cause) = tick-runs s.timer ms v.pending in
    elim (Bool-cases (Timer.tick s.timer ms).expired) [
      | inl late ↦ expired-retransmit s ms s.segments_backup late refl (ground (arith, v, cause))
      | inr early ↦ (
        record s { timer = Timer.tick s.timer ms },
        unfold tick in ground arith,
        record { pending = early; armed = same ∙ v.armed },
      )
    ]

-- The calls that a connection makes of its sender and of the sender's stream.
pub data Call : Type 0 where
  writes : Bytes → Call
  ends : Call
  fills : Call
  acks : WrappingInt32 → ℕ → Call
  ticks : ℕ → Call
  empties : Bool → Call

unfoldable pub serve : TcpSender → Call → Option TcpSender
serve s (writes text) = some (record s { stream = (ByteStream.write s.stream text).0 })
serve s ends = some (record s { stream = ByteStream.end_input s.stream })
serve s fills = some (fill_window s)
serve s (acks ackno window) = some (ack_received s ackno window)
serve s (ticks ms) = tick s ms
serve s (empties rst) = some (send_empty_segment s rst)

unfoldable pub run : TcpSender → List Call → Option TcpSender
run s [] = some s
run s (c ∷ cs) = elim (serve s c) [ none ↦ none | some t ↦ run t cs ]

serve_defined :
    {s : TcpSender} (c : Call) → IsArmed s → (t : TcpSender) × (serve s c ≡ some t) × IsArmed t
unfolding serve
serve_defined {s} (writes text) v = (
  record s { stream = (ByteStream.write s.stream text).0 },
  refl,
  record { pending = v.pending; armed = v.armed },
)
serve_defined {s} ends v = (
  record s { stream = ByteStream.end_input s.stream },
  refl,
  record { pending = v.pending; armed = v.armed },
)
serve_defined {s} fills v = (fill_window s, refl, fill_window-IsArmed v)
serve_defined {s} (acks ackno window) v =
    (ack_received s ackno window, refl, ack_received-IsArmed ackno window v)
serve_defined (ticks ms) v = tick_defined ms v
serve_defined {s} (empties rst) v =
    (send_empty_segment s rst, refl, send_empty_segment-IsArmed rst v)

run-IsArmed :
    (cs : List Call) {s : TcpSender} → IsArmed s → (t : TcpSender) × (run s cs ≡ some t) × IsArmed t
unfolding run
run-IsArmed [] {s} v = (s, refl, v)
run-IsArmed (c ∷ cs) {s} v =
    let (t, e, w) = serve_defined c v in
    let (u, e', w') = run-IsArmed cs w in (u, rw (e, run) e', w')

-- For any capacity, timeout, initial number and sequence of calls, a new sender never asks an
-- empty queue for its front; and afterwards the timer runs, not expired, if and only if there are
-- segments sent and not yet acknowledged.
pub calls_defined :
    (cap timeout : ℕ) (isn : Option WrappingInt32) (random : WrappingInt32) (cs : List Call)
    → (t : TcpSender) × (run (new cap timeout isn random) cs ≡ some t) × IsArmed t
calls_defined cap timeout isn random cs = run-IsArmed cs (new-IsArmed cap timeout isn random)
