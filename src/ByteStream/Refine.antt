-- ===== src/ByteStream/Refine.antt =====
-- The detailed `ByteStream` refines the bounded pipe: the callers cannot tell them apart.
use sponge.Prelude.{
  ℕ, ◌%◌, ◌^◌, ◌≤◌, ◌<◌, ◌≡◌, refl, ap, ◌∙◌, sym, false, List, [], ◌∷◌, ◌++◌, Bytes, length, take,
  drop, min, ltb, arith, length-append, length-take, Bool-cases, inl, inr, length-drop, drop-append,
  drop-drop, take_all, take-min, append-nil, ap₂, subst,
}
use sponge.ByteStream.{
  ByteStream, new, write, write_bytes, read, peek_output, pop_output, end_input, set_error,
  remaining_capacity, new_len, Call, writes, reads, peeks, pops, ends, fails, Reply, count, text,
  done,
}
use sponge.ByteStream.Pipe
use sponge.ByteStream.Pipe.{Pipe, pending, room}

-- The stream that serves a call, and the reply.
unfoldable pub serve : ByteStream → Call → ByteStream × Reply
serve s (writes xs) = let (t, n) = write s xs in (t, count n)
serve s (reads n) = let (t, xs) = read s n in (t, text xs)
serve s (peeks n) = (s, text (peek_output s n))
serve s (pops n) = (pop_output s n, done)
serve s ends = (end_input s, done)
serve s fails = (set_error s, done)

unfoldable pub run : ByteStream → List Call → ByteStream × List Reply
run s [] = (s, [])
run s (c ∷ cs) = let (t, r) = serve s c in let (t', rs) = run t cs in (t', r ∷ rs)

-- The stream `s` holds what is pending in the pipe `p`, and its counters are the pipe's, modulo
-- 2 ^ 64.
pub record Represents (p : Pipe) (s : ByteStream) : Type 0 where
  pub held : s.buffer ≡ pending p
  pub fits : length s.buffer ≤ s.capacity
  pub small : s.capacity < 2 ^ 64
  pub taken_le : p.taken ≤ length p.accepted
  pub written : s.bytes_written ≡ length p.accepted % 2 ^ 64
  pub read_off : s.bytes_read ≡ p.taken % 2 ^ 64
  pub same_end : s.input_end ≡ p.ended
  pub same_error : s.error ≡ p.failed

write-room : {p : Pipe} {s : ByteStream} → Represents p s → remaining_capacity s ≡ room s.capacity p
write-room {p} {s} v = omega (arith, ap length v.held, length-drop p.taken p.accepted)

write_bytes_lem :
    {p : Pipe} {s : ByteStream} (xs : Bytes)
    → Represents p s
    → write_bytes s xs ≡ min (room s.capacity p) (length xs)
unfolding write_bytes
write_bytes_lem {p} {s} xs v = ground (arith, write-room v)

-- The new text in the buffer is the new text of the pipe.
pending-append :
    (p : Pipe) (n : ℕ) (xs : Bytes)
    → p.taken ≤ length p.accepted
    → pending p ++ take (min n (length xs)) xs ≡ drop p.taken (p.accepted ++ take n xs)
pending-append p n xs h = rw take-min (sym (drop-append p.taken p.accepted (take n xs) h))

write-Represents :
    {p : Pipe} {s : ByteStream} (xs : Bytes)
    → Represents p s
    → let (t, n) = write s xs in
      let (q, r) = Pipe.step s.capacity p (writes xs) in Represents q t × (count n ≡ r)
unfolding write Pipe.step
write-Represents {p} {s} xs v = ground (
  arith,
  write-room v,
  write_bytes_lem xs v,
  pending-append p (room s.capacity p) xs,
  length-append p.accepted (take (room s.capacity p) xs),
  length-append s.buffer (take (write_bytes s xs) xs),
  length-take (room s.capacity p) xs,
  length-take (write_bytes s xs) xs,
  append-nil p.accepted,
)

pops-Represents :
    {p : Pipe} {s : ByteStream} (n : ℕ)
    → Represents p s
    → Represents (Pipe.step s.capacity p (pops n)).0 (pop_output s n)
unfolding pop_output Pipe.step
pops-Represents {p} {s} n v = ground (
  arith,
  length-drop p.taken p.accepted,
  length-drop (new_len s n) s.buffer,
  drop-drop p.taken (new_len s n) p.accepted,
)

-- The bytes that `peek_output` copies are the next ones of the pipe.
peek_output-pending :
    {p : Pipe} {s : ByteStream} (n : ℕ) → Represents p s → peek_output s n ≡ take n (pending p)
unfolding peek_output
peek_output-pending {p} {s} n v = elim (Bool-cases (ltb (length s.buffer) n)) [
  | inl long ↦
      rw (long, ← v.held)
        (take_all _ s.buffer (omega arith) ∙ sym (take_all n s.buffer (ground arith)))
  | inr fit ↦ rw (fit, ← v.held)
]

reads-Represents :
    {p : Pipe} {s : ByteStream} (n : ℕ)
    → Represents p s
    → let (t, xs) = read s n in
      let (q, r) = Pipe.step s.capacity p (reads n) in Represents q t × (text xs ≡ r)
unfolding read Pipe.step
reads-Represents {p} {s} n v = ground (arith, peek_output-pending n v, pops-Represents n v)

serve-Represents :
    {p : Pipe} {s : ByteStream} (c : Call)
    → Represents p s
    → let (t, r) = serve s c in let (q, r') = Pipe.step s.capacity p c in Represents q t × (r ≡ r')
unfolding serve Pipe.step end_input set_error
serve-Represents (writes xs) v = write-Represents xs v
serve-Represents (reads n) v = reads-Represents n v
serve-Represents (peeks n) v = (v, ap text (peek_output-pending n v))
serve-Represents (pops n) v = (pops-Represents n v, refl)
serve-Represents ends v = (ground arith, refl)
serve-Represents fails v = (ground arith, refl)

capacity-serve : (s : ByteStream) (c : Call) → (serve s c).0.capacity ≡ s.capacity
unfolding serve write read pop_output end_input set_error
capacity-serve s (writes xs) = ground arith
capacity-serve s (reads n) = ground arith
capacity-serve s (peeks n) = refl
capacity-serve s (pops n) = refl
capacity-serve s ends = refl
capacity-serve s fails = refl

-- A byte stream that represents a pipe gives to any sequence of writes, reads, peeks, pops, ends
-- and errors the replies of that pipe, and represents the pipe that is left: what is read is what
-- was written, in order and without loss, and no write takes the stream over its capacity.
pub run_refines :
    (cs : List Call) {p : Pipe} {s : ByteStream}
    → Represents p s
    → let (t, rs) = run s cs in
      let (q, rs') = Pipe.run s.capacity p cs in Represents q t × (rs ≡ rs')
unfolding run Pipe.run
run_refines [] v = (v, refl)
run_refines (c ∷ cs) {p} {s} v =
    let (w, e) = serve-Represents c v in
    let (w', e') =
      subst
        (λ k.
          let (t, rs) = run (serve s c).0 cs in
          let (q, rs') = Pipe.run k (Pipe.step s.capacity p c).0 cs in Represents q t × (rs ≡ rs'))
        (capacity-serve s c) (run_refines cs w) in
    (w', ap₂ ◌∷◌ e e')

-- A new stream stands for the empty pipe.
pub new-Represents :
    (cap : ℕ)
    → cap < 2 ^ 64
    → Represents (record { accepted = []; taken = 0; ended = false; failed = false }) (new cap)
unfolding new
new-Represents cap h = ground arith
