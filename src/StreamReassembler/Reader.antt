-- ===== src/StreamReassembler/Reader.antt =====
-- The reader's side: what comes out of a reassembler over a whole history of arrivals and reads.
use sponge.Prelude.{
  ℕ, ◌+◌, ◌-◌, ◌^◌, ◌≤◌, ◌<◌, ◌≡◌, refl, ap, ◌∙◌, sym, Bool, false, List, [], ◌∷◌, ◌++◌, Bytes,
  length, take, drop, arith, inl, inr, length-take, length-drop, length-append, subst,
}
use native.Mathlib.Nat.{add-zero}
use sponge.ByteStream
use sponge.ByteStream.{new_len}
use sponge.StreamReassembler.{StreamReassembler, new, push_substring, read}
use sponge.StreamReassembler.Substrings.{Substring, All}
use sponge.StreamReassembler.Stream.{slice, take-slice, drop-slice, slice-join}
use sponge.StreamReassembler.Invariant.{Fits, Inv}
use sponge.StreamReassembler.Receive.{Consistent}
use sponge.StreamReassembler.Reassembly.{push_substring-Inv, bytes_read-push_substring}

-- What happens to a reassembler.
pub data Event : Type 0 where
  arrives : Bytes → ℕ → Bool → Event
  takes : ℕ → Event

-- The state after an event, and what its reader got.
unfoldable pub handle : StreamReassembler → Event → StreamReassembler × Bytes
handle r (arrives text index eof) = (push_substring r text index eof, [])
handle r (takes n) = read r n

unfoldable pub run : StreamReassembler → List Event → StreamReassembler × Bytes
run r [] = (r, [])
run r (e ∷ es) = let (t, text) = handle r e in let (u, more) = run t es in (u, text ++ more)

read_live :
    (r : StreamReassembler) (n : ℕ)
    → r.output.error ≡ false
    → read r n
      ≡ (record r { output = ByteStream.pop_output r.output n }, ByteStream.peek_output r.output n)
unfolding read ByteStream.read
read_live r n h = ground arith

module _ (peer : ℕ → ℕ) (size : ℕ) where
  -- Every arrival is a substring of the stream that starts inside the window of its time.
  abbrev pub EventConsistent : StreamReassembler → Event → Type 0
  EventConsistent r (arrives text index eof) = Consistent peer size r text index eof
  EventConsistent r (takes n) = Unit

  abbrev pub AllConsistent : StreamReassembler → List Event → Type 0
  AllConsistent r [] = Unit
  AllConsistent r (e ∷ es) = EventConsistent r e × AllConsistent (handle r e).0 es

  -- The state `t` follows on `r`, and the text is what lies between them in the stream.
  abbrev pub Follows : StreamReassembler → StreamReassembler × Bytes → Type 0
  Follows r (t, text) =
      Inv peer size t
      × (text ≡ slice peer r.output.bytes_read (length text))
      × (t.output.bytes_read ≡ r.output.bytes_read + length text)

  Fits-mono :
      {b b' : ℕ} (es : List Substring)
      → b ≤ b'
      → All (Fits peer size b) es
      → All (Fits peer size b') es
  Fits-mono [] h f = tt
  Fits-mono (e ∷ es) h f = (
    record { exact = f.0.exact; inside = omega (arith, f.0.inside); in_stream = f.0.in_stream },
    Fits-mono es h f.1,
  )

  -- Cutting the buffer in two cuts the stream in two.
  cut_buffer :
      (buf : Bytes) (b k : ℕ)
      → buf ≡ slice peer b (length buf)
      → k ≤ length buf
      → (take k buf ≡ slice peer b (length (take k buf)))
        × (drop k buf ≡ slice peer (b + k) (length (drop k buf)))
        × (length (take k buf) ≡ k)
        × (length (drop k buf) ≡ length buf - k)
  cut_buffer buf b k e h = (
    front ∙ ap (slice peer b) (sym front_len),
    back ∙ ap (slice peer (b + k)) (sym (length-drop k buf)),
    front_len,
    length-drop k buf,
  )
    where
      front_len : length (take k buf) ≡ k
      front_len = omega (arith, length-take k buf)

      front : take k buf ≡ slice peer b k
      front = ap (take k) e ∙ take-slice peer k b (length buf) ∙ ap (slice peer b) (omega arith)

      back : drop k buf ≡ slice peer (b + k) (length buf - k)
      back = ap (drop k) e ∙ drop-slice peer k b (length buf)

  pop-Follows :
      {r : StreamReassembler}
      → Inv peer size r
      → (n k : ℕ) → new_len r.output n ≡ k
      → k ≤ length r.output.buffer
      → Follows r (
        record r { output = ByteStream.pop_output r.output n },
        ByteStream.peek_output r.output n,
      )
  unfolding ByteStream.pop_output ByteStream.peek_output
  pop-Follows {r} v n k e h =
      let (a, b, c, d) = cut_buffer r.output.buffer r.output.bytes_read k v.core.held h in
      rw e (
        record {
          core = ground (arith, v.core, a, b, c, d);
          noticed = v.noticed;
          waiting = Fits-mono r.mapbuffer (omega (arith, v.core)) v.waiting;
        },
        a,
        omega (arith, c, v.core),
      )

  handle-Follows :
      (r : StreamReassembler) (e : Event)
      → Inv peer size r
      → EventConsistent r e
      → Follows r (handle r e)
  unfolding handle
  handle-Follows r (arrives text index eof) v c = (
    push_substring-Inv peer size v c,
    refl,
    bytes_read-push_substring peer size v c ∙ sym (add-zero r.output.bytes_read),
  )
  handle-Follows r (takes n) v c =
      subst (Follows r) (sym (read_live r n v.core.live))
        (pop-Follows v n (new_len r.output n) refl (ground arith))

  -- For a reassembler that satisfies its invariant, fed with any sequence of substrings of the
  -- peer's stream, each of which starts inside the window when it arrives, and read from in
  -- between by any amounts: all that the reader gets is the stream, byte by byte from where the
  -- reader stood, with nothing lost, repeated or out of order, and the invariant still holds.
  pub run_reads :
      (es : List Event) {r : StreamReassembler}
      → Inv peer size r
      → AllConsistent r es
      → Follows r (run r es)
  unfolding run
  run_reads [] v c = (v, refl, omega arith)
  run_reads (e ∷ es) {r} v c =
      let (w, t, b) = handle-Follows r e v c.0 in
      let (w', t', b') = run_reads es w c.1 in
      (
        w',
        slice-join peer _ _ _ _ t t' (sym b),
        omega (arith, length-append (handle r e).1 (run (handle r e).0 es).1),
      )

  -- A new reassembler is in such a state.
  pub new-Inv : (cap : ℕ) → cap < 2 ^ 62 → size < 2 ^ 62 → Inv peer size (new cap)
  unfolding new ByteStream.new
  new-Inv cap h k = record { core = ground arith; noticed = inr (inl refl); waiting = tt }
