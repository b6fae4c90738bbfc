-- ===== src/StreamReassembler/Invariant.antt =====
-- The reassembler, fed with substrings of one stream that start inside its window, keeps its output
-- a prefix of that stream.
use sponge.Prelude.{
  ℕ, ◌+◌, ◌^◌, ◌≤◌, ◌<◌, ◌≡◌, ◌≢◌, ap, ◌∙◌, sym, true, false, ◌++◌, Bytes, length, ◌==◌, arith,
  add64, sub64, ◌⊎◌, inl, inr, Bool-cases, ap₂, length-append,
}
use sponge.ByteStream
use sponge.ByteStream.{ByteStream}
use sponge.ByteStream.Write.{Wrote, write-Wrote}
use sponge.StreamReassembler.{StreamReassembler, new, emit, check_end}
use sponge.StreamReassembler.Substrings.{Substring, All}
use sponge.StreamReassembler.Stream.{slice, slice-join}

-- The first index behind the window: what was read, and the capacity.
abbrev pub edge : StreamReassembler → ℕ
edge r = r.output.bytes_read + r.output.capacity

-- `peer` is the stream, a byte at each index, and `size` the number of its bytes.
module _ (peer : ℕ → ℕ) (size : ℕ) where
  -- A part of the stream that ends in front of the bound.
  pub record Fits (bound : ℕ) (e : Substring) : Type 0 where
    pub exact : e.bytes ≡ slice peer e.index (length e.bytes)
    pub inside : e.index + length e.bytes ≤ bound
    pub in_stream : e.index + length e.bytes ≤ size

  pub record Core (r : StreamReassembler) : Type 0 where
    pub size_small : size < 2 ^ 62
    pub cap_small : r.output.capacity < 2 ^ 62
    pub held : r.output.buffer ≡ slice peer r.output.bytes_read (length r.output.buffer)
    pub fits : length r.output.buffer ≤ r.output.capacity
    pub counted : r.output.bytes_read + length r.output.buffer ≡ r.first_unassembled
    pub written : r.output.bytes_written ≡ r.first_unassembled
    pub live : r.output.error ≡ false
    pub in_stream : r.first_unassembled ≤ size
    pub eof_idx : (r.has_eof ≡ false) ⊎ (r.final_idx ≡ sub64 size 1)
    pub ended : (r.output.input_end ≡ false) ⊎ (r.first_unassembled ≡ size)

  -- The end of the input is signalled as soon as the last byte is written.
  abbrev pub EndNoticed : StreamReassembler → Type 0
  EndNoticed r = (r.output.input_end ≡ true) ⊎ (r.has_eof ≡ false) ⊎ (r.first_unassembled ≢ size)

  pub record Inv (r : StreamReassembler) : Type 0 where
    pub core : Core r
    pub noticed : EndNoticed r
    pub waiting : All (Fits (edge r)) r.mapbuffer

  -- What a step on the output leaves alone.
  pub record Kept (r t : StreamReassembler) : Type 0 where
    pub bytes_read : t.output.bytes_read ≡ r.output.bytes_read
    pub cap : t.output.capacity ≡ r.output.capacity
    pub mapbuffer : t.mapbuffer ≡ r.mapbuffer
    pub has_eof : t.has_eof ≡ r.has_eof

  pub check_end-Core :
      {r : StreamReassembler}
      → Core r
      → Core (check_end r)
        × EndNoticed (check_end r)
        × Kept r (check_end r)
        × ((check_end r).first_unassembled ≡ r.first_unassembled)
  unfolding check_end ByteStream.end_input
  check_end-Core {r} v = elim (Bool-cases r.has_eof) [
    | inl eof ↦ elim (Bool-cases (r.first_unassembled == add64 r.final_idx 1)) [
      | inl at ↦ ground arith
      | inr not_at ↦ ground arith
    ]
    | inr no_eof ↦ ground arith
  ]

  grow :
      (buf text new : Bytes) (b b' f : ℕ)
      → buf ≡ slice peer b (length buf)
      → text ≡ slice peer f (length text)
      → b + length buf ≡ f
      → new ≡ buf ++ text
      → b' ≡ b
      → new ≡ slice peer b' (length new)
  grow buf text new b b' f p q e n c =
      n ∙ slice-join peer buf text b f p q e ∙ ap₂ (slice peer) (sym c) (sym (ap length n))

  write-Wrote-Core :
      (r : StreamReassembler) (text : Bytes)
      → Core r
      → r.first_unassembled + length text ≤ edge r
      → r.first_unassembled + length text ≤ size
      → Wrote r.output text (ByteStream.write r.output text).0
  write-Wrote-Core r text v b s = ground (arith, write-Wrote r.output text)

  -- The next bytes of the stream, written out.
  write-Core :
      (r : StreamReassembler) (text : Bytes) (next : ℕ)
      → Core r
      → text ≡ slice peer r.first_unassembled (length text)
      → next ≡ r.first_unassembled + length text
      → next ≤ edge r
      → next ≤ size
      → let t = record r {
        output = (ByteStream.write r.output text).0;
        first_unassembled = next;
      } in
        Core t × Kept r t
  write-Core r text next v e n b s =
      let w = write-Wrote-Core r text v (omega arith) (omega arith) in
      let g = grow r.output.buffer text _ _ _ _ v.held e v.counted w.buffer w.read_off in
      ground (arith, w, g, ap length w.buffer ∙ length-append r.output.buffer text)

  pub emit-Core :
      (r : StreamReassembler) (text : Bytes) (next : ℕ)
      → Core r
      → text ≡ slice peer r.first_unassembled (length text)
      → next ≡ r.first_unassembled + length text
      → next ≤ edge r
      → next ≤ size
      → let t = emit r text next in Core t × EndNoticed t × Kept r t × (t.first_unassembled ≡ next)
  emit-Core r text next v e n b s =
      unfold emit in
      let (c, k) = write-Core r text next v e n b s in
      let (c', e', k', f) = check_end-Core c in (c', e', ground (arith, k, k'), f)
