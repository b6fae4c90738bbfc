-- ===== src/ByteStream/Write.antt =====
-- `ByteStream::write` where the text fits: the writer's side as the reassembler uses it.
use sponge.Prelude.{
  ◌+◌, ◌^◌, ◌≤◌, ◌<◌, ◌≡◌, false, [], ◌∷◌, ◌++◌, Bytes, length, arith, take_all, ◌⊎◌, inl, inr,
  append-nil, add64,
}
use sponge.ByteStream.{ByteStream, write}

-- The stream `t` is `s` with the whole text behind its buffer.
pub record Wrote (s : ByteStream) (text : Bytes) (t : ByteStream) : Type 0 where
  pub buffer : t.buffer ≡ s.buffer ++ text
  pub written : t.bytes_written ≡ add64 s.bytes_written (length text)
  pub read_off : t.bytes_read ≡ s.bytes_read
  pub cap : t.capacity ≡ s.capacity
  pub input_end : t.input_end ≡ s.input_end
  pub error : t.error ≡ s.error

write_nothing : (s : ByteStream) → s.bytes_written < 2 ^ 64 → Wrote s [] (write s []).0
unfolding write
write_nothing s h = ground (arith, append-nil s.buffer)

write_some :
    (s : ByteStream) (text : Bytes)
    → s.error ≡ false
    → s.input_end ≡ false
    → length s.buffer + length text ≤ s.capacity
    → s.capacity < 2 ^ 64
    → 0 < length text
    → Wrote s text (write s text).0
unfolding write
write_some s text e i fits small pos = ground (arith, take_all (length text) text)

-- A text that fits is written whole, if the stream is open or the text is empty.
pub write-Wrote :
    (s : ByteStream) (text : Bytes)
    → s.error ≡ false
    → (s.input_end ≡ false) ⊎ (length text ≡ 0)
    → length s.buffer + length text ≤ s.capacity
    → s.capacity < 2 ^ 64
    → s.bytes_written < 2 ^ 64
    → Wrote s text (write s text).0
write-Wrote s [] e o fits small w = write_nothing s w
write-Wrote s (x ∷ xs) e (inl o) fits small w = write_some s (x ∷ xs) e o fits small (omega arith)
write-Wrote s (x ∷ xs) e (inr o) fits small w = absurd (omega arith)
