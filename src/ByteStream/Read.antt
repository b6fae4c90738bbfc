-- ===== src/ByteStream/Read.antt =====
-- `ByteStream::read` as its callers use it.
use sponge.Prelude.{
  ℕ, ◌≡◌, false, ◌-◌, ◌++◌, Bytes, length, arith, min, add64, take-append-drop, length-take,
  length-drop,
}
use sponge.ByteStream.{ByteStream, read, pop_output, peek_output, new_len}

-- The text is the front of the buffer of `s`, as much as was asked for or is there, and `t` is `s`
-- without it.
pub record ReadOff (s : ByteStream) (len : ℕ) (t : ByteStream) (text : Bytes) : Type 0 where
  pub joined : s.buffer ≡ text ++ t.buffer
  pub count : length text ≡ min len (length s.buffer)
  pub left : length t.buffer ≡ length s.buffer - length text
  pub off : t.bytes_read ≡ add64 s.bytes_read (length text)
  pub written : t.bytes_written ≡ s.bytes_written
  pub cap : t.capacity ≡ s.capacity
  pub input_end : t.input_end ≡ s.input_end
  pub error : t.error ≡ s.error

pub read-ReadOff :
    (s : ByteStream) (len : ℕ)
    → s.error ≡ false
    → let (t, text) = read s len in ReadOff s len t text
unfolding read pop_output peek_output
read-ReadOff s len e = ground (
  arith,
  take-append-drop (new_len s len) s.buffer,
  length-take (new_len s len) s.buffer,
  length-drop (new_len s len) s.buffer,
)
