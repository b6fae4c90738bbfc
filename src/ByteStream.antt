-- ===== src/ByteStream.antt =====
-- libsponge/byte_stream.hh and byte_stream.cc: the bounded in-order byte stream between a writer
-- and a reader. A method that changes the stream returns the new stream beside its result.
pub mod Pipe
pub mod Refine
pub mod Read
pub mod Write
mod Tests
use sponge.Prelude.{
  ℕ, ◌≤◌, ◌+◌, Bool, true, false, ◌&&◌, ◌||◌, [], ◌++◌, Bytes, length, take, drop, ltb, ◌==◌,
  if◌then◌else◌, add64, sub64,
}

-- The members of `class ByteStream`; the head of `buffer` is the next byte to be read.
pub record ByteStream : Type 0 where
  pub capacity : ℕ
  pub buffer : Bytes
  pub input_end : Bool
  pub error : Bool
  pub bytes_written : ℕ
  pub bytes_read : ℕ

-- The constructor.
unfoldable pub new : ℕ → ByteStream
new capacity = record {
  capacity = capacity;
  buffer = [];
  input_end = false;
  error = false;
  bytes_written = 0;
  bytes_read = 0;
}

-- `_capacity - _buffer.size()`, in `size_t`.
abbrev pub remaining_capacity : ByteStream → ℕ
remaining_capacity s = sub64 s.capacity (length s.buffer)

-- `std::min`, as the ternary of `write` has it.
unfoldable pub write_bytes : ByteStream → Bytes → ℕ
write_bytes s text =
    if ltb (remaining_capacity s) (length text) then remaining_capacity s else length text

unfoldable pub write : ByteStream → Bytes → ByteStream × ℕ
unfolding write_bytes
write s text =
    if s.input_end || s.error then (s, 0) else if remaining_capacity s == 0 then (s, 0) else (
      record s {
        buffer = s.buffer ++ take (write_bytes s text) text;
        bytes_written = add64 s.bytes_written (write_bytes s text);
      },
      write_bytes s text,
    )

unfoldable pub end_input : ByteStream → ByteStream
end_input s = record s { input_end = true }

unfoldable pub set_error : ByteStream → ByteStream
set_error s = record s { error = true }

-- The length that `peek_output` and `pop_output` cut the request to.
abbrev pub new_len : ByteStream → ℕ → ℕ
new_len s len = if ltb (length s.buffer) len then length s.buffer else len

unfoldable pub peek_output : ByteStream → ℕ → Bytes
peek_output s len = take (new_len s len) s.buffer

unfoldable pub pop_output : ByteStream → ℕ → ByteStream
pop_output s len = record s {
  buffer = drop (new_len s len) s.buffer;
  bytes_read = add64 s.bytes_read (new_len s len);
}

unfoldable pub read : ByteStream → ℕ → ByteStream × Bytes
read s len = if s.error then (s, []) else (pop_output s len, peek_output s len)

abbrev pub input_ended : ByteStream → Bool
input_ended s = s.input_end

abbrev pub buffer_size : ByteStream → ℕ
buffer_size s = length s.buffer

abbrev pub buffer_empty : ByteStream → Bool
buffer_empty s = length s.buffer == 0

abbrev pub eof : ByteStream → Bool
eof s = s.input_end && buffer_empty s

-- A call of the stream's interface, and what it gives back to the caller.
pub data Call : Type 0 where
  writes : Bytes → Call
  reads : ℕ → Call
  peeks : ℕ → Call
  pops : ℕ → Call
  ends : Call
  fails : Call

pub data Reply : Type 0 where
  count : ℕ → Reply
  text : Bytes → Reply
  done : Reply
