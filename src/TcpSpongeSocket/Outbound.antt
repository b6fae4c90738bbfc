-- ===== src/TcpSpongeSocket/Outbound.antt =====
-- The bytes that come from the application, rule 2 of the socket.
use sponge.Prelude.{
  ℕ, ◌≤◌, ◌<◌, ◌^◌, ◌≡◌, refl, ap, ◌∙◌, sym, subst, ◌⊎◌, inl, inr, Bool-cases, true, false, ◌&&◌,
  ◌||◌, ◌∷◌, Option, none, some, Bytes, length, min, ltb, ◌==◌, arith,
}
use sponge.ByteStream
use sponge.ByteStream.{ByteStream}
use sponge.FileDescriptor
use sponge.FileDescriptor.{FdWrapper, buffer_size, register_read}
use sponge.TcpSegment.{TcpSegment}
use sponge.TcpConnection
use sponge.TcpConnection.{TcpConnection, remaining_outbound_capacity}
use sponge.FdAdapter.{Adapter}
use sponge.TcpSpongeSocket.{
  Socket, Pipe, datagram_in, end_outbound, end_at_eof, give_bytes, bytes_in, wants_bytes,
  take_segment, note_acked,
}

-- A stream that takes bytes.
pub record IsOpen (s : ByteStream) : Type 0 where
  pub not_ended : s.input_end ≡ false
  pub no_error : s.error ≡ false
  pub fits : length s.buffer ≤ s.capacity
  pub small : s.capacity < 2 ^ 64

write_count :
    (c : TcpConnection) (text : Bytes)
    → (TcpConnection.write c text).1 ≡ (ByteStream.write c.sender.stream text).1
unfolding TcpConnection.write
write_count c text = refl

-- An open stream takes what it has room for.
open-write :
    (s : ByteStream) (text : Bytes)
    → IsOpen s
    → length text ≤ ByteStream.remaining_capacity s
    → (ByteStream.write s text).1 ≡ length text
unfolding ByteStream.write ByteStream.write_bytes
open-write s text o h = ground (arith, o)

-- A stream in error takes nothing.
error-write : (s : ByteStream) (text : Bytes) → s.error ≡ true → (ByteStream.write s text).1 ≡ 0
unfolding ByteStream.write
error-write s text e = ground (arith, e)

module _ {A K : Type 0} (ad : Adapter A) (adapter_fd : A → FdWrapper) (pipe : Pipe K)
    (s : Socket A K) where
  abbrev limit : ℕ
  limit = remaining_outbound_capacity s.tcp

  abbrev answer : K × Option Bytes
  answer = pipe.read s.pipe (min buffer_size limit)

  -- The descriptor after the read of `n` bytes.
  abbrev pub read_from : ℕ → FdWrapper
  read_from n =
      register_read (record (s.thread_data) { eof = s.thread_data.eof || (ltb 0 limit && n == 0) })

  -- The socket with the bytes in the outbound stream.
  abbrev pub given : Bytes → Socket A K
  given bytes = record s {
    tcp = (TcpConnection.write s.tcp bytes).0;
    thread_data = read_from (length bytes);
    pipe = answer.0;
  }

  read_some :
      (bytes : Bytes)
      → length bytes ≤ min buffer_size limit
      → FileDescriptor.read (λ size. some bytes) s.thread_data limit
        ≡ some (read_from (length bytes), bytes)
  unfolding FileDescriptor.read
  read_some bytes h = ground arith

  give :
      (bytes : Bytes)
      → answer.1 ≡ some bytes
      → length bytes ≤ min buffer_size limit
      → bytes_in ad adapter_fd pipe s
        ≡ give_bytes ad adapter_fd pipe
            (record s { thread_data = read_from (length bytes); pipe = answer.0 })
            bytes
  unfolding bytes_in
  give bytes e h = rw (e, bytes_in) (rw (read_some bytes h, bytes_in) refl)

  -- The read has found the end of the application's bytes, now or before.
  abbrev pub AtEnd : Bytes → Type 0
  AtEnd bytes = (s.thread_data.eof ≡ true) ⊎ ((0 < limit) × (length bytes ≡ 0))

  -- What rule 2 does with the bytes: all of them are given to the connection, and at the end the
  -- stream of the connection is ended, and rule 2 is over.
  pub data Given (bytes : Bytes) : Option (Socket A K) → Type 0 where
    goes_on : ¬ AtEnd bytes → Given bytes (some (given bytes))
    ends :
        AtEnd bytes
        → Given bytes (
            some (record (given bytes) {
              tcp = TcpConnection.end_input_stream (given bytes).tcp;
              outbound_shutdown = true;
            }))

  end_at_eof-Given :
      (bytes : Bytes) → Given bytes (some (end_at_eof ad adapter_fd pipe (given bytes)))
  unfolding end_outbound
  end_at_eof-Given bytes =
      elim (Bool-cases (s.thread_data.eof || (ltb 0 limit && length bytes == 0))) [
        | inl e ↦ subst (Given bytes) (ground arith) (ends (ground arith))
        | inr e ↦ subst (Given bytes) (ground arith) (goes_on (λ h. ground arith))
      ]

  -- When the read of the application's bytes does not throw and gives no more than it was limited
  -- to, and the outbound stream is within its capacity of less than 2 ^ 64, not ended and not in
  -- error, rule 2 of the socket does not throw: it writes all of them to the connection; if the
  -- descriptor was at its end, or nothing came of a read that asked for more than nothing, it
  -- ends the outbound stream of the connection and notes that it is shut down; otherwise it does
  -- neither.
  pub bytes_in-Given :
      (bytes : Bytes)
      → IsOpen s.tcp.sender.stream
      → answer.1 ≡ some bytes
      → length bytes ≤ min buffer_size limit
      → Given bytes (bytes_in ad adapter_fd pipe s)
  unfolding give_bytes
  bytes_in-Given bytes o e h =
      let taken : (TcpConnection.write s.tcp bytes).1 ≡ length bytes =
        write_count s.tcp bytes ∙ open-write s.tcp.sender.stream bytes o (omega arith) in
      let result : bytes_in ad adapter_fd pipe s
          ≡ some (end_at_eof ad adapter_fd pipe (given bytes)) =
        give bytes e h ∙ rw (taken, give_bytes) (ground arith) in
      subst (Given bytes) (sym result) (end_at_eof-Given bytes)

  -- Bytes from the application are an exception where the outbound stream is in error.
  bytes_in-error :
      (x : ℕ) (bytes : Bytes)
      → s.tcp.sender.stream.error ≡ true
      → answer.1 ≡ some (x ∷ bytes)
      → length (x ∷ bytes) ≤ min buffer_size limit
      → bytes_in ad adapter_fd pipe s ≡ none
  unfolding give_bytes
  bytes_in-error x bytes r e h =
      let taken : (TcpConnection.write s.tcp (x ∷ bytes)).1 ≡ 0 =
        write_count s.tcp (x ∷ bytes) ∙ error-write s.tcp.sender.stream (x ∷ bytes) r in
      give (x ∷ bytes) e h ∙ rw (taken, give_bytes) (ground arith)

-- The connection after a reset: its outbound stream is in error, and has the room that it had.
reset_stream :
    (c : TcpConnection) (seg : TcpSegment)
    → c.active ≡ true
    → seg.header.rst ≡ true
    → ((TcpConnection.segment_received c seg).sender.stream.error ≡ true)
      × (remaining_outbound_capacity (TcpConnection.segment_received c seg)
          ≡ remaining_outbound_capacity c)
unfolding TcpConnection.segment_received TcpConnection.unclean_shutdown TcpConnection.kill
    TcpConnection.take_in ByteStream.set_error
reset_stream c seg alive rst = ground arith

module _ {A K : Type 0} (ad : Adapter A) (adapter_fd : A → FdWrapper) (pipe : Pipe K) where
  -- The socket after a datagram.
  abbrev pub arrived : Socket A K → A → TcpSegment → Socket A K
  arrived s a seg =
      note_acked ad adapter_fd pipe
        (take_segment ad adapter_fd pipe (record s { adapter = a }) (some seg))

  -- If rule 1 reads a segment with RST for a socket on which rule 2 is interested, and the
  -- application has written at least one byte, then rule 1 returns, and the call of rule 2 that
  -- follows throws: the bytes that it has read are refused by the stream in error.
  pub bytes_in-datagram_in :
      (s : Socket A K) (a : A) (seg : TcpSegment) (x : ℕ) (bytes : Bytes)
      → ad.read s.adapter ≡ some (a, some seg)
      → seg.header.rst ≡ true
      → wants_bytes ad adapter_fd pipe s ≡ true
      → (pipe.read s.pipe (min buffer_size (remaining_outbound_capacity s.tcp))).1
        ≡ some (x ∷ bytes)
      → length (x ∷ bytes) ≤ min buffer_size (remaining_outbound_capacity s.tcp)
      → (datagram_in ad adapter_fd pipe s ≡ some (arrived s a seg))
        × (bytes_in ad adapter_fd pipe (arrived s a seg) ≡ none)
  unfolding datagram_in
  bytes_in-datagram_in s a seg x bytes r rst wants e h =
      let (err, room) = reset_stream s.tcp seg (ground arith) rst in
      (
        rw (r, datagram_in) refl,
        bytes_in-error ad adapter_fd pipe (arrived s a seg) x bytes err
            (ap (λ n. (pipe.read s.pipe (min buffer_size n)).1) room ∙ e) (omega (arith, room)),
      )
