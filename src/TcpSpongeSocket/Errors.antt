-- ===== src/TcpSpongeSocket/Errors.antt =====
-- Rule 3 on a stream in error, libsponge/tcp_helpers/tcp_sponge_socket.cc.
use sponge.Prelude.{
  ℕ, ◌≤◌, ◌<◌, ◌^◌, ◌≡◌, refl, ap, ◌∙◌, true, false, Option, some, Bytes, length, min, length-drop,
  length-take, arith,
}
use sponge.ByteStream
use sponge.ByteStream.{ByteStream}
use sponge.BufferViewList.{of_string_view, as_iovecs, size_from, remove_prefix}
use sponge.FileDescriptor.{FdWrapper, register_write, returned, write_from, write}
use sponge.TcpConnection.Inbound.{waiting}
use sponge.FdAdapter.{Adapter}
use sponge.TcpSpongeSocket.{
  Socket, Pipe, inbound_stream, set_inbound_stream, shut_inbound, after_write, amount_to_write,
  bytes_out, has_bytes,
}

module _ {A K : Type 0} (ad : Adapter A) (adapter_fd : A → FdWrapper) (pipe : Pipe K)
    (s : Socket A K) where
  abbrev pub front : Bytes
  front = ByteStream.peek_output (inbound_stream s.tcp) (amount_to_write ad adapter_fd pipe s)

  -- The call of `writev` that rule 3 makes.
  abbrev pub sending : Option ℕ × K
  sending = pipe.writev s.pipe (as_iovecs (of_string_view front))

  -- The socket when `n` bytes have been written, and the socket pair is shut down.
  abbrev pub shut_after : ℕ → K → Socket A K
  shut_after n k = record s {
    tcp = set_inbound_stream s.tcp (ByteStream.pop_output (inbound_stream s.tcp) n);
    pipe = k;
    thread_data = register_write (register_write s.thread_data);
    inbound_shutdown = true;
  }

  one_write :
      (n : ℕ)
      → sending.0 ≡ some n
      → 0 < n
      → n ≤ length front
      → length front < 2 ^ 64
      → write pipe.writev 1 false s.pipe s.thread_data (of_string_view front)
        ≡ returned sending.1 (register_write s.thread_data) n
  unfolding write_from size_from remove_prefix
  one_write n e pos le small = ground (arith, e)

  length-front : length front ≡ min 65536 (length (waiting s.tcp))
  unfolding ByteStream.peek_output
  length-front = ground (
    arith,
    length-take (ByteStream.new_len (inbound_stream s.tcp) (min 65536 (length (waiting s.tcp))))
        (waiting s.tcp),
  )

  shuts :
      (n : ℕ) (k : K)
      → (inbound_stream s.tcp).error ≡ true
      → pipe.shut_wr sending.1 ≡ some k
      → after_write ad adapter_fd pipe s (returned sending.1 (register_write s.thread_data) n)
        ≡ some (shut_after n k)
  unfolding after_write shut_inbound ByteStream.pop_output
  shuts n k err sh = ground (arith, err, sh)

  left :
      (n : ℕ)
      → n < length (waiting s.tcp)
      → (ByteStream.buffer_empty (ByteStream.pop_output (inbound_stream s.tcp) n)) ≡ false
  unfolding ByteStream.pop_output
  left n h =
      ground (arith, length-drop (ByteStream.new_len (inbound_stream s.tcp) n) (waiting s.tcp))

  -- If the inbound stream is in error, the kernel takes at least one byte and at most 65536 of
  -- those that wait but not all, and the shutdown succeeds, then rule 3 shuts the socket down for
  -- writing and stays interested: it will write the rest to a socket that is shut down.
  pub bytes_out_shuts_early :
      (n : ℕ) (k : K)
      → (inbound_stream s.tcp).error ≡ true
      → sending.0 ≡ some n
      → 0 < n
      → n ≤ 65536
      → n < length (waiting s.tcp)
      → pipe.shut_wr sending.1 ≡ some k
      → (bytes_out ad adapter_fd pipe s ≡ some (shut_after n k))
        × (has_bytes ad adapter_fd pipe (shut_after n k) ≡ true)
  unfolding bytes_out
  bytes_out_shuts_early n k err e pos le h sh = (
    ap (after_write ad adapter_fd pipe s)
          (one_write n e pos (omega (arith, length-front)) (omega (arith, length-front)))
        ∙ shuts n k err sh,
    rw (left n h) refl,
  )
