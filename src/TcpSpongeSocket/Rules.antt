-- ===== src/TcpSpongeSocket/Rules.antt =====
-- What each rule of the socket does to the bytes on their way to the application.
use sponge.Prelude.{
  ℕ, ◌≤◌, ◌≡◌, zero, suc, refl, ap, sym, ◌∙◌, subst, true, not, if_both, Option-cases, inl, inr, [],
  ◌∷◌, ◌++◌, List, Option, none, some, Bytes, length, take, drop, min, append-nil, append_assoc,
  take-append-drop, length-take, ◌==◌, arith,
}
use sponge.ByteStream
use sponge.ByteStream.{ByteStream}
use sponge.BufferViewList.{of_string_view}
use sponge.StreamReassembler.Grows.{Grows, Grows-self}
use sponge.FileDescriptor
use sponge.FileDescriptor.{FdWrapper, Outcome, returned, thrown, out_of_fuel, buffer_size}
use sponge.FileDescriptor.Writing.{Sends, write_once}
use sponge.EventLoop.Keeps.{Holds}
use sponge.TcpSegment.{TcpSegment}
use sponge.TcpConnection
use sponge.TcpConnection.{TcpConnection, remaining_outbound_capacity}
use sponge.TcpConnection.Inbound.{
  waiting, segment_received-Grows, write-waiting, end_input_stream-waiting,
}
use sponge.FdAdapter.{Adapter}
use sponge.TcpSpongeSocket.{
  Socket, Pipe, inbound_stream, set_inbound_stream, take_segment, datagram_in, end_outbound,
  end_at_eof, give_bytes, bytes_in, inbound_over, shut_inbound, after_write, amount_to_write,
  bytes_out, send_segments, datagrams_out,
}

-- What is relied on of the pipe: `writev` sends a first part of its bytes, and the other calls send
-- none.
pub record IsPipe {K : Type 0} (pipe : Pipe K) (sent : K → Bytes) : Type 0 where
  pub writes : Sends pipe.writev sent
  pub reads : (k : K) (n : ℕ) → sent (pipe.read k n).0 ≡ sent k
  pub shuts : (k k' : K) → pipe.shut_wr k ≡ some k' → sent k' ≡ sent k

Grows-append : (a xs ys : Bytes) → Grows xs ys → Grows (a ++ xs) (a ++ ys)
Grows-append a xs ys (zs, e) = (zs, ap (◌++◌ a) e ∙ sym (append_assoc a xs zs))

Grows-eq : {xs ys : Bytes} → ys ≡ xs → Grows xs ys
Grows-eq {xs} e = ([], e ∙ sym (append-nil xs))

take-take : {A : Type 0} (n m : ℕ) (xs : List A) → n ≤ m → take n (take m xs) ≡ take n xs
take-take zero m xs h = refl
take-take (suc n) zero xs h = absurd (omega arith)
take-take (suc n) (suc m) [] h = refl
take-take (suc n) (suc m) (x ∷ xs) h = ap (◌∷◌ x) (take-take n m xs (omega arith))

module _ {A K : Type 0} (ad : Adapter A) (adapter_fd : A → FdWrapper) (pipe : Pipe K)
    (sent : K → Bytes) (law : IsPipe pipe sent) where
  -- The bytes for the application: those that it was sent, and those that wait.
  abbrev pub stream : Socket A K → Bytes
  stream s = sent s.pipe ++ waiting s.tcp

  abbrev pub Grown : Socket A K → Option (Socket A K) → Type 0
  Grown s o = Holds (λ t. Grows (stream s) (stream t)) (λ t. t) o

  received :
      (s : Socket A K) (seg : Option TcpSegment)
      → Grows (stream s) (stream (take_segment ad adapter_fd pipe s seg))
  received s none = Grows-self (stream s)
  received s (some seg) =
      Grows-append (sent s.pipe) (waiting s.tcp)
        (waiting (TcpConnection.segment_received s.tcp seg)) (segment_received-Grows s.tcp seg)

  pub datagram_in-Grown : (s : Socket A K) → Grown s (datagram_in ad adapter_fd pipe s)
  unfolding datagram_in
  datagram_in-Grown s = elim (Option-cases (ad.read s.adapter)) [
    | inl e ↦ rw (e, datagram_in) tt
    | inr ((a, seg), e) ↦ rw (e, datagram_in) (received (record s { adapter = a }) seg)
  ]

  pub end_outbound-stream : (s : Socket A K) → stream (end_outbound ad adapter_fd pipe s) ≡ stream s
  unfolding end_outbound
  end_outbound-stream s = ap (◌++◌ (sent s.pipe)) (end_input_stream-waiting s.tcp)

  give_bytes-Grown :
      (s : Socket A K) (bytes : Bytes) → Grown s (give_bytes ad adapter_fd pipe s bytes)
  unfolding give_bytes
  give_bytes-Grown s bytes =
      let t = record s { tcp = (TcpConnection.write s.tcp bytes).0 } in
      let kept : stream t ≡ stream s = ap (◌++◌ (sent s.pipe)) (write-waiting s.tcp bytes) in
      let ended : stream (end_at_eof ad adapter_fd pipe t) ≡ stream s =
        if_both (λ (u : Socket A K). stream u ≡ stream s) t.thread_data.eof {y = t}
          (end_outbound-stream t ∙ kept) kept in
      if_both (Grown s) (not ((TcpConnection.write s.tcp bytes).1 == length bytes)) {x = none}
        {y = some (end_at_eof ad adapter_fd pipe t)} tt (Grows-eq ended)

  bytes_in_with :
      (s : Socket A K) (k : K) (o : Option (FdWrapper × Bytes))
      → sent k ≡ sent s.pipe
      → Grown s (elim o [
        | none ↦ none
        | some (w, bytes) ↦
            give_bytes ad adapter_fd pipe (record s { thread_data = w; pipe = k }) bytes
      ])
  bytes_in_with s k none e = tt
  bytes_in_with s k (some (w, bytes)) e =
      let t : Socket A K = record s { thread_data = w; pipe = k } in
      subst
        (λ xs. Holds (λ u. Grows xs (stream u)) (λ u. u) (give_bytes ad adapter_fd pipe t bytes))
        (ap (λ xs. xs ++ waiting s.tcp) e) (give_bytes-Grown t bytes)

  pub bytes_in-Grown : (s : Socket A K) → Grown s (bytes_in ad adapter_fd pipe s)
  unfolding bytes_in
  bytes_in-Grown s =
      bytes_in_with s _ _ (law.reads s.pipe (min buffer_size (remaining_outbound_capacity s.tcp)))

  send_datagrams :
      (s : Socket A K) (o : Option A)
      → Grown s (elim o [
        | none ↦ none
        | some a ↦ some (record s { adapter = a; tcp = record (s.tcp) { segments_out = [] } })
      ])
  send_datagrams s none = tt
  send_datagrams s (some a) = Grows-self (stream s)

  pub datagrams_out-Grown : (s : Socket A K) → Grown s (datagrams_out ad adapter_fd pipe s)
  unfolding datagrams_out
  datagrams_out-Grown s =
      send_datagrams s (send_segments ad adapter_fd pipe s.adapter s.tcp.segments_out)

  -- What rule 3 takes from the stream, and what is left of it.
  front : Socket A K → Bytes
  front s = ByteStream.peek_output (inbound_stream s.tcp) (amount_to_write ad adapter_fd pipe s)

  length-front : (s : Socket A K) → length (front s) ≡ min 65536 (length (waiting s.tcp))
  unfolding front ByteStream.peek_output
  length-front s = ground (
    arith,
    length-take (ByteStream.new_len (inbound_stream s.tcp) (min 65536 (length (waiting s.tcp))))
        (waiting s.tcp),
  )

  popped :
      (s : ByteStream) (m n : ℕ)
      → n ≤ length (ByteStream.peek_output s m)
      → take n (ByteStream.peek_output s m) ++ (ByteStream.pop_output s n).buffer ≡ s.buffer
  unfolding ByteStream.peek_output ByteStream.pop_output
  popped s m n h =
      let fits : n ≤ ByteStream.new_len s m =
        omega (arith, length-take (ByteStream.new_len s m) s.buffer) in
      let short : n ≤ length s.buffer =
        omega (arith, length-take (ByteStream.new_len s m) s.buffer) in
      let whole : ByteStream.new_len s n ≡ n = ground arith in
      ap (λ xs. xs ++ drop (ByteStream.new_len s n) s.buffer)
        (take-take n (ByteStream.new_len s m) s.buffer fits)
      ∙ ap (λ i. take n s.buffer ++ drop i s.buffer) whole
      ∙ take-append-drop n s.buffer

  abbrev pub Unchanged : Socket A K → Option (Socket A K) → Type 0
  Unchanged s o = Holds (λ t. stream t ≡ stream s) (λ t. t) o

  shut_with :
      (s : Socket A K) (o : Option K)
      → ((k : K) → o ≡ some k → sent k ≡ sent s.pipe)
      → Unchanged s (elim o [
        | none ↦ none
        | some k ↦ some (record s {
          pipe = k;
          thread_data = FileDescriptor.register_write s.thread_data;
          inbound_shutdown = true;
        })
      ])
  shut_with s none h = tt
  shut_with s (some k) h = ap (λ xs. xs ++ waiting s.tcp) (h k refl)

  shut_inbound-Unchanged : (s : Socket A K) → Unchanged s (shut_inbound ad adapter_fd pipe s)
  unfolding shut_inbound
  shut_inbound-Unchanged s = shut_with s (pipe.shut_wr s.pipe) (λ k. law.shuts s.pipe k)

  after_write-Unchanged :
      (s : Socket A K) (o : Outcome K)
      → ((k : K) (w : FdWrapper) (n : ℕ)
          → o ≡ returned k w n
          → (sent k ≡ sent s.pipe ++ take n (front s)) × (n ≤ length (front s)))
      → Unchanged s (after_write ad adapter_fd pipe s o)
  unfolding after_write front
  after_write-Unchanged s (thrown k w) h = tt
  after_write-Unchanged s out_of_fuel h = tt
  after_write-Unchanged s (returned k w n) h =
      let t : Socket A K = record s {
        tcp = set_inbound_stream s.tcp (ByteStream.pop_output (inbound_stream s.tcp) n);
        pipe = k;
        thread_data = w;
      } in
      let (went, le) = h k w n refl in
      let moved : stream t ≡ stream s =
        ap (λ xs. xs ++ waiting t.tcp) went
        ∙ append_assoc (sent s.pipe) (take n (front s)) (waiting t.tcp)
        ∙ ap (◌++◌ (sent s.pipe))
            (popped (inbound_stream s.tcp) (amount_to_write ad adapter_fd pipe s) n le) in
      if_both (Unchanged s) (inbound_over ad adapter_fd pipe t) {y = some t}
        (subst
          (λ xs.
            Holds (λ (u : Socket A K). stream u ≡ xs) (λ u. u) (shut_inbound ad adapter_fd pipe t))
          moved (shut_inbound-Unchanged t))
        moved

  -- What rule 3 moves to the application is what it takes from the stream.
  pub bytes_out-Unchanged : (s : Socket A K) → Unchanged s (bytes_out ad adapter_fd pipe s)
  unfolding bytes_out front
  bytes_out-Unchanged s = after_write-Unchanged s _ (λ k w n e.
      let (went, le) =
        write_once pipe.writev sent law.writes s.pipe s.thread_data (of_string_view (front s)) k w n
          (omega (arith, length-front s, ap (length {A = ℕ}) (append-nil (front s)))) e in
      (
        went ∙ ap (λ xs. sent s.pipe ++ take n xs) (append-nil (front s)),
        omega (arith, le, ap (length {A = ℕ}) (append-nil (front s))),
      ))
