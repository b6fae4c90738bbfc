-- ===== src/TcpSpongeSocket/Tests.antt =====
-- A socket at concrete bytes: the application's end takes two bytes in a call.
use sponge.Prelude.{
  ℕ, ◌+◌, ◌≤◌, ◌≡◌, refl, true, false, [], ◌∷◌, ◌++◌, List, Option, none, some, Bytes, length, take,
  min, take-min, eq_of_some, ap, sym, ◌∙◌, arith,
}
use sponge.ByteStream
use sponge.BufferViewList.{Iovec, as_iovecs}
use sponge.BufferViewList.Equivalence.{gathered}
use sponge.FileDescriptor.{FdWrapper, buffer_size}
use sponge.FileDescriptor.Writing.{Sends}
use sponge.EventLoop.{Pollfd, PollReturn, timed_out}
use sponge.TcpConfig.{TcpConfig, timeout_dflt, default_capacity}
use sponge.TcpHeader
use sponge.TcpSegment.{TcpSegment}
use sponge.StreamReassembler
use sponge.TcpReceiver
use sponge.TcpSender
use sponge.TcpConnection
use sponge.TcpConnection.{TcpConnection, remaining_outbound_capacity}
use sponge.FdAdapter.{Adapter, default_config}
use sponge.TcpSpongeSocket.{
  Socket, Pipe, rules, tcp_loop, bytes_in, bytes_out, datagram_in, has_bytes, wants_bytes,
  inbound_stream, set_inbound_stream,
}
use sponge.TcpSpongeSocket.Rules.{IsPipe, stream}
use sponge.TcpSpongeSocket.Delivery.{EndBegins, tcp_loop-EndBegins}
use sponge.TcpSpongeSocket.Outbound.{IsOpen, Given, arrived, bytes_in-Given, bytes_in-datagram_in}
use sponge.TcpSpongeSocket.Errors.{shut_after, sending, bytes_out_shuts_early}

-- The pipe: what the application has written, and what it was sent.
pub record Kernel : Type 0 where
  pub written : Bytes
  pub sent : Bytes

abbrev two_at_once : Kernel → List Iovec → Option ℕ × Kernel
two_at_once k v =
    (some (min 2 (length (gathered v))), record k { sent = k.sent ++ take 2 (gathered v) })

abbrev pipe : Pipe Kernel
pipe = record {
  read = λ k n. (record k { written = [] }, some (take n k.written));
  writev = two_at_once;
  shut_wr = λ k. some k;
}

abbrev sent : Kernel → Bytes
sent k = k.sent

two_at_once-Sends : Sends two_at_once sent
two_at_once-Sends = record {
  failed = λ k v h. absurd (ground arith);
  within = λ k v n h. omega (arith, eq_of_some h);
  sends = λ k v n h.
      ap (◌++◌ (k.sent))
        (sym (take-min 2 (gathered v)) ∙ ap (λ t. take t (gathered v)) (eq_of_some h));
}

pipe-IsPipe : IsPipe pipe sent
pipe-IsPipe = record {
  writes = two_at_once-Sends;
  reads = λ k n. refl;
  shuts = λ k k' h. ap sent (sym (eq_of_some h));
}

-- An adapter that always reads a reset.
abbrev reset : TcpSegment
reset = record { header = record TcpHeader.default { rst = true }; payload = [] }

abbrev adapter : Adapter ℕ
adapter = record {
  config_of = λ a. default_config;
  set_config = λ a cfg. a;
  set_listen = λ a on. a;
  read = λ a. some (a + 1, some reset);
  write = λ a seg. some a;
  tick_ms = λ a ms. some a;
}

abbrev adapter_fd : ℕ → FdWrapper
adapter_fd a = record { fd = 3; eof = false; closed = false; read_count = a; write_count = 0 }

abbrev config : TcpConfig
config = record {
  rt_timeout = timeout_dflt;
  recv_capacity = default_capacity;
  send_capacity = default_capacity;
  fixed_isn = none;
}

fresh : TcpConnection
unfolding TcpConnection.new TcpReceiver.new StreamReassembler.new ByteStream.new TcpSender.new
fresh = TcpConnection.new config (record { raw_value = 7 })

abbrev socket : Socket ℕ Kernel
socket = record {
  tcp = fresh;
  adapter = 0;
  thread_data = record { fd = 4; eof = false; closed = false; read_count = 0; write_count = 0 };
  pipe = record { written = 1 ∷ 2 ∷ []; sent = 8 ∷ [] };
  abort = false;
  inbound_shutdown = false;
  outbound_shutdown = false;
  fully_acked = false;
}

-- The same with three bytes for the application, on a stream in error.
abbrev failed_inbound : Socket ℕ Kernel
failed_inbound = record socket {
  tcp =
      set_inbound_stream fresh
        (record (inbound_stream fresh) { buffer = 5 ∷ 6 ∷ 7 ∷ []; error = true });
}

abbrev quiet : Socket ℕ Kernel → List Pollfd → ℕ → Socket ℕ Kernel × PollReturn
quiet s fds ms = (s, timed_out)

tcp_loop-EndBegins_example :
    EndBegins adapter adapter_fd pipe quiet sent pipe-IsPipe
      (stream adapter adapter_fd pipe sent pipe-IsPipe failed_inbound)
      (tcp_loop adapter adapter_fd pipe quiet
        (λ s. true)
        (10 ∷ 20 ∷ [])
        0
        failed_inbound
        (rules adapter adapter_fd pipe))
tcp_loop-EndBegins_example =
    tcp_loop-EndBegins adapter adapter_fd pipe quiet sent pipe-IsPipe (λ s fds. refl)
      (λ s fds. refl) (λ s. true) (10 ∷ 20 ∷ []) 0 failed_inbound

fresh-IsOpen : IsOpen fresh.sender.stream
unfolding fresh
fresh-IsOpen = record { not_ended = refl; no_error = refl; fits = omega arith; small = omega arith }

room : 2 ≤ min buffer_size (remaining_outbound_capacity fresh)
unfolding fresh
room = omega arith

read_all :
    take {A = ℕ} (min buffer_size (remaining_outbound_capacity fresh)) (1 ∷ 2 ∷ []) ≡ 1 ∷ 2 ∷ []
unfolding fresh
read_all = refl

bytes_in-Given_example :
    Given adapter adapter_fd pipe socket (1 ∷ 2 ∷ []) (bytes_in adapter adapter_fd pipe socket)
bytes_in-Given_example =
    bytes_in-Given adapter adapter_fd pipe socket (1 ∷ 2 ∷ []) fresh-IsOpen (ap some read_all) room

interested : wants_bytes adapter adapter_fd pipe socket ≡ true
unfolding fresh
interested = refl

bytes_in-datagram_in_example :
    (datagram_in adapter adapter_fd pipe socket
      ≡ some (arrived adapter adapter_fd pipe socket 1 reset))
    × (bytes_in adapter adapter_fd pipe (arrived adapter adapter_fd pipe socket 1 reset) ≡ none)
bytes_in-datagram_in_example =
    bytes_in-datagram_in adapter adapter_fd pipe socket 1 reset 1 (2 ∷ []) refl refl interested
      (ap some read_all) room

bytes_out_shuts_early_example :
    let k = (sending adapter adapter_fd pipe failed_inbound).1 in
    (bytes_out adapter adapter_fd pipe failed_inbound
      ≡ some (shut_after adapter adapter_fd pipe failed_inbound 2 k))
    × (has_bytes adapter adapter_fd pipe (shut_after adapter adapter_fd pipe failed_inbound 2 k)
        ≡ true)
unfolding ByteStream.peek_output as_iovecs
bytes_out_shuts_early_example =
    bytes_out_shuts_early adapter adapter_fd pipe failed_inbound 2
      (sending adapter adapter_fd pipe failed_inbound).1 refl refl (omega arith) (omega arith)
      (omega arith) refl
