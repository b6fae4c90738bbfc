-- ===== src/TcpSpongeSocket.antt =====
-- libsponge/tcp_helpers/tcp_sponge_socket.hh and tcp_sponge_socket.cc: the thread that moves bytes
-- between the application's socket, the connection and the datagrams. The socket pair is a
-- parameter, with its state in the kernel, and `none` is an exception.
pub mod Rules
pub mod Delivery
pub mod Outbound
pub mod Errors
mod Tests
use sponge.Prelude.{
  ℕ, zero, suc, Bool, true, false, not, ◌&&◌, ◌||◌, List, [], ◌∷◌, Option, none, some, Bytes,
  length, min, ltb, ◌==◌, if◌then◌else◌, sub64,
}
use sponge.WrappingInt32.{WrappingInt32}
use sponge.ByteStream
use sponge.ByteStream.{ByteStream}
use sponge.BufferViewList.{Iovec, of_string_view}
use sponge.FileDescriptor
use sponge.FileDescriptor.{
  FdWrapper, Outcome, returned, thrown, out_of_fuel, buffer_size, register_write,
}
use sponge.EventLoop.{
  Rule, Result, success, timeout, exit, input, output, Pollfd, PollReturn, wait_next_event,
}
use sponge.TcpConfig.{TcpConfig}
use sponge.TcpSegment.{TcpSegment}
use sponge.TcpSender.{bytes_in_flight}
use sponge.TcpConnection
use sponge.TcpConnection.{TcpConnection, remaining_outbound_capacity}
use sponge.TcpState
use sponge.TcpState.{State, listen, syn_rcvd, syn_sent, eq, of_state}
use sponge.FdAdapter.{FdAdapterConfig, Adapter}

-- The kernel's calls on `_thread_data`, our end of the socket pair.
pub record Pipe (K : Type 0) : Type 0 where
  pub read : K → ℕ → K × Option Bytes
  pub writev : K → List Iovec → Option ℕ × K
  pub shut_wr : K → Option K

-- The members of `TCPSpongeSocket`, once there is a connection; the state of the pipe stands in the
-- kernel.
pub record Socket (A K : Type 0) : Type 0 where
  pub tcp : TcpConnection
  pub adapter : A
  pub thread_data : FdWrapper
  pub pipe : K
  pub abort : Bool
  pub inbound_shutdown : Bool
  pub outbound_shutdown : Bool
  pub fully_acked : Bool

-- `_tcp->inbound_stream()`
abbrev pub inbound_stream : TcpConnection → ByteStream
inbound_stream c = c.receiver.reassembler.output

abbrev pub set_inbound_stream : TcpConnection → ByteStream → TcpConnection
set_inbound_stream c s = record c {
  receiver = record (c.receiver) { reassembler = record (c.receiver.reassembler) { output = s } };
}

module _ {A K : Type 0} (ad : Adapter A) (adapter_fd : A → FdWrapper) (pipe : Pipe K) where
  -- Rule 1: a datagram has arrived.
  abbrev pub take_segment : Socket A K → Option TcpSegment → Socket A K
  take_segment s none = s
  take_segment s (some seg) = record s { tcp = TcpConnection.segment_received s.tcp seg }

  abbrev pub note_acked : Socket A K → Socket A K
  note_acked s = record s {
    fully_acked = s.fully_acked || (s.thread_data.eof && bytes_in_flight s.tcp.sender == 0);
  }

  unfoldable pub datagram_in : Socket A K → Option (Socket A K)
  datagram_in s = elim (ad.read s.adapter) [
    | none ↦ none
    | some (adapter, seg) ↦ some (note_acked (take_segment (record s { adapter = adapter }) seg))
  ]

  -- Rule 2: the application has written bytes, or will write no more.
  unfoldable pub end_outbound : Socket A K → Socket A K
  end_outbound s = record s { tcp = TcpConnection.end_input_stream s.tcp; outbound_shutdown = true }

  abbrev pub end_at_eof : Socket A K → Socket A K
  end_at_eof s = if s.thread_data.eof then end_outbound s else s

  -- `_tcp->write(move(data))`, of which less than all is an exception.
  unfoldable pub give_bytes : Socket A K → Bytes → Option (Socket A K)
  give_bytes s bytes =
      let (tcp, amount_written) = TcpConnection.write s.tcp bytes in
      if not (amount_written == length bytes)
      then none
      else some (end_at_eof (record s { tcp = tcp }))

  unfoldable pub bytes_in : Socket A K → Option (Socket A K)
  bytes_in s =
      let limit = remaining_outbound_capacity s.tcp in
      let (k, answer) = pipe.read s.pipe (min buffer_size limit) in
      elim (FileDescriptor.read (λ size. answer) s.thread_data limit) [
        | none ↦ none
        | some (thread_data, bytes) ↦
            give_bytes (record s { thread_data = thread_data; pipe = k }) bytes
      ]

  abbrev pub wants_bytes : Socket A K → Bool
  wants_bytes s =
      s.tcp.active && not s.outbound_shutdown && ltb 0 (remaining_outbound_capacity s.tcp)

  -- Rule 3: bytes are in order for the application, or there will be no more.
  abbrev pub inbound_over : Socket A K → Bool
  inbound_over s = ByteStream.eof (inbound_stream s.tcp) || (inbound_stream s.tcp).error

  unfoldable pub shut_inbound : Socket A K → Option (Socket A K)
  shut_inbound s = elim (pipe.shut_wr s.pipe) [
    | none ↦ none
    | some k ↦
        some (record s {
          pipe = k;
          thread_data = register_write s.thread_data;
          inbound_shutdown = true;
        })
  ]

  -- What follows the `write` of rule 3.
  unfoldable pub after_write : Socket A K → Outcome K → Option (Socket A K)
  after_write s (returned k thread_data bytes_written) =
      let inbound = ByteStream.pop_output (inbound_stream s.tcp) bytes_written in
      let s' = record s {
        tcp = set_inbound_stream s.tcp inbound;
        pipe = k;
        thread_data = thread_data;
      } in
      if inbound_over s' then shut_inbound s' else some s'
  after_write s (thrown k thread_data) = none
  after_write s out_of_fuel = none

  abbrev pub amount_to_write : Socket A K → ℕ
  amount_to_write s = min 65536 (ByteStream.buffer_size (inbound_stream s.tcp))

  -- One turn of the loop of `write` is enough where not all has to be written.
  unfoldable pub bytes_out : Socket A K → Option (Socket A K)
  bytes_out s =
      let buffer = ByteStream.peek_output (inbound_stream s.tcp) (amount_to_write s) in
      after_write s
        (FileDescriptor.write pipe.writev 1 false s.pipe s.thread_data (of_string_view buffer))

  abbrev pub has_bytes : Socket A K → Bool
  has_bytes s =
      not (ByteStream.buffer_empty (inbound_stream s.tcp))
      || (inbound_over s && not s.inbound_shutdown)

  -- Rule 4: the connection has segments to send.
  unfoldable pub send_segments : A → List TcpSegment → Option A
  send_segments a [] = some a
  send_segments a (seg ∷ rest) = elim (ad.write a seg) [
    | none ↦ none
    | some a' ↦ send_segments a' rest
  ]

  unfoldable pub datagrams_out : Socket A K → Option (Socket A K)
  datagrams_out s = elim (send_segments s.adapter s.tcp.segments_out) [
    | none ↦ none
    | some adapter ↦
        some (record s { adapter = adapter; tcp = record (s.tcp) { segments_out = [] } })
  ]

  abbrev pub has_segments : Socket A K → Bool
  has_segments s = not (length s.tcp.segments_out == 0)

  -- The descriptors of the rules: that of the adapter, and `_thread_data`.
  abbrev pub fd_of : Socket A K → ℕ → FdWrapper
  fd_of s fd = if fd == 0 then adapter_fd s.adapter else s.thread_data

  -- The rules of `_initialize_TCP`.
  abbrev pub rule1 : Rule (Socket A K)
  rule1 = record {
    fd = 0;
    direction = input;
    callback = datagram_in;
    interest = λ s. s.tcp.active;
    cancel = λ s. some s;
  }

  abbrev pub rule2 : Rule (Socket A K)
  rule2 = record {
    fd = 1;
    direction = input;
    callback = bytes_in;
    interest = wants_bytes;
    cancel = λ s. some (end_outbound s);
  }

  abbrev pub rule3 : Rule (Socket A K)
  rule3 = record {
    fd = 1;
    direction = output;
    callback = bytes_out;
    interest = has_bytes;
    cancel = λ s. some s;
  }

  abbrev pub rule4 : Rule (Socket A K)
  rule4 = record {
    fd = 0;
    direction = output;
    callback = datagrams_out;
    interest = has_segments;
    cancel = λ s. some s;
  }

  abbrev pub rules : List (Rule (Socket A K))
  rules = rule1 ∷ rule2 ∷ rule3 ∷ rule4 ∷ []

-- How `_tcp_loop` ends, with the socket and the rules that are left; `running` is a loop whose next
-- timestamp is not given.
pub data LoopEnd (A K : Type 0) : Type 0 where
  stopped : Socket A K → List (Rule (Socket A K)) → LoopEnd A K
  running : Socket A K → List (Rule (Socket A K)) → LoopEnd A K
  crashed : LoopEnd A K

abbrev pub is_exit : Result → Bool
is_exit exit = true
is_exit _ = false

abbrev pub tcp_tick_ms : ℕ
tcp_tick_ms = 10

module _ {A K : Type 0} (ad : Adapter A) (adapter_fd : A → FdWrapper) (pipe : Pipe K)
    (poll : Socket A K → List Pollfd → ℕ → Socket A K × PollReturn) where
  -- The calls of `tick` in a turn.
  unfoldable pub tick_both : Socket A K → ℕ → Option (Socket A K)
  tick_both s ms = elim (TcpConnection.tick s.tcp ms) [
    | none ↦ none
    | some tcp ↦ elim (ad.tick_ms s.adapter ms) [
      | none ↦ none
      | some adapter ↦ some (record s { tcp = tcp; adapter = adapter })
    ]
  ]

  -- The end of a turn: the socket, and the time of the last tick.
  unfoldable pub pass_time : Socket A K → ℕ → ℕ → Option (Socket A K × ℕ)
  pass_time s base_time next_time =
      if s.tcp.active
      then elim (tick_both s (sub64 next_time base_time)) [
        | none ↦ none
        | some s' ↦ some (s', next_time)
      ]
      else some (s, base_time)

  abbrev pub wait :
      Socket A K
      → List (Rule (Socket A K))
      → Option (Socket A K × List (Rule (Socket A K)) × Result)
  wait s rs = wait_next_event (fd_of ad adapter_fd pipe) poll s rs tcp_tick_ms

  -- `_tcp_loop`, with what `timestamp_ms` returns in each turn.
  unfoldable pub tcp_loop :
      (Socket A K → Bool) → List ℕ → ℕ → Socket A K → List (Rule (Socket A K)) → LoopEnd A K
  tcp_loop condition [] base_time s rs = running s rs
  tcp_loop condition (next_time ∷ times) base_time s rs = elim (condition s) [
    | false ↦ stopped s rs
    | true ↦ elim (wait s rs) [
      | none ↦ crashed
      | some (s', rs', ret) ↦ elim (is_exit ret || s'.abort) [
        | true ↦ stopped s' rs'
        | false ↦ elim (pass_time s' base_time next_time) [
          | none ↦ crashed
          | some (s'', base_time') ↦ tcp_loop condition times base_time' s'' rs'
        ]
      ]
    ]
  ]

  -- `_initialize_TCP`, on an adapter and a pipe; `random` is the sender's initial sequence number.
  unfoldable pub initialize_tcp : TcpConfig → WrappingInt32 → A → FdWrapper → K → Socket A K
  initialize_tcp config random adapter thread_data k = record {
    tcp = TcpConnection.new config random;
    adapter = adapter;
    thread_data = thread_data;
    pipe = k;
    abort = false;
    inbound_shutdown = false;
    outbound_shutdown = false;
    fully_acked = false;
  }

  -- `_tcp->state() == state`
  abbrev pub is_state : State → Socket A K → Bool
  is_state state s = eq (TcpState.state s.tcp) (of_state state)

  -- `connect` of a socket without a connection, up to the thread that it starts.
  unfoldable pub connect : FdAdapterConfig → List ℕ → ℕ → Socket A K → LoopEnd A K
  connect c_ad times base_time s =
      let s' = record s {
        adapter = ad.set_config s.adapter c_ad;
        tcp = TcpConnection.connect s.tcp;
      } in
      if not (is_state syn_sent s')
      then crashed
      else tcp_loop (is_state syn_sent) times base_time s' (rules ad adapter_fd pipe)

  abbrev pub is_opening : Socket A K → Bool
  is_opening s = is_state listen s || is_state syn_rcvd s || is_state syn_sent s

  unfoldable pub listen_and_accept : FdAdapterConfig → List ℕ → ℕ → Socket A K → LoopEnd A K
  listen_and_accept c_ad times base_time s =
      let s' = record s { adapter = ad.set_listen (ad.set_config s.adapter c_ad) true } in
      tcp_loop is_opening times base_time s' (rules ad adapter_fd pipe)

  -- The loop of `_tcp_main`, with the rules that the first loop has left.
  unfoldable pub tcp_main : List ℕ → ℕ → Socket A K → List (Rule (Socket A K)) → LoopEnd A K
  tcp_main times base_time s rs = tcp_loop (λ s. true) times base_time s rs
