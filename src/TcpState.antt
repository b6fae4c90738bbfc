-- ===== src/TcpState.antt =====
-- libsponge/tcp_helpers/tcp_state.hh and tcp_state.cc: the state of a connection in words, and the
-- states of the TCP specification that it is compared with.
pub mod ReceiverSummary
pub mod SenderSummary
pub mod Names
pub mod Course
pub mod Opening
pub mod Transitions
pub mod Acknowledged
pub mod Segments
pub mod Handshake
mod Tests
use text.Mathlib.Text.{◌==◌ as str_eq}
use Prim.Native.String.{String}
use sponge.Prelude.{ℕ, Bool, true, false, ◌&&◌, not, none, some, ltb, ◌==◌, if◌then◌else◌, add64}
use sponge.ByteStream
use sponge.TcpReceiver.{TcpReceiver}
use sponge.TcpSender.{TcpSender, bytes_in_flight}
use sponge.TcpConnection.{TcpConnection}
use sponge.TcpState.ReceiverSummary
use sponge.TcpState.SenderSummary

pub record TcpState : Type 0 where
  pub sender : String
  pub receiver : String
  pub active : Bool
  pub linger_after_streams_finish : Bool

-- `enum class State`
pub data State : Type 0 where
  listen syn_rcvd syn_sent established close_wait last_ack fin_wait_1 fin_wait_2 closing time_wait
        closed reset :
      State

bool_eq : Bool → Bool → Bool
bool_eq true b = b
bool_eq false b = not b

unfoldable pub eq : TcpState → TcpState → Bool
unfolding bool_eq
eq a b =
    bool_eq a.active b.active
    && bool_eq a.linger_after_streams_finish b.linger_after_streams_finish
    && str_eq a.sender b.sender
    && str_eq a.receiver b.receiver

abbrev summarize : String → String → Bool → Bool → TcpState
summarize receiver sender active linger = record {
  sender = sender;
  receiver = receiver;
  active = active;
  linger_after_streams_finish = linger;
}

-- `TCPState(const TCPState::State state)`
unfoldable pub of_state : State → TcpState
of_state listen = summarize ReceiverSummary.listen SenderSummary.closed true true
of_state syn_rcvd = summarize ReceiverSummary.syn_recv SenderSummary.syn_sent true true
of_state syn_sent = summarize ReceiverSummary.listen SenderSummary.syn_sent true true
of_state established = summarize ReceiverSummary.syn_recv SenderSummary.syn_acked true true
of_state close_wait = summarize ReceiverSummary.fin_recv SenderSummary.syn_acked true false
of_state last_ack = summarize ReceiverSummary.fin_recv SenderSummary.fin_sent true false
of_state closing = summarize ReceiverSummary.fin_recv SenderSummary.fin_sent true true
of_state fin_wait_1 = summarize ReceiverSummary.syn_recv SenderSummary.fin_sent true true
of_state fin_wait_2 = summarize ReceiverSummary.syn_recv SenderSummary.fin_acked true true
of_state time_wait = summarize ReceiverSummary.fin_recv SenderSummary.fin_acked true true
of_state reset = summarize ReceiverSummary.error SenderSummary.error false false
of_state closed = summarize ReceiverSummary.fin_recv SenderSummary.fin_acked false false

-- `state_summary` of a receiver.
unfoldable pub receiver_summary : TcpReceiver → String
receiver_summary r = if r.reassembler.output.error then ReceiverSummary.error else elim r.ackno [
  | none ↦ ReceiverSummary.listen
  | some _ ↦
      if ByteStream.input_ended r.reassembler.output
      then ReceiverSummary.fin_recv
      else ReceiverSummary.syn_recv
]

-- `state_summary` of a sender.
unfoldable pub sender_summary : TcpSender → String
sender_summary s =
    if s.stream.error
    then SenderSummary.error
    else if s.next_seqno == 0
    then SenderSummary.closed
    else if s.next_seqno == bytes_in_flight s
    then SenderSummary.syn_sent
    else if not (ByteStream.eof s.stream)
    then SenderSummary.syn_acked
    else if ltb s.next_seqno (add64 s.stream.bytes_written 2)
    then SenderSummary.syn_acked
    else if not (bytes_in_flight s == 0)
    then SenderSummary.fin_sent
    else SenderSummary.fin_acked

-- `TCPState(sender, receiver, active, linger)`
unfoldable pub of_parts : TcpSender → TcpReceiver → Bool → Bool → TcpState
of_parts s r active linger = record {
  sender = sender_summary s;
  receiver = receiver_summary r;
  active = active;
  linger_after_streams_finish = if active then linger else false;
}

-- `TCPConnection::state`
unfoldable pub state : TcpConnection → TcpState
unfolding of_parts sender_summary receiver_summary
state c = of_parts c.sender c.receiver c.active c.linger_after_streams_finish
