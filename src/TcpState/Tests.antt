-- ===== src/TcpState/Tests.antt =====
-- The theorems on the summaries at concrete inputs.
use sponge.Prelude.{◌≡◌, [], ◌∷◌, none, arith}
use sponge.WrappingInt32.{WrappingInt32}
use sponge.TcpConfig.{TcpConfig}
use sponge.TcpSender
use sponge.TcpSegment.{TcpSegment}
use sponge.TcpConnection.{new, connect, segment_received}
use sponge.TcpState.{State, of_state, state}
use sponge.TcpState.Handshake.{state-handshake}

abbrev cfg : TcpConfig
cfg = record { rt_timeout = 1000; recv_capacity = 10; send_capacity = 10; fixed_isn = none }

-- The highest number, so that the one behind it wraps.
abbrev highest : WrappingInt32
highest = record { raw_value = 4294967295 }

abbrev seven : WrappingInt32
seven = record { raw_value = 7 }

state-handshake_example :
    let a = connect (new cfg highest) in
    let b = new cfg seven in
    (syn : TcpSegment) × (syn_ack : TcpSegment) × (ack : TcpSegment) × (state b
      ≡ of_state State.listen)
    × (state a ≡ of_state State.syn_sent)
    × (a.segments_out ≡ syn ∷ [])
    × (state (segment_received b syn) ≡ of_state State.syn_rcvd)
    × ((segment_received b syn).segments_out ≡ syn_ack ∷ [])
    × (state (segment_received a syn_ack) ≡ of_state State.established)
    × ((segment_received a syn_ack).segments_out ≡ syn ∷ ack ∷ [])
    × (state (segment_received (segment_received b syn) ack) ≡ of_state State.established)
state-handshake_example =
    state-handshake cfg cfg highest seven (unfold new TcpSender.new in omega arith)
      (unfold new TcpSender.new in omega arith)
