-- ===== src/TcpState/Course.antt =====
-- The summaries at the ends of a connection's life.
use sponge.Prelude.{◌≡◌, refl, Bool}
use sponge.WrappingInt32.{WrappingInt32}
use sponge.ByteStream
use sponge.StreamReassembler
use sponge.TcpConfig.{TcpConfig}
use sponge.TcpReceiver
use sponge.TcpSender
use sponge.TcpConnection.{TcpConnection, new, connect, send_all, dispatch, unclean_shutdown, kill}
use sponge.TcpState.{State, of_state, state}

-- For any configuration and initial number, the summary of a new connection is that of LISTEN,
-- and after connect it is that of SYN_SENT.
pub state-connect :
    (cfg : TcpConfig) (random : WrappingInt32)
    → let c = new cfg random in
      (state c ≡ of_state State.listen) × (state (connect c) ≡ of_state State.syn_sent)
unfolding state of_state new connect send_all dispatch TcpReceiver.new TcpSender.new
    StreamReassembler.new ByteStream.new TcpSender.fill_window TcpSender.send_syn TcpSender.transmit
    TcpSender.make_segment
state-connect cfg random = (refl, refl)

-- After an unclean shutdown, whether a reset was sent or received, the summary of the connection
-- is that of RESET.
pub state-unclean_shutdown :
    (c : TcpConnection) (rst : Bool) → state (unclean_shutdown c rst) ≡ of_state State.reset
unfolding state of_state unclean_shutdown kill ByteStream.set_error
state-unclean_shutdown c rst = refl
