-- ===== src/TcpState/ReceiverSummary.antt =====
-- libsponge/tcp_helpers/tcp_state.hh: the strings of `TCPReceiverStateSummary`.
use Prim.Native.String.{String}

abbrev pub error : String
error = "error (connection was reset)"

abbrev pub listen : String
listen = "waiting for SYN: ackno is empty"

abbrev pub syn_recv : String
syn_recv = "SYN received (ackno exists), and input to stream hasn't ended"

abbrev pub fin_recv : String
fin_recv = "input to stream has ended"
