-- ===== src/TcpState/SenderSummary.antt =====
-- libsponge/tcp_helpers/tcp_state.hh: the strings of `TCPSenderStateSummary`.
use Prim.Native.String.{String}

abbrev pub error : String
error = "error (connection was reset)"

abbrev pub closed : String
closed = "waiting for stream to begin (no SYN sent)"

abbrev pub syn_sent : String
syn_sent = "stream started but nothing acknowledged"

abbrev pub syn_acked : String
syn_acked = "stream ongoing"

abbrev pub fin_sent : String
fin_sent = "stream finished (FIN sent) but not fully acknowledged"

abbrev pub fin_acked : String
fin_acked = "stream finished and fully acknowledged"
