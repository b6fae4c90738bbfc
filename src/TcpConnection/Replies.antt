-- ===== src/TcpConnection/Replies.antt =====
-- What a connection sends back for a segment.
use sponge.Prelude.{◌≡◌, ◌≢◌, List, [], ◌++◌}
use sponge.TcpSegment.{TcpSegment}
use sponge.TcpReceiver
use sponge.TcpReceiver.{TcpReceiver}
use sponge.TcpSender.{TcpSender}
use sponge.TcpConnection.{TcpConnection}
use sponge.TcpConnection.Dispatch.{AllStamped}

-- The connection `t` has sent these segments since `c`, and nothing is left to send.
pub record Replied (c t : TcpConnection) (segs : List TcpSegment) : Type 0 where
  pub out : t.segments_out ≡ c.segments_out ++ segs
  pub stamped : AllStamped t.receiver segs
  pub some_sent : segs ≢ []
  pub flushed : t.sender.segments_out ≡ []
