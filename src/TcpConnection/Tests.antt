-- ===== src/TcpConnection/Tests.antt =====
-- tcp_connection.cc run on two endpoints, and the theorems at concrete inputs.
use sponge.Prelude.{◌+◌, ◌*◌, ◌≡◌, refl, true, false, [], ◌∷◌, map, none, some, ltb, arith}
use sponge.TcpConfig.{TcpConfig}
use sponge.TcpHeader
use sponge.TcpSegment.{TcpSegment}
use sponge.ByteStream
use sponge.StreamReassembler
use sponge.TcpReceiver
use sponge.TcpSender
use sponge.Timer
use sponge.Timer.{total}
use sponge.TcpSender.Armed.{IsArmed}
use sponge.TcpConnection.{TcpConnection, new, connect, unclean_shutdown}
use sponge.TcpConnection.Calls.{writes, ends, receives, ticks, run, run_defined}
use sponge.TcpConnection.Linger.{IsDone, run-lingers}

abbrev cfg : TcpConfig
cfg = record { rt_timeout = 1000; recv_capacity = 10; send_capacity = 10; fixed_isn = none }

abbrev client : TcpConnection
client = connect (new cfg (record { raw_value = 7 }))

abbrev server : TcpConnection
server = new cfg (record { raw_value = 70 })

abbrev syn : TcpSegment
syn = record {
  header = record TcpHeader.default { seqno = record { raw_value = 7 }; syn = true };
  payload = [];
}

abbrev reset : TcpSegment
reset = record { header = record TcpHeader.default { rst = true }; payload = [] }

run_defined_example :
    (t : TcpConnection) × (run server
        (receives syn ∷ ticks 500 ∷ writes (1 ∷ 2 ∷ []) ∷ ticks 500 ∷ ends ∷ [])
      ≡ some t)
    × IsArmed t.sender
run_defined_example =
    run_defined cfg (record { raw_value = 70 })
      (receives syn ∷ ticks 500 ∷ writes (1 ∷ 2 ∷ []) ∷ ticks 500 ∷ ends ∷ [])

abbrev over : TcpConnection
over = unclean_shutdown server false

-- Both sides have sent their FIN, and everything is acknowledged.
abbrev done : TcpConnection
done = record server {
  receiver = record (server.receiver) {
    reassembler = record (server.receiver.reassembler) {
      output = ByteStream.end_input server.receiver.reassembler.output;
    };
  };
  sender = record (server.sender) {
    stream = ByteStream.end_input server.sender.stream;
    next_seqno = 2;
    abs_ackno = 2;
    syn_sent = true;
    fin_sent = true;
  };
}

done-IsDone : IsDone done
unfolding new TcpReceiver.new TcpSender.new StreamReassembler.new ByteStream.new
    ByteStream.end_input Timer.new
done-IsDone = record {
  inbound = refl;
  outbound = refl;
  sent = refl;
  acked = refl;
  fin = refl;
  quiet = refl;
  idle = refl;
  pending = refl;
  calm = omega arith;
  linger = refl;
}

run-lingers_example :
    (t : TcpConnection) × (run done (map ticks (4000 ∷ 5999 ∷ 1 ∷ [])) ≡ some t)
    × (t.active
        ≡ ltb
            (done.time_since_last_segrecv + total (4000 ∷ 5999 ∷ 1 ∷ []))
            (10 * done.cfg.rt_timeout))
    × (t.segments_out ≡ done.segments_out)
run-lingers_example =
    run-lingers (4000 ∷ 5999 ∷ 1 ∷ []) done done-IsDone (unfold new in refl)
      (unfold new in omega arith) (unfold new in omega arith)
