-- ===== src/TcpConnection/Over.antt =====
-- A connection that is over stays over.
use sponge.Prelude.{
  ℕ, ◌≡◌, refl, ◌∙◌, subst, true, false, List, [], ◌∷◌, Option, none, some, arith, if_both,
  eq_of_some, ltb,
}
use sponge.ByteStream
use sponge.TcpConfig.{max_retx_attempts}
use sponge.TcpSender
use sponge.TcpSender.{TcpSender, fill_window, send_empty_segment, ack_received}
use sponge.TcpConnection.{
  TcpConnection, send_all, follow_prereq, no_linger, put_rst, send_rst, kill, unclean_shutdown,
  finish, after_tick, tick, segment_received, write, end_input_stream, connect,
}
use sponge.TcpConnection.Dispatch.{send_all_lem}
use sponge.TcpConnection.Calls.{Call, connects, writes, ends, receives, ticks, serve, run}

-- The connection `t` is over, and its receiver stands where that of `c` stood.
pub record StillOver (c t : TcpConnection) : Type 0 where
  pub inactive : t.active ≡ false
  pub isn : t.receiver.isn ≡ c.receiver.isn
  pub ackno : t.receiver.ackno ≡ c.receiver.ackno
  pub first_unassembled :
      t.receiver.reassembler.first_unassembled ≡ c.receiver.reassembler.first_unassembled
  pub buffer : t.receiver.reassembler.output.buffer ≡ c.receiver.reassembler.output.buffer

module _ (c : TcpConnection) where
  send_all-StillOver : (u : TcpConnection) → StillOver c u → StillOver c (send_all u)
  send_all-StillOver u v = rw (send_all_lem u) (ground (arith, v))

  unclean_shutdown-StillOver :
      (u : TcpConnection) → StillOver c u → StillOver c (unclean_shutdown u true)
  unfolding unclean_shutdown kill send_rst ByteStream.set_error
  unclean_shutdown-StillOver u v =
      let w =
        send_all-StillOver (record u { sender = put_rst (fill_window u.sender) })
          (ground (arith, v)) in
      ground (arith, w)

  finish-StillOver : (u : TcpConnection) → StillOver c u → StillOver c (finish u)
  unfolding finish follow_prereq no_linger
  finish-StillOver u v = ground (arith, v)

  after_tick-StillOver : (u : TcpConnection) → StillOver c u → StillOver c (after_tick u)
  unfolding after_tick
  after_tick-StillOver u v =
      if_both (StillOver c) (ltb max_retx_attempts u.sender.consecutive_retransmissions)
        (unclean_shutdown-StillOver u v)
        (finish-StillOver _ (
          send_all-StillOver _ (
            if_both (StillOver c) u.sender.syn_sent {x = record u { sender = fill_window u.sender }}
              {y = u} (ground (arith, v)) v)))

  ticked :
      (o : Option TcpSender) (t : TcpConnection) (now : ℕ)
      → c.active ≡ false
      → (elim o [
        | none ↦ none
        | some s ↦ some (after_tick (record c { sender = s; time_since_last_segrecv = now }))
      ])
        ≡ some t
      → StillOver c t
  ticked none t now h e = cc
  ticked (some s) t now h e =
      subst (StillOver c) (eq_of_some e) (after_tick-StillOver _ (ground arith))

  serve-StillOver :
      (k : Call) (t : TcpConnection) → c.active ≡ false → serve c k ≡ some t → StillOver c t
  unfolding serve connect write end_input_stream segment_received tick
  serve-StillOver connects t h e =
      subst (StillOver c) (eq_of_some e) (send_all-StillOver _ (ground arith))
  serve-StillOver (writes text) t h e =
      subst (StillOver c) (eq_of_some e) (send_all-StillOver _ (ground arith))
  serve-StillOver ends t h e =
      subst (StillOver c) (eq_of_some e) (send_all-StillOver _ (ground arith))
  serve-StillOver (receives seg) t h e = ground arith
  serve-StillOver (ticks ms) t h e = ticked (TcpSender.tick c.sender ms) t _ h e

StillOver-trans : {c t u : TcpConnection} → StillOver c t → StillOver t u → StillOver c u
StillOver-trans v w = record {
  inactive = w.inactive;
  isn = w.isn ∙ v.isn;
  ackno = w.ackno ∙ v.ackno;
  first_unassembled = w.first_unassembled ∙ v.first_unassembled;
  buffer = w.buffer ∙ v.buffer;
}

run_step :
    (o : Option TcpConnection) (ks : List Call) (u : TcpConnection)
    → (elim o [ none ↦ none | some t ↦ run t ks ]) ≡ some u
    → (t : TcpConnection) × (o ≡ some t) × (run t ks ≡ some u)
run_step none ks u e = cc
run_step (some t) ks u e = (t, refl, e)

-- A connection that is not active stays so whatever sequence of calls is made on it, and its
-- receiver takes in and acknowledges nothing more.
pub run-StillOver :
    (ks : List Call) (c t : TcpConnection) → c.active ≡ false → run c ks ≡ some t → StillOver c t
unfolding run
run-StillOver [] c t h e = subst (StillOver c) (eq_of_some e) (ground arith)
run-StillOver (k ∷ ks) c u h e =
    let (t, p, q) = run_step (serve c k) ks u e in
    let v = serve-StillOver c k t h p in StillOver-trans v (run-StillOver ks t u v.inactive q)
