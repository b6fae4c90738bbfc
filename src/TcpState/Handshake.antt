-- ===== src/TcpState/Handshake.antt =====
-- The handshake of two connections, and the summaries at both ends.
use sponge.Prelude.{◌≡◌, [], arith, ap, ◌∙◌, sym, subst, ◌++◌, ◌∷◌, ℕ}
use sponge.WrappingInt32.{WrappingInt32, wrap}
use sponge.WrappingInt32.RoundTrip.{IsWord}
use sponge.TcpConfig.{TcpConfig}
use sponge.TcpSegment.{TcpSegment}
use sponge.TcpConnection.{new, connect, segment_received}
use sponge.TcpState.Course.{state-connect}
use sponge.TcpState.Transitions.{passive, answered}
use sponge.TcpState.Acknowledged.{acknowledged}
use sponge.TcpState.Segments.{connect_out, passive_out, served, client_out}
use sponge.TcpState.{State, of_state, state}

wrap-wrap : (isn : WrappingInt32) → IsWord isn → wrap 1 (wrap 0 isn) ≡ wrap 1 isn
unfolding wrap
wrap-wrap isn w = ap (λ n. record { raw_value = n }) (omega arith)

wrap-IsWord : (n : ℕ) (isn : WrappingInt32) → IsWord (wrap n isn)
unfolding wrap
wrap-IsWord n isn = omega arith

-- For any two configurations and two initial numbers below 2 ^ 32, the three segments of the
-- handshake take both connections to ESTABLISHED: one that has called connect is in SYN_SENT and
-- its queue holds exactly a SYN; a new one is in LISTEN, and after that SYN in SYN_RCVD with
-- exactly one segment on its queue; with that one the first goes to ESTABLISHED and queues
-- exactly one more, and with that the second does.
pub state-handshake :
    (cfg cfg' : TcpConfig) (random random' : WrappingInt32)
    → IsWord (new cfg random).sender.isn
    → IsWord (new cfg' random').sender.isn
    → let a = connect (new cfg random) in
      let b = new cfg' random' in
      (syn : TcpSegment) × (syn_ack : TcpSegment) × (ack : TcpSegment) × (state b
        ≡ of_state State.listen)
      × (state a ≡ of_state State.syn_sent)
      × (a.segments_out ≡ syn ∷ [])
      × (state (segment_received b syn) ≡ of_state State.syn_rcvd)
      × ((segment_received b syn).segments_out ≡ syn_ack ∷ [])
      × (state (segment_received a syn_ack) ≡ of_state State.established)
      × ((segment_received a syn_ack).segments_out ≡ syn ∷ ack ∷ [])
      × (state (segment_received (segment_received b syn) ack) ≡ of_state State.established)
state-handshake cfg cfg' random random' w w' =
    let a = connect (new cfg random) in
    let own_isn = (new cfg random).sender.isn in
    let peer_isn = (new cfg' random').sender.isn in
    let (syn, out, own, no_ack) = connect_out cfg random in
    let (syn_ack, out', own', acks, ackno) = passive_out cfg' random' syn own.shape no_ack in
    let (ack, out'', is_ack, number, ackno') = client_out cfg random syn_ack own'.shape acks in
    let first = ackno ∙ ap (wrap 1) own.number ∙ wrap-wrap own_isn w in
    let b = segment_received (new cfg' random') syn in
    let peer_word : IsWord syn.header.seqno =
      subst IsWord (sym own.number) (wrap-IsWord 0 own_isn) in
    (
      syn,
      syn_ack,
      ack,
      (state-connect cfg' random').0,
      (state-connect cfg random).1,
      out,
      passive cfg' random' syn own.shape no_ack,
      out',
      answered cfg random syn_ack own'.shape acks w first,
      out'' ∙ ap (λ q. q ++ ack ∷ []) out,
      acknowledged b ack cfg'.recv_capacity syn.header.seqno peer_isn
          (served cfg' random' syn own.shape no_ack) peer_word w' is_ack
          (number ∙ sym (ap (wrap 1) own.number ∙ wrap-wrap own_isn w))
          (ackno' ∙ ap (wrap 1) own'.number ∙ wrap-wrap peer_isn w'),
    )
