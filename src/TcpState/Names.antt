-- ===== src/TcpState/Names.antt =====
-- The summaries tell the states of the specification apart.
use text.Mathlib.Text.{◌==◌ as str_eq}
use sponge.Prelude.{◌≡◌, refl, ap, ◌∙◌, sym, Option, some, if◌then◌else◌, eq_of_some}
use sponge.TcpState.ReceiverSummary
use sponge.TcpState.SenderSummary
use sponge.TcpState.{TcpState, State, of_state}

-- The state that a summary names, if it names one.
name : TcpState → Option State
name t =
    if str_eq t.receiver ReceiverSummary.error
    then some State.reset
    else if str_eq t.receiver ReceiverSummary.listen
    then (if str_eq t.sender SenderSummary.closed then some State.listen else some State.syn_sent)
    else if str_eq t.receiver ReceiverSummary.syn_recv
    then (if str_eq t.sender SenderSummary.syn_sent
        then some State.syn_rcvd
        else if str_eq t.sender SenderSummary.syn_acked
        then some State.established
        else if str_eq t.sender SenderSummary.fin_sent
        then some State.fin_wait_1
        else some State.fin_wait_2)
    else if str_eq t.sender SenderSummary.syn_acked
    then some State.close_wait
    else if str_eq t.sender SenderSummary.fin_sent
    then (if t.linger_after_streams_finish then some State.closing else some State.last_ack)
    else if t.active
    then some State.time_wait
    else some State.closed

name-of_state : (s : State) → name (of_state s) ≡ some s
unfolding name of_state
name-of_state State.listen = refl
name-of_state State.syn_rcvd = refl
name-of_state State.syn_sent = refl
name-of_state State.established = refl
name-of_state State.close_wait = refl
name-of_state State.last_ack = refl
name-of_state State.fin_wait_1 = refl
name-of_state State.fin_wait_2 = refl
name-of_state State.closing = refl
name-of_state State.time_wait = refl
name-of_state State.closed = refl
name-of_state State.reset = refl

-- Two states of the TCP specification with the same summary are the same state.
pub of_state-injective : (a b : State) → of_state a ≡ of_state b → a ≡ b
of_state-injective a b e = eq_of_some (sym (name-of_state a) ∙ ap name e ∙ name-of_state b)
