-- ===== src/TcpConnection/Dispatch.antt =====
-- What `send_all` puts on the outbound queue.
use sponge.Prelude.{
  ◌≡◌, ◌-◌, ◌^◌, min, length, sub64, ap, ◌∙◌, sym, true, List, [], ◌∷◌, ◌++◌, map, none, some,
  arith, ◌⊎◌, append-nil, append_assoc,
}
use sponge.TcpSegment.{TcpSegment}
use sponge.TcpReceiver.{TcpReceiver, window_size}
use sponge.TcpConnection.{TcpConnection, handle_sender_segment, dispatch, send_all}

-- The header has the receiver's window and, once there is one, its acknowledgment.
pub record IsStamped (r : TcpReceiver) (seg : TcpSegment) : Type 0 where
  pub window :
      seg.header.win ≡ min (2 ^ 16 - 1) (sub64 r.capacity (length r.reassembler.output.buffer))
  pub acked : (r.ackno ≡ none) ⊎ ((seg.header.ack ≡ true) × (some (seg.header.ackno) ≡ r.ackno))

abbrev pub AllStamped : TcpReceiver → List TcpSegment → Type 0
AllStamped r [] = Unit
AllStamped r (seg ∷ segs) = IsStamped r seg × AllStamped r segs

handle-IsStamped : (r : TcpReceiver) (seg : TcpSegment) → IsStamped r (handle_sender_segment r seg)
unfolding handle_sender_segment window_size
handle-IsStamped r seg = ground arith

pub map-AllStamped :
    (r : TcpReceiver) (segs : List TcpSegment) → AllStamped r (map (handle_sender_segment r) segs)
map-AllStamped r [] = tt
map-AllStamped r (seg ∷ segs) = (handle-IsStamped r seg, map-AllStamped r segs)

dispatch_lem :
    (c : TcpConnection) (segs : List TcpSegment)
    → dispatch c segs ≡ record c {
      segments_out = c.segments_out ++ map (handle_sender_segment c.receiver) segs;
      sender = record (c.sender) { segments_out = [] };
    }
unfolding dispatch
dispatch_lem c [] =
    ap (λ q. record c { segments_out = q; sender = record (c.sender) { segments_out = [] } })
      (sym (append-nil c.segments_out))
dispatch_lem c (seg ∷ segs) =
    dispatch_lem
      (record c { segments_out = c.segments_out ++ handle_sender_segment c.receiver seg ∷ [] }) segs
    ∙ ap (λ q. record c { segments_out = q; sender = record (c.sender) { segments_out = [] } })
        (append_assoc c.segments_out (handle_sender_segment c.receiver seg ∷ [])
          (map (handle_sender_segment c.receiver) segs))

-- `send_all` empties the sender's queue behind its own, and changes nothing else.
pub send_all_lem :
    (c : TcpConnection)
    → send_all c ≡ record c {
      segments_out = c.segments_out ++ map (handle_sender_segment c.receiver) c.sender.segments_out;
      sender = record (c.sender) { segments_out = [] };
    }
unfolding send_all
send_all_lem c = dispatch_lem c c.sender.segments_out
