-- ===== src/TcpConnection/Lifetime.antt =====
-- How a connection ends.
use sponge.Prelude.{◌≡◌, refl, ap, ◌∙◌, true, false, List, [], ◌∷◌, ◌++◌, map, arith}
use sponge.ByteStream
use sponge.TcpSegment.{TcpSegment}
use sponge.TcpReceiver
use sponge.TcpSender.{TcpSender, make_segment, fill_window, send_empty_segment}
use sponge.TcpConnection.{
  TcpConnection, handle_sender_segment, take_in, put_rst, send_rst, kill, unclean_shutdown,
  segment_received,
}
use sponge.TcpConnection.Dispatch.{send_all_lem}

-- Both streams are in the error state, and the connection is over.
pub record IsReset (c : TcpConnection) : Type 0 where
  pub inactive : c.active ≡ false
  pub inbound : c.receiver.reassembler.output.error ≡ true
  pub outbound : c.sender.stream.error ≡ true

-- A segment with the RST flag went out since `c`.
pub record SentRst (c t : TcpConnection) : Type 0 where
  pub first : TcpSegment
  pub rest : List TcpSegment
  pub flagged : first.header.rst ≡ true
  pub out : t.segments_out ≡ c.segments_out ++ first ∷ rest

-- The flag survives the stamping.
rst-handle_sender_segment :
    (r : TcpReceiver.TcpReceiver) (seg : TcpSegment)
    → (handle_sender_segment r seg).header.rst ≡ seg.header.rst
unfolding handle_sender_segment
rst-handle_sender_segment r seg = ground arith

put_rst_first :
    (s : TcpSender) (q : List TcpSegment)
    → s.segments_out ≡ q
    → (first : TcpSegment) × (rest : List TcpSegment) × (first.header.rst ≡ true)
      × ((put_rst s).segments_out ≡ first ∷ rest)
unfolding put_rst send_empty_segment make_segment
put_rst_first s [] e =
    let seg = make_segment s s.next_seqno false false [] in
    let reset = record seg { header = record (seg.header) { rst = true } } in
    (reset, [], refl, rw (e, put_rst) (ap (λ q. q ++ reset ∷ []) e))
put_rst_first s (seg ∷ rest) e =
    (record seg { header = record (seg.header) { rst = true } }, rest, refl, rw (e, put_rst))

send_rst-SentRst : (c : TcpConnection) → SentRst c (send_rst c)
unfolding send_rst
send_rst-SentRst c =
    let (first, rest, flagged, e) =
      put_rst_first (fill_window c.sender) (fill_window c.sender).segments_out refl in
    let stamp = handle_sender_segment c.receiver in
    rw (send_all_lem (record c { sender = put_rst (fill_window c.sender) })) (record {
      first = stamp first;
      rest = map stamp rest;
      flagged = rst-handle_sender_segment c.receiver first ∙ flagged;
      out = ap (λ q. c.segments_out ++ map stamp q) e;
    })

-- An unclean shutdown that sends a reset leaves the connection inactive with both streams in the
-- error state, and the first segment that it sends has the RST flag.
pub unclean_shutdown_lem :
    (c : TcpConnection) → IsReset (unclean_shutdown c true) × SentRst c (unclean_shutdown c true)
unfolding unclean_shutdown kill ByteStream.set_error
unclean_shutdown_lem c =
    let v = send_rst-SentRst c in
    (
      record { inactive = refl; inbound = refl; outbound = refl },
      record { first = v.first; rest = v.rest; flagged = v.flagged; out = v.out },
    )

-- A segment with RST leaves an active connection inactive with both streams in the error state,
-- and nothing is sent for it.
pub segment_received-rst :
    (c : TcpConnection) (seg : TcpSegment)
    → c.active ≡ true
    → seg.header.rst ≡ true
    → let t = segment_received c seg in IsReset t × (t.segments_out ≡ c.segments_out)
unfolding segment_received unclean_shutdown kill take_in ByteStream.set_error
segment_received-rst c seg alive rst = ground arith
