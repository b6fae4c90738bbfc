-- ===== src/NetworkInterface/Flushing.antt =====
-- The queue of the datagrams that wait for an address: the `while` of `recv_frame`.
use sponge.Prelude.{
  ℕ, ◌≡◌, refl, ap, ◌∙◌, sym, List, [], ◌∷◌, ◌++◌, append_assoc, append-nil, inl, inr, none, some,
  All, Option-cases, arith, Bytes,
}
use sponge.EthernetHeader.{EthernetAddress, type_ipv4}
use sponge.EthernetHeader.RoundTrip.{IsAddress}
use sponge.EthernetFrame.{EthernetFrame}
use sponge.Address.{Address}
use sponge.Ipv4Datagram
use sponge.Ipv4Datagram.{Ipv4Datagram}
use sponge.Ipv4Datagram.RoundTrip.{IsDatagram, parse-serialize_datagram}
use sponge.NetworkInterface.{NetworkInterface, find, flush, no_datagram}
use sponge.NetworkInterface.Sending.{
  IsInterface, frame_to, find-All, push_frame_lem, send_frame_lem,
}

-- The frames that carry waiting datagrams, each to the address that the map has for its next hop.
module _ (card : EthernetAddress) (ip_map : List (ℕ × (EthernetAddress × ℕ))) where
  pub record Carries (e : Ipv4Datagram × Address) (f : EthernetFrame) : Type 0 where
    pub entry : EthernetAddress × ℕ
    pub known : find ip_map (e.1.ipv4_numeric) ≡ some entry
    pub payload : Bytes
    pub written : Ipv4Datagram.serialize (e.0) ≡ some payload
    pub frame : f ≡ record {
      header = record { dst = entry.0; src = card; type = type_ipv4 };
      payload = payload;
    }

  pub data Carried : List (Ipv4Datagram × Address) → List EthernetFrame → Type 0 where
    no_more : Carried [] []
    carries :
        {e : Ipv4Datagram × Address} {f : EthernetFrame} {sent : List (Ipv4Datagram × Address)}
        {fs : List EthernetFrame}
        → Carries e f
        → Carried sent fs
        → Carried (e ∷ sent) (f ∷ fs)

  -- The queue is empty, or the next hop of its first datagram is not known.
  abbrev pub Stopped : List (Ipv4Datagram × Address) → Type 0
  Stopped [] = Unit
  Stopped (e ∷ rest) = find ip_map (e.1.ipv4_numeric) ≡ none

-- What the `while` has sent off the queue.
pub record Flushed (n : NetworkInterface) (queue : List (Ipv4Datagram × Address))
    (t : NetworkInterface) : Type 0 where
  pub sent : List (Ipv4Datagram × Address)
  pub frames : List EthernetFrame
  pub split : queue ≡ sent ++ t.frames_waited
  pub carried : Carried n.ethernet_address n.ip_map sent frames
  pub stopped : Stopped n.ethernet_address n.ip_map t.frames_waited
  pub result : t ≡ record n { frames_out = n.frames_out ++ frames; frames_waited = t.frames_waited }

pub flush-Flushed :
    (n : NetworkInterface) (queue : List (Ipv4Datagram × Address))
    → IsInterface n
    → All (λ e. IsDatagram (e.0)) queue
    → (t : NetworkInterface) × (flush n queue ≡ some t) × Flushed n queue t
unfolding flush
flush-Flushed n [] v d = (
  _,
  refl,
  record {
    sent = [];
    frames = [];
    split = refl;
    carried = no_more;
    stopped = tt;
    result =
        ap (λ q. record n { frames_out = q; frames_waited = [] }) (sym (append-nil n.frames_out));
  },
)
flush-Flushed n ((dgram, next_hop) ∷ rest) v d =
    elim (Option-cases (find n.ip_map next_hop.ipv4_numeric)) [
      | inl unknown ↦ (
        record n { frames_waited = (dgram, next_hop) ∷ rest },
        rw (unknown, flush) refl,
        record {
          sent = [];
          frames = [];
          split = refl;
          carried = no_more;
          stopped = unknown;
          result =
              ap (λ q. record n { frames_out = q; frames_waited = (dgram, next_hop) ∷ rest })
                (sym (append-nil n.frames_out));
        },
      )
      | inr (entry, known) ↦
          let (s, c, written, head, back) = parse-serialize_datagram dgram (d.0) no_datagram in
          let mac =
            find-All (λ (e : EthernetAddress × ℕ). IsAddress (e.0)) n.ip_map next_hop.ipv4_numeric
              entry v.mappings known in
          let f = frame_to n entry.0 type_ipv4 s in
          let sent =
            send_frame_lem n dgram entry.0 s written
            ∙ ap some (push_frame_lem n entry.0 type_ipv4 s v mac (omega arith)) in
          let n' = record n { frames_out = n.frames_out ++ f ∷ [] } in
          let (t, e, r) =
            flush-Flushed n' rest (record { card = v.card; ip = v.ip; mappings = v.mappings })
              (d.1) in
          (
            t,
            rw (known, flush) (rw (sent, flush) e),
            record {
              sent = (dgram, next_hop) ∷ r.sent;
              frames = f ∷ r.frames;
              split = ap (◌∷◌ (dgram, next_hop)) r.split;
              carried =
                  carries
                    (record {
                      entry = entry;
                      known = known;
                      payload = s;
                      written = written;
                      frame = refl;
                    })
                    r.carried;
              stopped = r.stopped;
              result =
                  r.result
                  ∙ ap (λ q. record n { frames_out = q; frames_waited = t.frames_waited })
                      (append_assoc n.frames_out (f ∷ []) r.frames);
            },
          )
    ]
