-- ===== src/TcpSender/Chain.antt =====
-- Segments that follow one another in sequence space.
use sponge.Prelude.{ℕ, ◌+◌, ◌≤◌, ◌<◌, ◌≡◌, sym, List, [], ◌∷◌, ◌++◌, Bytes, length, arith, subst}
use sponge.WrappingInt32.{WrappingInt32, wrap}
use sponge.TcpConfig.{max_payload_size}
use sponge.TcpSegment.{TcpSegment, length_in_sequence_space}

-- The segments carry the sequence numbers from `n` up to `m`, without a gap and each with its own.
abbrev pub Chain : WrappingInt32 → ℕ → List TcpSegment → ℕ → Type 0
Chain isn n [] m = n ≡ m
Chain isn n (seg ∷ segs) m =
    (seg.header.seqno ≡ wrap n isn)
    × (0 < length_in_sequence_space seg)
    × Chain isn (n + length_in_sequence_space seg) segs m

-- The payloads, one behind the other.
abbrev pub payloads : List TcpSegment → Bytes
payloads [] = []
payloads (seg ∷ segs) = seg.payload ++ payloads segs

-- No payload is over the limit.
abbrev pub Within : List TcpSegment → Type 0
Within [] = Unit
Within (seg ∷ segs) = (length seg.payload ≤ max_payload_size) × Within segs

module _ (isn : WrappingInt32) where
  pub Chain-le : (segs : List TcpSegment) (n m : ℕ) → Chain isn n segs m → n ≤ m
  Chain-le [] n m c = omega arith
  Chain-le (seg ∷ segs) n m c =
      omega (arith, Chain-le segs (n + length_in_sequence_space seg) m c.2)

  pub Chain-append :
      (xs ys : List TcpSegment) (n m k : ℕ)
      → Chain isn n xs m
      → Chain isn m ys k
      → Chain isn n (xs ++ ys) k
  Chain-append [] ys n m k c d = subst (λ i. Chain isn i ys k) (sym c) d
  Chain-append (x ∷ xs) ys n m k c d =
      (c.0, c.1, Chain-append xs ys (n + length_in_sequence_space x) m k c.2 d)
