-- ===== src/FdAdapter/Lossy/Tests.antt =====
-- A lossy adapter over a list of segments, with a generator that counts.
use sponge.Prelude.{ℕ, ◌+◌, ◌*◌, ◌≡◌, refl, List, [], ◌∷◌, Option, none, some}
use sponge.TcpHeader
use sponge.TcpSegment.{TcpSegment}
use sponge.FdAdapter.{Adapter, default_config}
use sponge.FdAdapter.Lossy.{LossyFdAdapter, read, drop_at, should_drop, lossy}
use sponge.FdAdapter.Lossy.Thinning.{reads, Lossless, reads-Thinned}

abbrev segment : ℕ → TcpSegment
segment n = record { header = TcpHeader.default; payload = n ∷ [] }

-- Segments that arrive at an adapter that loses about half of what it reads.
abbrev Inbox : Type 0
Inbox = List TcpSegment

abbrev next_segment : Inbox → Option (Inbox × Option TcpSegment)
next_segment [] = some ([], none)
next_segment (seg ∷ rest) = some (rest, some seg)

abbrev inbox : Adapter Inbox
inbox = record {
  config_of = λ a. record default_config { loss_rate_dn = 32768 };
  set_config = λ a cfg. a;
  set_listen = λ a on. a;
  read = next_segment;
  write = λ a seg. some a;
  tick_ms = λ a ms. some a;
}

abbrev generator : ℕ → ℕ × ℕ
generator n = (n * 20000, n + 1)

abbrev start : LossyFdAdapter ℕ Inbox
start = record { rand = 1; adapter = segment 1 ∷ segment 2 ∷ segment 3 ∷ [] }

some_lost :
    reads (lossy generator inbox) 3 start
    ≡ some (record { rand = 4; adapter = [] }, segment 2 ∷ segment 3 ∷ [])
unfolding reads read should_drop drop_at
some_lost = refl

reads-Thinned_example :
    Lossless generator inbox (reads (lossy generator inbox) 3 start) (reads inbox 3 start.adapter)
reads-Thinned_example = reads-Thinned generator inbox 3 start
