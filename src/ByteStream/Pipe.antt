-- ===== src/ByteStream/Pipe.antt =====
-- What byte_stream.hh promises, without the buffer: a bounded pipe is the whole text that was ever
-- accepted, with the number of bytes that the reader has taken off its front.
use sponge.Prelude.{
  ℕ, ◌+◌, ◌-◌, Bool, true, ◌||◌, List, [], ◌∷◌, ◌++◌, Bytes, length, take, drop, min, if◌then◌else◌,
}
use sponge.ByteStream.{Call, writes, reads, peeks, pops, ends, fails, Reply, count, text, done}

pub record Pipe : Type 0 where
  pub accepted : Bytes
  pub taken : ℕ
  pub ended : Bool
  pub failed : Bool

-- What was accepted and not yet taken.
abbrev pub pending : Pipe → Bytes
pending p = drop p.taken p.accepted

abbrev pub room : ℕ → Pipe → ℕ
room cap p = cap - (length p.accepted - p.taken)

-- One call, on a pipe that holds `cap` bytes at most.
unfoldable pub step : ℕ → Pipe → Call → Pipe × Reply
step cap p (writes xs) = if p.ended || p.failed then (p, count 0) else (
  record p { accepted = p.accepted ++ take (room cap p) xs },
  count (min (room cap p) (length xs)),
)
step cap p (reads n) = if p.failed then (p, text []) else (
  record p { taken = p.taken + min n (length p.accepted - p.taken) },
  text (take n (pending p)),
)
step cap p (peeks n) = (p, text (take n (pending p)))
step cap p (pops n) = (record p { taken = p.taken + min n (length p.accepted - p.taken) }, done)
step cap p ends = (record p { ended = true }, done)
step cap p fails = (record p { failed = true }, done)

unfoldable pub run : ℕ → Pipe → List Call → Pipe × List Reply
run cap p [] = (p, [])
run cap p (c ∷ cs) = let (q, r) = step cap p c in let (q', rs) = run cap q cs in (q', r ∷ rs)
