-- ===== src/StreamReassembler/Loop.antt =====
-- The loop of `push_substring` ends by its own test, from any state.
use sponge.Prelude.{
  ℕ, zero, suc, ◌+◌, ◌<◌, ◌≡◌, Bool, List, [], ◌∷◌, none, some, Bytes, length, arith, Option-cases,
  inl, inr,
}
use sponge.StreamReassembler.{
  StreamReassembler, push_onestr, emit, check_end, scan, read_out, push_substring, accept,
}
use sponge.StreamReassembler.Substrings.{Substring, All, In, All-In, length-erase}

mapbuffer-push_onestr :
    (r : StreamReassembler) (b : Bytes) (i : ℕ) → (push_onestr r b i).1.mapbuffer ≡ r.mapbuffer
unfolding push_onestr emit check_end
mapbuffer-push_onestr r b i = ground arith

-- A pass that uses a substring takes it out.
scan_shorter :
    (r : StreamReassembler) (es : List Substring) (t : StreamReassembler)
    → All (In r.mapbuffer) es
    → scan r es ≡ some t
    → length t.mapbuffer + 1 ≡ length r.mapbuffer
unfolding scan
scan_shorter r [] t m h = ground arith
scan_shorter r (e ∷ es) t m h = ground (
  arith,
  mapbuffer-push_onestr r e.bytes e.index,
  length-erase e r.mapbuffer m.0,
  scan_shorter r es t m.1,
)

read_out_stops :
    (fuel : ℕ) (r : StreamReassembler)
    → length r.mapbuffer < fuel
    → let t = read_out fuel r in scan t t.mapbuffer ≡ none
unfolding read_out
read_out_stops zero r h = absurd (omega arith)
read_out_stops (suc fuel) r h = elim (Option-cases (scan r r.mapbuffer)) [
  | inl e ↦ rw (e, read_out) e
  | inr (t, e) ↦
      rw (e, read_out)
        (read_out_stops fuel t (omega (arith, scan_shorter r r.mapbuffer t (All-In r.mapbuffer) e)))
]

-- For any reassembler and substring, the loop of push_substring has rounds enough: it ends with a
-- pass over the waiting substrings that uses none of them.
pub push_substring_settles :
    (r : StreamReassembler) (text : Bytes) (index : ℕ) (eof : Bool)
    → let t = push_substring r text index eof in scan t t.mapbuffer ≡ none
unfolding push_substring
push_substring_settles r text index eof = read_out_stops _ (accept r text index eof) (omega arith)
