-- ===== src/StreamReassembler/Beyond.antt =====
-- What the hypothesis of `Receive` leaves out: substrings that start behind the window, and texts
-- longer than the room that is left.
use sponge.Prelude.{ℕ, ◌+◌, ◌^◌, ◌<◌, ◌≡◌, false, Bytes, length, arith, sub64, take_all}
use sponge.ByteStream
use sponge.StreamReassembler.{
  StreamReassembler, truncation_data, push_onestr, emit, check_end, get_first_unacceptable,
}
use sponge.StreamReassembler.Invariant.{edge, Core}

-- Where the reassembler satisfies its invariant and the end is not known, a substring that starts
-- behind the window and ends below 2 ^ 63 is not cut at all.
pub truncation_data-beyond :
    {peer : ℕ → ℕ} {size : ℕ} {r : StreamReassembler} (text : Bytes) (index : ℕ)
    → Core peer size r
    → r.has_eof ≡ false
    → edge r < index
    → index + length text < 2 ^ 63
    → truncation_data r text index ≡ text
unfolding truncation_data
truncation_data-beyond {r = r} text index v open_end beyond small =
    ground (arith, v, take_all (sub64 (get_first_unacceptable r) index) text)

-- Where the reassembler satisfies its invariant and the input is not ended, a text at the first
-- unassembled index that is longer than the room left and ends below 2 ^ 63 is written only up to
-- the end of the window, while the first unassembled index goes to the end of the text.
pub push_onestr-loses :
    {peer : ℕ → ℕ} {size : ℕ} {r : StreamReassembler} (text : Bytes)
    → Core peer size r
    → r.output.input_end ≡ false
    → edge r < r.first_unassembled + length text
    → r.first_unassembled + length text < 2 ^ 63
    → let (used, t) = push_onestr r text r.first_unassembled in
      (t.first_unassembled ≡ r.first_unassembled + length text) × (t.output.bytes_written ≡ edge r)
unfolding push_onestr emit check_end ByteStream.write ByteStream.end_input
push_onestr-loses {r = r} text v live long small = ground (arith, v)
