-- ===== src/StreamReassembler/Tests.antt =====
-- stream_reassembler.cc run on small substrings, and the theorems at concrete inputs. The peer's
-- stream of these tests has the byte `i + 1` at each index `i`, and six bytes.
use sponge.Prelude.{
  ℕ, ◌+◌, ◌≤◌, ◌≡◌, ◌↔◌, ◌⊎◌, refl, true, false, List, [], ◌∷◌, length, arith, inl,
}
use sponge.ByteStream
use sponge.StreamReassembler
use sponge.StreamReassembler.{
  StreamReassembler, new, push_substring, unassembled_bytes, scan, truncation_data, push_onestr,
}
use sponge.StreamReassembler.Substrings
use sponge.StreamReassembler.Substrings.{Substring}
use sponge.StreamReassembler.Invariant.{Inv}
use sponge.StreamReassembler.Receive.{Consistent, Offered}
use sponge.StreamReassembler.Held.{Held}
use sponge.StreamReassembler.Reassembly.{push_substring-Held, push_substring-first_missing}
use sponge.StreamReassembler.Unassembled.{unassembled_bytes_bound}
use sponge.StreamReassembler.Reader.{
  Event, arrives, takes, run, handle, Follows, run_reads, new-Inv,
}
use sponge.StreamReassembler.Beyond.{push_onestr-loses}

abbrev peer : ℕ → ℕ
peer i = i + 1

abbrev size : ℕ
size = 6

abbrev fresh : StreamReassembler
fresh = new 4

fresh-Inv : Inv peer size fresh
fresh-Inv = new-Inv peer size 4 (omega arith) (omega arith)

-- The second part first, then an overlap, then the end behind a read.
abbrev history : List Event
history =
    arrives (3 ∷ 4 ∷ []) 2 false
    ∷ arrives (1 ∷ 2 ∷ 3 ∷ []) 0 false
    ∷ takes 2
    ∷ arrives (5 ∷ 6 ∷ []) 4 true
    ∷ takes 9
    ∷ []

history_text : (run fresh history).1 ≡ 1 ∷ 2 ∷ 3 ∷ 4 ∷ 5 ∷ 6 ∷ []
unfolding run handle push_substring StreamReassembler.accept StreamReassembler.note_eof
    StreamReassembler.truncation_data StreamReassembler.push_onestr StreamReassembler.emit
    StreamReassembler.check_end StreamReassembler.keep StreamReassembler.read_out scan
    Substrings.insert Substrings.erase Substrings.same Substrings.before new StreamReassembler.read
    ByteStream.new ByteStream.write ByteStream.read ByteStream.pop_output ByteStream.peek_output
    ByteStream.end_input
history_text = refl

-- With room for two bytes, a substring that lies behind the window waits uncut. When its turn comes
-- one byte of it fits, and the two behind that are lost: the reader never gets the bytes 7 and 8.
abbrev lossy : List Event
lossy =
    arrives (6 ∷ 7 ∷ 8 ∷ []) 5 false
    ∷ arrives (1 ∷ 2 ∷ []) 0 false
    ∷ takes 2
    ∷ arrives (3 ∷ 4 ∷ []) 2 false
    ∷ takes 2
    ∷ arrives (5 ∷ []) 4 false
    ∷ takes 2
    ∷ arrives (9 ∷ 10 ∷ []) 8 false
    ∷ takes 2
    ∷ []

lossy_text : (run (new 2) lossy).1 ≡ 1 ∷ 2 ∷ 3 ∷ 4 ∷ 5 ∷ 6 ∷ 9 ∷ 10 ∷ []
unfolding run handle push_substring StreamReassembler.accept StreamReassembler.note_eof
    StreamReassembler.truncation_data StreamReassembler.push_onestr StreamReassembler.emit
    StreamReassembler.check_end StreamReassembler.keep StreamReassembler.read_out scan
    Substrings.insert Substrings.erase Substrings.same Substrings.before new StreamReassembler.read
    ByteStream.new ByteStream.write ByteStream.read ByteStream.pop_output ByteStream.peek_output
    ByteStream.end_input
lossy_text = refl

ahead-Consistent : Consistent peer size fresh (3 ∷ 4 ∷ []) 2 false
unfolding new ByteStream.new
ahead-Consistent = record {
  exact = refl;
  in_stream = omega arith;
  last = inl refl;
  in_window = omega arith;
}

push_substring-Held_example :
    Held (push_substring fresh (3 ∷ 4 ∷ []) 2 false) 3
    ↔ (Held fresh 3 ⊎ Offered fresh (3 ∷ 4 ∷ []) 2 3)
push_substring-Held_example = push_substring-Held peer size fresh-Inv ahead-Consistent 3

push_substring-first_missing_example :
    let t = push_substring fresh (3 ∷ 4 ∷ []) 2 false in ¬ Held t t.first_unassembled
push_substring-first_missing_example =
    push_substring-first_missing peer size fresh-Inv ahead-Consistent

unassembled_bytes_bound_example :
    let t = push_substring fresh (3 ∷ 4 ∷ []) 2 false in
    (unassembled_bytes t + length t.output.buffer ≤ t.output.capacity)
    × (t.output.capacity ≡ fresh.output.capacity)
unassembled_bytes_bound_example = unassembled_bytes_bound peer size fresh-Inv ahead-Consistent

-- Two substrings that overlap by one byte: three bytes wait.
unassembled_run :
    unassembled_bytes (record fresh {
      mapbuffer =
          (record { index = 2; bytes = 3 ∷ 4 ∷ [] })
          ∷ (record { index = 3; bytes = 4 ∷ 5 ∷ [] })
          ∷ [];
    })
    ≡ 3
unfolding unassembled_bytes StreamReassembler.insert_all StreamReassembler.insert_bytes
    StreamReassembler.member new ByteStream.new
unassembled_run = refl

run_reads_example :
    Follows peer size fresh (run fresh (arrives (3 ∷ 4 ∷ []) 2 false ∷ takes 3 ∷ []))
run_reads_example =
    run_reads peer size (arrives (3 ∷ 4 ∷ []) 2 false ∷ takes 3 ∷ []) fresh-Inv
      (ahead-Consistent, (tt, tt))

push_onestr-loses_example :
    let (used, t) = push_onestr fresh (1 ∷ 2 ∷ 3 ∷ 4 ∷ 5 ∷ []) 0 in
    (t.first_unassembled ≡ 5) × (t.output.bytes_written ≡ 4)
unfolding new ByteStream.new
push_onestr-loses_example =
    push_onestr-loses (1 ∷ 2 ∷ 3 ∷ 4 ∷ 5 ∷ []) fresh-Inv.core refl (omega arith) (omega arith)
