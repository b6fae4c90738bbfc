-- ===== src/ByteStream/Tests.antt =====
-- byte_stream.cc run on a small stream, and the theorems at concrete inputs.
use sponge.Prelude.{◌≡◌, refl, List, [], ◌∷◌, false, arith}
use sponge.ByteStream
use sponge.ByteStream.{
  ByteStream, new, write, read, Call, writes, reads, pops, ends, Reply, count, text, done,
}
use sponge.ByteStream.Pipe
use sponge.ByteStream.Pipe.{Pipe}
use sponge.ByteStream.Refine.{run, serve, Represents, run_refines, new-Represents}

abbrev script : List Call
script =
    writes (1 ∷ 2 ∷ 3 ∷ []) ∷ reads 1 ∷ writes (4 ∷ 5 ∷ []) ∷ ends ∷ writes (6 ∷ []) ∷ pops 5 ∷ []

abbrev empty_pipe : Pipe
empty_pipe = record { accepted = []; taken = 0; ended = false; failed = false }

script_replies :
    (run (new 2) script).1 ≡ count 2 ∷ text (1 ∷ []) ∷ count 1 ∷ done ∷ count 0 ∷ done ∷ []
unfolding run serve new write read ByteStream.pop_output ByteStream.peek_output ByteStream.end_input
script_replies = refl

run_refines_example :
    Represents (Pipe.run 2 empty_pipe script).0 (run (new 2) script).0
    × ((run (new 2) script).1 ≡ (Pipe.run 2 empty_pipe script).1)
unfolding new
run_refines_example = run_refines script (new-Represents 2 (omega arith))
