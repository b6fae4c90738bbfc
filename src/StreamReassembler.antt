-- ===== src/StreamReassembler.antt =====
-- libsponge/stream_reassembler.hh and stream_reassembler.cc: substrings that arrive in any order,
-- with overlaps, are put together into the in-order byte stream.
pub mod Substrings
pub mod Stream
pub mod Invariant
pub mod Push
pub mod Held
pub mod Receive
pub mod Reassembly
pub mod Reader
pub mod Loop
pub mod Beyond
pub mod Grows
pub mod Unassembled
mod Tests
use sponge.Prelude.{
  ℕ, zero, suc, ◌-◌, ◌≤◌, ◌+◌, ◌%◌, ◌^◌, Bool, true, false, ◌&&◌, ◌||◌, List, [], ◌∷◌, ◌++◌, Option,
  none, some, Bytes, length, take, drop, ltb, leb, ◌==◌, if◌then◌else◌, add64, sub64,
}
use sponge.ByteStream
use sponge.ByteStream.{ByteStream}
use Substrings.{Substring, insert, erase}

-- The members of `class StreamReassembler`; `_bytes_in_buffer` is never used by the code.
pub record StreamReassembler : Type 0 where
  pub output : ByteStream
  pub capacity : ℕ
  pub has_eof : Bool
  pub final_idx : ℕ
  pub mapbuffer : List Substring
  pub first_unassembled : ℕ

unfoldable pub new : ℕ → StreamReassembler
new capacity = record {
  output = ByteStream.new capacity;
  capacity = capacity;
  has_eof = false;
  final_idx = 0;
  mapbuffer = [];
  first_unassembled = 0;
}

abbrev pub get_first_unacceptable : StreamReassembler → ℕ
get_first_unacceptable r = add64 (ByteStream.remaining_capacity r.output) r.first_unassembled

-- `string::substr(pos, n)`.
abbrev pub substr : ℕ → ℕ → Bytes → Bytes
substr pos n s = take n (drop pos s)

-- The first half of `truncation_data`: what lies behind the last byte of the stream is cut off.
abbrev pub truncation_eof : StreamReassembler → Bytes → ℕ → Bytes
truncation_eof r text index =
    if r.has_eof && ltb (add64 r.final_idx 1) (add64 index (length text))
    then substr 0 (add64 (sub64 r.final_idx index) 1) text
    else text

-- The second half: what lies behind the window is cut off.
abbrev pub truncation_window : StreamReassembler → Bytes → ℕ → Bytes
truncation_window r text index =
    if ltb (get_first_unacceptable r) (add64 index (length text))
    then substr 0 (sub64 (get_first_unacceptable r) index) text
    else text

unfoldable pub truncation_data : StreamReassembler → Bytes → ℕ → Bytes
truncation_data r text index = truncation_window r (truncation_eof r text index) index

-- `if (_has_eof && _first_unassembled == _final_idx + 1) { _output.end_input(); }`
unfoldable pub check_end : StreamReassembler → StreamReassembler
check_end r =
    if r.has_eof && r.first_unassembled == add64 r.final_idx 1
    then record r { output = ByteStream.end_input r.output }
    else r

-- `_output.write(text)` and the update of `_first_unassembled` behind it.
unfoldable pub emit : StreamReassembler → Bytes → ℕ → StreamReassembler
emit r text next =
    check_end (record r { output = (ByteStream.write r.output text).0; first_unassembled = next })

-- Whether the substring is used up, and the state that it leaves.
unfoldable pub push_onestr : StreamReassembler → Bytes → ℕ → Bool × StreamReassembler
push_onestr r new_data index =
    if index == r.first_unassembled
    then (true, emit r new_data (add64 r.first_unassembled (length new_data)))
    else if leb (add64 index (length new_data)) r.first_unassembled
    then (true, check_end r)
    else if ltb index r.first_unassembled && ltb r.first_unassembled (add64 index (length new_data))
    then (
      true,
      emit r
          (substr (sub64 r.first_unassembled index)
            (sub64 (add64 index (length new_data)) r.first_unassembled) new_data)
          (sub64 (add64 (add64 r.first_unassembled index) (length new_data)) r.first_unassembled),
    )
    else (false, r)

-- One pass of the `for` over `_mapbuffer`: the first substring that can be used is taken out, and
-- `some` is the state after it; `none` is a pass that uses none.
unfoldable pub scan : StreamReassembler → List Substring → Option StreamReassembler
scan r [] = none
scan r (primer_pair ∷ rest) =
    let others = scan r rest in
    let (used, r') = push_onestr r primer_pair.bytes primer_pair.index in
    if used then some (record r' { mapbuffer = erase primer_pair r'.mapbuffer }) else others

-- The `while (can_readout)`. Each round but the last takes one substring out, so as many rounds as
-- there are substrings, and one more, are enough.
unfoldable pub read_out : ℕ → StreamReassembler → StreamReassembler
read_out zero r = r
read_out (suc fuel) r = elim (scan r r.mapbuffer) [ none ↦ r | some r' ↦ read_out fuel r' ]

-- The first statement of `push_substring`.
unfoldable pub note_eof : StreamReassembler → ℕ → ℕ → Bool → StreamReassembler
note_eof r index len eof =
    if eof then record r { has_eof = true; final_idx = sub64 (add64 index len) 1 } else r

-- Substrings in front of `_first_unassembled` are done with; the others wait.
unfoldable pub keep : StreamReassembler → Bytes → ℕ → StreamReassembler
keep r new_data index =
    if ltb r.first_unassembled index
    then record r { mapbuffer = insert (record { index = index; bytes = new_data }) r.mapbuffer }
    else r

-- `push_substring` up to its loop.
unfoldable pub accept : StreamReassembler → Bytes → ℕ → Bool → StreamReassembler
accept r text index eof =
    let r1 = note_eof r index (length text) eof in
    let new_data = truncation_data r1 text index in
    let r2 = (push_onestr r1 new_data index).1 in keep r2 new_data index

unfoldable pub push_substring : StreamReassembler → Bytes → ℕ → Bool → StreamReassembler
push_substring r text index eof =
    let r' = accept r text index eof in read_out (length r'.mapbuffer + 1) r'

-- The reader of `stream_out()` takes bytes from it.
unfoldable pub read : StreamReassembler → ℕ → StreamReassembler × Bytes
read r len = let (s, text) = ByteStream.read r.output len in (record r { output = s }, text)

-- `std::set<int>`: its numbers, each once. A `size_t` becomes an `int` by its residue.
abbrev pub to_int : ℕ → ℕ
to_int i = i % 2 ^ 32

unfoldable pub member : ℕ → List ℕ → Bool
member x [] = false
member x (y ∷ ys) = x == y || member x ys

abbrev pub insert_int : ℕ → List ℕ → List ℕ
insert_int x s = if member x s then s else x ∷ s

-- The inner `for` of `unassembled_bytes`, from `i` on; `count` bytes are left.
unfoldable pub insert_bytes : ℕ → ℕ → ℕ → List ℕ → List ℕ
insert_bytes first i zero s = s
insert_bytes first i (suc count) s =
    insert_bytes first (i + 1) count (insert_int (to_int (add64 first i)) s)

-- The outer `for`.
unfoldable pub insert_all : List Substring → List ℕ → List ℕ
insert_all [] s = s
insert_all (elem ∷ rest) s = insert_all rest (insert_bytes elem.index 0 (length elem.bytes) s)

unfoldable pub unassembled_bytes : StreamReassembler → ℕ
unassembled_bytes r = length (insert_all r.mapbuffer [])

unfoldable pub empty : StreamReassembler → Bool
empty r = length r.mapbuffer == 0

unfoldable pub reach_end : StreamReassembler → Bool
reach_end r = r.has_eof && add64 r.final_idx 1 == r.first_unassembled
