-- ===== src/BufferList.antt =====
-- libsponge/util/buffer.hh and buffer.cc, class `BufferList`: the buffers of a packet, one for each
-- layer that has added its header.
pub mod Contents
mod Tests
use sponge.Prelude.{
  ℕ, ◌-◌, Bool, Option, none, some, List, [], ◌∷◌, ◌++◌, Bytes, ltb, ◌==◌, if◌then◌else◌, add64,
}
use sponge.Buffer
use sponge.Buffer.{Buffer}

-- `_buffers`
abbrev pub BufferList : Type 0
BufferList = List Buffer

-- The constructors.
abbrev pub of_buffer : Buffer → BufferList
of_buffer buffer = buffer ∷ []

unfoldable pub append : BufferList → BufferList → BufferList
append l other = l ++ other

abbrev pub of_string : Bytes → BufferList
of_string str = append [] (Buffer.of_string str ∷ [])

-- The conversion to a `Buffer`; `none` is its exception.
unfoldable pub to_buffer : BufferList → Option Buffer
to_buffer [] = some Buffer.null
to_buffer (b ∷ []) = some b
to_buffer (b ∷ c ∷ l) = none

-- The loops of `size` and `concatenate`, from what they have so far.
unfoldable pub size_from : ℕ → BufferList → ℕ
size_from ret [] = ret
size_from ret (b ∷ l) = size_from (add64 ret (Buffer.size b)) l

abbrev pub size : BufferList → ℕ
size l = size_from 0 l

unfoldable pub concatenate_onto : Bytes → BufferList → Bytes
concatenate_onto ret [] = ret
concatenate_onto ret (b ∷ l) = concatenate_onto (ret ++ Buffer.str b) l

abbrev pub concatenate : BufferList → Bytes
concatenate l = concatenate_onto [] l

-- The buffer that is cut, put back in its place.
abbrev pub put_front : Option Buffer → BufferList → Option BufferList
put_front none l = none
put_front (some b) l = some (b ∷ l)

-- The loop of `remove_prefix`; `none` is an exception.
unfoldable pub remove_prefix : BufferList → ℕ → Option BufferList
remove_prefix [] n = if n == 0 then some [] else none
remove_prefix (b ∷ l) n =
    let rest = remove_prefix l (n - Buffer.size b) in
    if n == 0
    then some (b ∷ l)
    else if ltb n (Buffer.size b)
    then put_front (Buffer.remove_prefix b n) l
    else rest
