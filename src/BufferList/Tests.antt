-- ===== src/BufferList/Tests.antt =====
-- A packet of two headers and a payload, at concrete bytes.
use sponge.Prelude.{◌≡◌, refl, [], ◌∷◌, none, some, arith}
use sponge.Buffer
use sponge.BufferList.{BufferList, concatenate, concatenate_onto, remove_prefix, to_buffer}
use sponge.BufferList.Contents.{IsValid}

abbrev packet : BufferList
packet =
    record { storage = some (9 ∷ 1 ∷ 2 ∷ []); starting_offset = 1 }
    ∷ Buffer.null
    ∷ Buffer.of_string (3 ∷ 4 ∷ 5 ∷ [])
    ∷ []

packet-IsValid : IsValid packet
packet-IsValid = (
  Buffer.part (9 ∷ 1 ∷ 2 ∷ []) 1 (omega arith) (omega arith),
  (Buffer.nothing 0, (Buffer.part (3 ∷ 4 ∷ 5 ∷ []) 0 (omega arith) (omega arith), tt)),
)

joined : concatenate packet ≡ 1 ∷ 2 ∷ 3 ∷ 4 ∷ 5 ∷ []
unfolding concatenate_onto
joined = refl

not_contiguous : to_buffer packet ≡ none
unfolding to_buffer
not_contiguous = refl

prefix_used_up : remove_prefix packet 5 ≡ some []
unfolding remove_prefix Buffer.remove_prefix
prefix_used_up = refl
