-- ===== src/BufferViewList/Tests.antt =====
-- The views of a packet, at concrete bytes.
use mathlib.Core.Option
use sponge.Prelude.{◌≡◌, refl, [], ◌∷◌, some, arith}
use sponge.Buffer
use sponge.BufferList
use sponge.BufferList.{BufferList}
use sponge.BufferList.Contents.{IsValid}
use sponge.BufferViewList.{of_buffer_list, remove_prefix}
use sponge.BufferViewList.Equivalence.{remove_prefix-of_buffer_list}

abbrev packet : BufferList
packet =
    record { storage = some (9 ∷ 1 ∷ 2 ∷ []); starting_offset = 1 }
    ∷ Buffer.of_string (3 ∷ 4 ∷ 5 ∷ [])
    ∷ []

packet-IsValid : IsValid packet
packet-IsValid = (
  Buffer.part (9 ∷ 1 ∷ 2 ∷ []) 1 (omega arith) (omega arith),
  (Buffer.part (3 ∷ 4 ∷ 5 ∷ []) 0 (omega arith) (omega arith), tt),
)

cut_inside : remove_prefix (of_buffer_list packet) 3 ≡ some ((4 ∷ 5 ∷ []) ∷ [])
unfolding remove_prefix of_buffer_list
cut_inside = refl

remove_prefix-of_buffer_list_example :
    remove_prefix (of_buffer_list packet) 3
    ≡ Option.map of_buffer_list (BufferList.remove_prefix packet 3)
remove_prefix-of_buffer_list_example = remove_prefix-of_buffer_list packet 3 packet-IsValid
