-- ===== src/FileDescriptor/Tests.antt =====
-- A kernel that takes two bytes in a call, at concrete bytes.
use sponge.Prelude.{
  ℕ, ◌≡◌, refl, true, [], ◌∷◌, ◌++◌, Option, some, List, Bytes, length, take, min, take-min,
  eq_of_some, ap, sym, ◌∙◌, arith,
}
use sponge.BufferViewList.{BufferViewList, Iovec, as_iovecs, remove_prefix, size_from}
use sponge.BufferViewList.Equivalence.{gathered, shown}
use sponge.FileDescriptor.{returned, new, write, write_from}
use sponge.FileDescriptor.Writing.{Sends, Ends, write-Ends}

two_at_once : Bytes → List Iovec → Option ℕ × Bytes
two_at_once k v = (some (min 2 (length (gathered v))), k ++ take 2 (gathered v))

two_at_once-Sends : Sends two_at_once (λ k. k)
unfolding two_at_once
two_at_once-Sends = record {
  failed = λ k v h. absurd (ground arith);
  within = λ k v n h. omega (arith, eq_of_some h);
  sends = λ k v n h.
      ap (◌++◌ k) (sym (take-min 2 (gathered v)) ∙ ap (λ t. take t (gathered v)) (eq_of_some h));
}

abbrev packet : BufferViewList
packet = (1 ∷ 2 ∷ 3 ∷ []) ∷ (4 ∷ 5 ∷ []) ∷ []

written :
    write two_at_once 6 true (0 ∷ []) (new 7) packet
    ≡ returned (0 ∷ 1 ∷ 2 ∷ 3 ∷ 4 ∷ 5 ∷ []) (record (new 7) { write_count = 3 }) 5
unfolding write_from two_at_once as_iovecs remove_prefix size_from new
written = refl

write-Ends_example :
    Ends two_at_once
      (λ k. k)
      (0 ∷ [])
      (shown packet)
      0
      (write two_at_once 6 true (0 ∷ []) (new 7) packet)
write-Ends_example =
    write-Ends two_at_once (λ k. k) two_at_once-Sends 6 (0 ∷ []) (new 7) packet (omega arith)
      (omega arith)
