-- ===== src/BufferViewList/Equivalence.antt =====
-- A `BufferViewList` and the `BufferList` that it shows, libsponge/util/buffer.cc.
use mathlib.Core.Option
use sponge.Prelude.{
  ℕ, ◌-◌, ◌+◌, ◌≤◌, ◌<◌, ◌^◌, ◌%◌, ◌≡◌, refl, ap, ◌∙◌, sym, inl, inr, Bool-cases, [], ◌∷◌, ◌++◌,
  Bytes, length, drop, drop-append, drop-append_beyond, length-append, Option, none, some, ltb,
  ltb→lt, ◌==◌, add64, arith, List, ==_iff,
}
use sponge.Buffer
use sponge.Buffer.Prefix.{removed}
use sponge.BufferList
use sponge.BufferList.{BufferList, put_front}
use sponge.BufferList.Contents.{IsValid, contents}
use sponge.BufferViewList.{
  BufferViewList, Iovec, of_buffer_list, remove_prefix, size_from, as_iovecs,
}

-- The bytes that a list of views shows.
abbrev pub shown : BufferViewList → Bytes
shown [] = []
shown (v ∷ views) = v ++ shown views

-- The bytes that a list of `iovec`s hands to a system call.
abbrev pub gathered : List Iovec → Bytes
gathered [] = []
gathered (v ∷ iovecs) = v.iov_base ++ gathered iovecs

pub gathered-as_iovecs : (views : BufferViewList) → gathered (as_iovecs views) ≡ shown views
unfolding as_iovecs
gathered-as_iovecs [] = refl
gathered-as_iovecs (v ∷ views) = ap (◌++◌ v) (gathered-as_iovecs views)

pub shown-of_buffer_list : (l : BufferList) → shown (of_buffer_list l) ≡ contents l
unfolding of_buffer_list
shown-of_buffer_list [] = refl
shown-of_buffer_list (b ∷ l) = ap (◌++◌ (Buffer.str b)) (shown-of_buffer_list l)

pub size_from-shown :
    (ret : ℕ) (views : BufferViewList)
    → ret < 2 ^ 64
    → size_from ret views ≡ (ret + length (shown views)) % 2 ^ 64
unfolding size_from
size_from-shown ret [] h = omega arith
size_from-shown ret (v ∷ views) h = omega (
  arith,
  size_from-shown (add64 ret (length v)) views (omega arith),
  length-append v (shown views),
)

-- What is removed from views is removed from the bytes that they show.
pub data Removed (n : ℕ) (bytes : Bytes) : Option BufferViewList → Type 0 where
  cut :
      (views : BufferViewList)
      → n ≤ length bytes
      → shown views ≡ drop n bytes
      → Removed n bytes (some views)
  too_short : length bytes < n → Removed n bytes none

behind :
    (n : ℕ) (v : Bytes) (views : BufferViewList) {r : Option BufferViewList}
    → length v ≤ n
    → Removed (n - length v) (shown views) r
    → Removed n (shown (v ∷ views)) r
behind n v views h (cut views' le e) =
    cut views' (omega (arith, length-append v (shown views)))
      (e ∙ sym (drop-append_beyond n v (shown views) h))
behind n v views h (too_short lt) = too_short (omega (arith, length-append v (shown views)))

pub remove_prefix-Removed :
    (views : BufferViewList) (n : ℕ) → Removed n (shown views) (remove_prefix views n)
unfolding remove_prefix
remove_prefix-Removed [] n = elim (Bool-cases (n == 0)) [
  | inl e ↦ rw (e, (==_iff n 0).0 e) (cut [] (omega arith) refl)
  | inr e ↦ rw e (too_short (ground arith))
]
remove_prefix-Removed (v ∷ views) n = elim (Bool-cases (n == 0)) [
  | inl e ↦ rw (e, (==_iff n 0).0 e) (cut (v ∷ views) (omega arith) refl)
  | inr e ↦ rw e (elim (Bool-cases (ltb n (length v))) [
    | inl lt ↦ rw lt (
        cut (drop n v ∷ views) (omega (arith, ltb→lt _ _ lt, length-append v (shown views)))
          (sym (drop-append n v (shown views) (omega (arith, ltb→lt _ _ lt)))))
    | inr ge ↦ rw ge (behind n v views (ground arith) (remove_prefix-Removed views (n - length v)))
  ])
]

views_of_front :
    (n : ℕ) (b : Buffer.Buffer) (l : BufferList)
    → Buffer.IsValid b
    → n < Buffer.size b
    → some (drop n (Buffer.str b) ∷ of_buffer_list l)
      ≡ Option.map of_buffer_list (put_front (Buffer.remove_prefix b n) l)
unfolding of_buffer_list
views_of_front n b l v h = let (b', e, s, _) = removed b n v (omega arith) in rw (e, s) refl

-- For a list of buffers whose offsets lie in their strings, and any number: to remove that many
-- bytes from the views of the list gives the views of what BufferList::remove_prefix leaves, and
-- throws exactly where it throws.
pub remove_prefix-of_buffer_list :
    (l : BufferList) (n : ℕ)
    → IsValid l
    → remove_prefix (of_buffer_list l) n ≡ Option.map of_buffer_list (BufferList.remove_prefix l n)
unfolding remove_prefix of_buffer_list BufferList.remove_prefix
remove_prefix-of_buffer_list [] n v = ground arith
remove_prefix-of_buffer_list (b ∷ l) n (vb, vl) = elim (Bool-cases (n == 0)) [
  | inl e ↦ rw e
  | inr e ↦ rw e (elim (Bool-cases (ltb n (Buffer.size b))) [
    | inl lt ↦ rw lt (views_of_front n b l vb (ltb→lt _ _ lt))
    | inr ge ↦ rw ge (remove_prefix-of_buffer_list l (n - Buffer.size b) vl)
  ])
]
