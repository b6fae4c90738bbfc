-- ===== src/BufferList/Contents.antt =====
-- The bytes that a `BufferList` holds, libsponge/util/buffer.cc.
use sponge.Prelude.{
  ℕ, ◌-◌, ◌+◌, ◌≤◌, ◌<◌, ◌^◌, ◌≡◌, refl, ap, ◌∙◌, sym, inl, inr, Bool-cases, [], ◌∷◌, ◌++◌, Bytes,
  All, length, drop, drop-append, drop-append_beyond, length-append, append_assoc, Option, none,
  some, ltb, ◌==◌, add64, arith, drop-nil, ==_iff, ltb→lt, eq_of_some, append-nil, ◌%◌,
}
use sponge.Buffer
use sponge.Buffer.Prefix.{removed}
use sponge.BufferList.{
  BufferList, append, size, size_from, concatenate, concatenate_onto, put_front, remove_prefix,
  to_buffer,
}

-- The bytes of the buffers, one after another.
abbrev pub contents : BufferList → Bytes
contents [] = []
contents (b ∷ l) = Buffer.str b ++ contents l

abbrev pub IsValid : BufferList → Type 0
IsValid l = All Buffer.IsValid l

concatenate_onto-contents :
    (ret : Bytes) (l : BufferList) → concatenate_onto ret l ≡ ret ++ contents l
unfolding concatenate_onto
concatenate_onto-contents ret [] = sym (append-nil ret)
concatenate_onto-contents ret (b ∷ l) =
    concatenate_onto-contents (ret ++ Buffer.str b) l ∙ append_assoc ret (Buffer.str b) (contents l)

pub concatenate-contents : (l : BufferList) → concatenate l ≡ contents l
concatenate-contents l = concatenate_onto-contents [] l

pub contents-append :
    (l other : BufferList) → contents (append l other) ≡ contents l ++ contents other
unfolding append
contents-append [] other = refl
contents-append (b ∷ l) other =
    ap (◌++◌ (Buffer.str b)) (contents-append l other)
    ∙ sym (append_assoc (Buffer.str b) (contents l) (contents other))

-- What `remove_prefix` gives for the bytes that were there.
pub data Removed (n : ℕ) (bytes : Bytes) : Option BufferList → Type 0 where
  cut :
      (l : BufferList)
      → n ≤ length bytes
      → contents l ≡ drop n bytes
      → IsValid l
      → Removed n bytes (some l)
  too_short : length bytes < n → Removed n bytes none

put_front-Removed :
    (n : ℕ) (b : Buffer.Buffer) (l : BufferList)
    → Buffer.IsValid b
    → IsValid l
    → n < Buffer.size b
    → Removed n (contents (b ∷ l)) (put_front (Buffer.remove_prefix b n) l)
put_front-Removed n b l vb vl h =
    let (b', e, s, v) = removed b n vb (omega arith) in
    rw e (
      cut (b' ∷ l) (omega (arith, length-append (Buffer.str b) (contents l)))
        (ap (λ t. t ++ contents l) s
          ∙ sym (drop-append n (Buffer.str b) (contents l) (omega arith)))
        (v, vl))

-- The loop goes on behind a buffer that is used up.
behind :
    (n : ℕ) (b : Buffer.Buffer) (l : BufferList) {r : Option BufferList}
    → Buffer.size b ≤ n
    → Removed (n - Buffer.size b) (contents l) r
    → Removed n (contents (b ∷ l)) r
behind n b l h (cut l' le e v) =
    cut l' (omega (arith, length-append (Buffer.str b) (contents l)))
      (e ∙ sym (drop-append_beyond n (Buffer.str b) (contents l) h)) v
behind n b l h (too_short lt) = too_short (omega (arith, length-append (Buffer.str b) (contents l)))

bytes_left : (l : BufferList) (n : ℕ) → IsValid l → Removed n (contents l) (remove_prefix l n)
unfolding remove_prefix
bytes_left [] n v = elim (Bool-cases (n == 0)) [
  | inl e ↦ rw e (cut [] (ground arith) (sym (drop-nil n)) tt)
  | inr e ↦ rw e (too_short (ground arith))
]
bytes_left (b ∷ l) n (vb, vl) = elim (Bool-cases (n == 0)) [
  | inl e ↦ rw (e, (==_iff n 0).0 e) (cut (b ∷ l) (omega arith) refl (vb, vl))
  | inr e ↦ rw e (elim (Bool-cases (ltb n (Buffer.size b))) [
    | inl lt ↦ rw lt (put_front-Removed n b l vb vl (ltb→lt _ _ lt))
    | inr ge ↦ rw ge (behind n b l (ground arith) (bytes_left l (n - Buffer.size b) vl))
  ])
]

-- For a list of buffers whose offsets lie in their strings, and any number: if the buffers hold
-- that many bytes together, remove_prefix leaves buffers that hold the rest of them in order,
-- again with offsets in their strings; if not, it throws.
pub remove_prefix-Removed :
    (l : BufferList) (n : ℕ) → IsValid l → Removed n (concatenate l) (remove_prefix l n)
remove_prefix-Removed l n v = rw concatenate-contents (bytes_left l n v)

size_from-contents :
    (ret : ℕ) (l : BufferList)
    → ret < 2 ^ 64
    → size_from ret l ≡ (ret + length (contents l)) % 2 ^ 64
unfolding size_from
size_from-contents ret [] h = omega arith
size_from-contents ret (b ∷ l) h = omega (
  arith,
  size_from-contents (add64 ret (Buffer.size b)) l (omega arith),
  length-append (Buffer.str b) (contents l),
)

-- The size is the number of bytes, as long as that is a `size_t`.
pub size-concatenate :
    (l : BufferList) → length (concatenate l) < 2 ^ 64 → size l ≡ length (concatenate l)
size-concatenate l h =
    omega
      (arith, size_from-contents 0 l (omega arith), ap (length {A = ℕ}) (concatenate-contents l))

-- A list that is one buffer, or none, is that buffer, and a longer one is none.
pub to_buffer-contents :
    (l : BufferList) (b : Buffer.Buffer) → to_buffer l ≡ some b → Buffer.str b ≡ concatenate l
unfolding to_buffer
to_buffer-contents [] b h = rw (concatenate-contents, ← eq_of_some h) refl
to_buffer-contents (c ∷ []) b h = rw (concatenate-contents, ← eq_of_some h, append-nil) refl
to_buffer-contents (c ∷ d ∷ l) b h = absurd (ground arith)
