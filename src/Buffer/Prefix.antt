-- ===== src/Buffer/Prefix.antt =====
-- Removing bytes from the front of a `Buffer`, libsponge/util/buffer.cc.
use sponge.Prelude.{
  ℕ, ◌+◌, ◌≤◌, ◌<◌, ◌^◌, ◌≡◌, refl, ap, ◌∙◌, sym, inl, inr, Bool-cases, Bytes, length, drop,
  length-drop, drop-drop, drop-nil, eq-nil_of_length, Option, none, some, ◌==◌, add64, arith,
}
use sponge.Buffer.{
  Buffer, str_of, str, size, release, remove_prefix, FitsString, nothing, part, IsValid,
}

add64_small :
    (s : Bytes) (offset n : ℕ)
    → offset + n ≤ length s
    → length s < 2 ^ 64
    → add64 offset n ≡ offset + n
add64_small s offset n h k = omega arith

-- What is left once the offset has moved is the same string, let go or not.
str_of-release :
    (o : Option Bytes) (offset : ℕ) → str_of (release o offset) offset ≡ str_of o offset
str_of-release none offset = refl
str_of-release (some s) offset = elim (Bool-cases (offset == length s)) [
  | inl e ↦ rw e (sym (eq-nil_of_length (drop offset s) (ground (arith, length-drop offset s))))
  | inr e ↦ rw e
]

release-FitsString :
    (s : Bytes) (offset : ℕ)
    → offset ≤ length s
    → length s < 2 ^ 64
    → FitsString (release (some s) offset) offset
release-FitsString s offset h k = elim (Bool-cases (offset == length s)) [
  | inl e ↦ rw e (nothing offset)
  | inr e ↦ rw e (part s offset h k)
]

module _ (b : Buffer) (n : ℕ) where
  -- Too long a prefix is refused.
  pub remove_prefix-none : size b < n → remove_prefix b n ≡ none
  unfolding remove_prefix
  remove_prefix-none h = ground arith

removed_of :
    (o : Option Bytes) (offset n : ℕ)
    → FitsString o offset
    → n ≤ length (str_of o offset)
    → (b' : Buffer) × (remove_prefix (record { storage = o; starting_offset = offset }) n ≡ some b')
      × (str b' ≡ drop n (str_of o offset))
      × IsValid b'
unfolding remove_prefix
removed_of o offset n (nothing _) h = (
  record { storage = none; starting_offset = add64 offset n },
  ground arith,
  sym (drop-nil n),
  nothing _,
)
removed_of o offset n (part s _ h k) le =
    let small = add64_small s offset n (omega (arith, length-drop offset s)) k in
    (
      record { storage = release (some s) (add64 offset n); starting_offset = add64 offset n },
      ground arith,
      str_of-release (some s) (add64 offset n)
          ∙ ap (λ i. drop i s) small
          ∙ sym (drop-drop offset n s),
      rw small (release-FitsString s (offset + n) (omega (arith, length-drop offset s)) k),
    )

-- A prefix that is there is removed, and the offset stays in the string.
pub removed :
    (b : Buffer) (n : ℕ)
    → IsValid b
    → n ≤ size b
    → (b' : Buffer) × (remove_prefix b n ≡ some b') × (str b' ≡ drop n (str b)) × IsValid b'
removed b n v h = removed_of b.storage b.starting_offset n v h
