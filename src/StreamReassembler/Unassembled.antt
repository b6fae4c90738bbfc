-- ===== src/StreamReassembler/Unassembled.antt =====
-- `unassembled_bytes` of stream_reassembler.cc, and the room that the waiting bytes take.
use sponge.Prelude.{
  ℕ, zero, suc, ◌+◌, ◌-◌, ◌^◌, ◌≤◌, ◌<◌, ◌≡◌, refl, Bool, false, List, [], ◌∷◌, Bytes, length,
  add64, ◌==◌, if◌then◌else◌, arith, inl, inr, Bool-cases, All, All-map,
}
use sponge.StreamReassembler.{
  StreamReassembler, to_int, member, insert_int, insert_bytes, insert_all, unassembled_bytes,
  push_substring,
}
use sponge.StreamReassembler.Substrings.{Substring}
use sponge.StreamReassembler.Invariant.{edge, Fits, Inv}
use sponge.StreamReassembler.Held.{Ahead}
use sponge.StreamReassembler.Receive.{Consistent}
use sponge.StreamReassembler.Reassembly.{push_substring-Drained, cap-push_substring}

-- No number stands twice in the list.
abbrev Distinct : List ℕ → Type 0
Distinct [] = Unit
Distinct (x ∷ xs) = (member x xs ≡ false) × Distinct xs

remove : ℕ → List ℕ → List ℕ
remove v [] = []
remove v (x ∷ xs) = if x == v then xs else x ∷ remove v xs

remove_short : (v : ℕ) (xs : List ℕ) → length xs ≤ 1 + length (remove v xs)
unfolding remove
remove_short v [] = omega arith
remove_short v (x ∷ xs) = ground (arith, remove_short v xs)

member-remove : (v x : ℕ) (xs : List ℕ) → member x xs ≡ false → member x (remove v xs) ≡ false
unfolding remove member
member-remove v x [] h = refl
member-remove v x (y ∷ ys) h = ground (arith, member-remove v x ys, h)

Distinct-remove : (v : ℕ) (xs : List ℕ) → Distinct xs → Distinct (remove v xs)
unfolding remove
Distinct-remove v [] d = tt
Distinct-remove v (x ∷ xs) d = elim (Bool-cases (x == v)) [
  | inl e ↦ rw e (d.1)
  | inr e ↦ rw e (member-remove v x xs d.0, Distinct-remove v xs d.1)
]

-- The number of an index from `lo` on, below `lo + n`.
abbrev Among : ℕ → ℕ → ℕ → Type 0
Among lo n x = (k : ℕ) × (k < n) × (x ≡ to_int (lo + k))

All-absent :
    (P : ℕ → Type 0) (v : ℕ) (xs : List ℕ)
    → member v xs ≡ false
    → All P xs
    → All (λ x. P x × ((x == v) ≡ false)) xs
unfolding member
All-absent P v [] h a = tt
All-absent P v (x ∷ xs) h a =
    ((a.0, ground (arith, h)), All-absent P v xs (ground (arith, h)) (a.1))

All-remove :
    (P : ℕ → Type 0) (v : ℕ) (xs : List ℕ)
    → Distinct xs
    → All P xs
    → All (λ x. P x × ((x == v) ≡ false)) (remove v xs)
unfolding remove
All-remove P v [] d a = tt
All-remove P v (x ∷ xs) d a = elim (Bool-cases (x == v)) [
  | inl e ↦ rw e (All-absent P v xs (ground (arith, e, d.0)) (a.1))
  | inr e ↦ rw e ((a.0, e), All-remove P v xs (d.1) (a.1))
]

few : (lo n : ℕ) (xs : List ℕ) → Distinct xs → All (Among lo n) xs → length xs ≤ n
few lo zero [] d a = omega arith
few lo zero (x ∷ xs) d a = absurd (omega (arith, a.0.1))
few lo (suc n) xs d a =
    let v = to_int (lo + n) in
    let fewer = few lo n (remove v xs) (Distinct-remove v xs d) (
      All-map _ (Among lo n) (remove v xs) (λ x p. (p.0.0, ground (arith, p), p.0.2))
        (All-remove (Among lo (suc n)) v xs d a)) in
    omega (arith, fewer, remove_short v xs)

abbrev Counted : ℕ → ℕ → List ℕ → Type 0
Counted lo n s = Distinct s × All (Among lo n) s

insert_int-Counted :
    (lo n x : ℕ) (s : List ℕ) → Among lo n x → Counted lo n s → Counted lo n (insert_int x s)
insert_int-Counted lo n x s p c = elim (Bool-cases (member x s)) [
  | inl e ↦ rw e c
  | inr e ↦ rw e ((e, c.0), (p, c.1))
]

insert_bytes-Counted :
    (lo n first i count : ℕ) (s : List ℕ)
    → lo ≤ first
    → first + i + count ≤ lo + n
    → lo + n < 2 ^ 64
    → Counted lo n s
    → Counted lo n (insert_bytes first i count s)
unfolding insert_bytes
insert_bytes-Counted lo n first i zero s h k w c = c
insert_bytes-Counted lo n first i (suc count) s h k w c =
    insert_bytes-Counted lo n first (i + 1) count _ h (omega arith) w (
      insert_int-Counted lo n (to_int (add64 first i)) s (first + i - lo, omega arith, omega arith)
        c)

abbrev Lies : ℕ → ℕ → Substring → Type 0
Lies lo n e = (lo ≤ e.index) × (e.index + length e.bytes ≤ lo + n)

insert_all-Counted :
    (lo n : ℕ) (es : List Substring) (s : List ℕ)
    → lo + n < 2 ^ 64
    → All (Lies lo n) es
    → Counted lo n s
    → Counted lo n (insert_all es s)
unfolding insert_all
insert_all-Counted lo n [] s w a c = c
insert_all-Counted lo n (e ∷ es) s w a c =
    insert_all-Counted lo n es _ w (a.1)
      (insert_bytes-Counted lo n e.index 0 (length e.bytes) s (a.0.0) (omega (arith, a.0)) w c)

lying :
    (peer : ℕ → ℕ) (size : ℕ) (r : StreamReassembler) (es : List Substring)
    → r.first_unassembled ≤ edge r
    → All (Ahead r) es
    → All (Fits peer size (edge r)) es
    → All (Lies r.first_unassembled (edge r - r.first_unassembled)) es
lying peer size r [] h a f = tt
lying peer size r (e ∷ es) h a f =
    ((omega (arith, a.0), omega (arith, f.0.inside)), lying peer size r es h (a.1) (f.1))

-- After a substring of the peer's stream that starts inside the window, under the invariant, the
-- bytes that unassembled_bytes counts and those in the output stream together are no more than
-- the capacity, and the capacity is the same.
pub unassembled_bytes_bound :
    (peer : ℕ → ℕ) (size : ℕ) {r : StreamReassembler} (v : Inv peer size r) {text : Bytes}
    {index : ℕ} {eof : Bool} (c : Consistent peer size r text index eof)
    → let t = push_substring r text index eof in
      (unassembled_bytes t + length t.output.buffer ≤ t.output.capacity)
      × (t.output.capacity ≡ r.output.capacity)
unfolding unassembled_bytes
unassembled_bytes_bound peer size {r} v {text} {index} {eof} c =
    let t = push_substring r text index eof in
    let d = push_substring-Drained peer size v c in
    let core = d.inv.core in
    let n = edge t - t.first_unassembled in
    let room : t.first_unassembled ≤ edge t = omega (arith, core.counted, core.fits) in
    let counted =
      insert_all-Counted t.first_unassembled n t.mapbuffer []
        (omega (arith, core.size_small, core.cap_small, core.in_stream, core.counted))
        (lying peer size t t.mapbuffer room d.settled d.inv.waiting) (tt, tt) in
    (
      omega (
        arith,
        core.counted,
        core.fits,
        few t.first_unassembled n (insert_all t.mapbuffer []) (counted.0) (counted.1),
      ),
      cap-push_substring peer size v c,
    )
