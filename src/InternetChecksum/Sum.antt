-- ===== src/InternetChecksum/Sum.antt =====
-- The sum modulo 2 ^ 16 - 1 behind the checksum.
use sponge.Prelude.{
  ℕ, ◌+◌, ◌*◌, ◌%◌, ◌^◌, ◌≤◌, ◌<◌, ◌≡◌, refl, Bool, true, false, not, [], ◌∷◌, ◌++◌, Bytes, length,
  All, if◌then◌else◌, arith,
}
use sponge.InternetChecksum.{InternetChecksum, add_byte, add, fold_loop, value}

-- What the bytes add, from an even or odd position on.
abbrev pub weight : Bool → Bytes → ℕ
weight parity [] = 0
weight parity (byte ∷ bytes) = (if parity then byte else byte * 256) + weight (not parity) bytes

abbrev pub IsByte : ℕ → Type 0
IsByte b = b < 256

pub add-weight :
    (xs : Bytes) (c : InternetChecksum)
    → All IsByte xs
    → c.sum + weight c.parity xs < 2 ^ 32
    → (add c xs).sum ≡ c.sum + weight c.parity xs
unfolding add add_byte
add-weight [] c b h = omega arith
add-weight (x ∷ xs) c b h = ground (arith, add-weight xs (add_byte c x) b.1)

pub weight-le : (xs : Bytes) (parity : Bool) → All IsByte xs → weight parity xs ≤ 65280 * length xs
weight-le [] parity b = omega arith
weight-le (x ∷ xs) true b = omega (arith, weight-le xs false b.1, b.0)
weight-le (x ∷ xs) false b = omega (arith, weight-le xs true b.1, b.0)

pub add-append : (xs ys : Bytes) (c : InternetChecksum) → add c (xs ++ ys) ≡ add (add c xs) ys
unfolding add
add-append [] ys c = refl
add-append (x ∷ xs) ys c = add-append xs ys (add_byte c x)

-- Folding keeps the sum modulo 2 ^ 16 - 1, and keeps it positive.
fold_loop_lem :
    (s : ℕ)
    → s < 2 ^ 32
    → (fold_loop 3 s < 2 ^ 16) × (fold_loop 3 s % 65535 ≡ s % 65535) × (0 < s → 0 < fold_loop 3 s)
unfolding fold_loop
fold_loop_lem s h = ground arith

-- A positive sum with its own checksum added to it has the value 0.
pub value-zero :
    (s : ℕ)
    → 0 < s
    → s + 2 ^ 16 ≤ 2 ^ 32
    → let c : InternetChecksum = record { sum = s; parity = false } in
      value (record { sum = s + value c; parity = false }) ≡ 0
unfolding value
value-zero s h k =
    let (small, rem, pos) = fold_loop_lem s (omega arith) in
    let c = value (record { sum = s; parity = false }) in
    let (small', rem', pos') = fold_loop_lem (s + c) (omega arith) in
    omega (arith, pos h, pos' (omega arith))

pub value-lt : (c : InternetChecksum) → value c < 2 ^ 16
unfolding value
value-lt c = omega arith

-- The parity does not matter to the value.
pub value_of : (c : InternetChecksum) → value c ≡ value (record { sum = c.sum; parity = false })
unfolding value
value_of c = refl
