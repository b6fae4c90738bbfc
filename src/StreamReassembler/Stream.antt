-- ===== src/StreamReassembler/Stream.antt =====
-- The stream that the peer sends: a byte at each index, and its parts.
use sponge.Prelude.{
  ℕ, zero, suc, ◌+◌, ◌-◌, ◌≡◌, refl, ap, ap₂, ◌∙◌, [], ◌∷◌, ◌++◌, Bytes, length, take, drop, min,
  arith, length-append, sym,
}

module _ (peer : ℕ → ℕ) where
  -- The `n` bytes of the stream from index `i` on.
  abbrev pub slice : ℕ → ℕ → Bytes
  slice i zero = []
  slice i (suc n) = peer i ∷ slice (suc i) n

  pub length-slice : (i n : ℕ) → length (slice i n) ≡ n
  length-slice i zero = refl
  length-slice i (suc n) = ap suc (length-slice (suc i) n)

  pub slice-append : (n i m : ℕ) → slice i n ++ slice (i + n) m ≡ slice i (n + m)
  slice-append zero i m =
      ap₂ slice {x = i + 0} {y = i} {u = m} {v = 0 + m} (omega arith) (omega arith)
  slice-append (suc n) i m =
      ap (◌∷◌ (peer i)) (
        ap (λ k. slice (suc i) n ++ slice k m) {y = suc i + n} (omega arith)
        ∙ slice-append n (suc i) m)
      ∙ ap (slice i) {x = suc (n + m)} (omega arith)

  pub take-slice : (k i n : ℕ) → take k (slice i n) ≡ slice i (min k n)
  take-slice zero i n = ap (slice i) {x = 0} (omega arith)
  take-slice (suc k) i zero = ap (slice i) {x = 0} (omega arith)
  take-slice (suc k) i (suc n) =
      ap (◌∷◌ (peer i)) (take-slice k (suc i) n) ∙ ap (slice i) {x = suc (min k n)} (omega arith)

  pub drop-slice : (k i n : ℕ) → drop k (slice i n) ≡ slice (i + k) (n - k)
  drop-slice zero i n = ap₂ slice {x = i} {u = n} (omega arith) (omega arith)
  drop-slice (suc k) i zero = ap (slice (i + suc k)) {x = 0} (omega arith)
  drop-slice (suc k) i (suc n) =
      drop-slice k (suc i) n
      ∙ ap₂ slice {x = suc i + k} {y = i + suc k} {u = n - k} (omega arith) (omega arith)

  -- Two parts that meet make one part.
  pub slice-join :
      (xs ys : Bytes) (b f : ℕ)
      → xs ≡ slice b (length xs)
      → ys ≡ slice f (length ys)
      → b + length xs ≡ f
      → xs ++ ys ≡ slice b (length (xs ++ ys))
  slice-join xs ys b f p q e =
      ap₂ ◌++◌ p (q ∙ ap (λ k. slice k (length ys)) (sym e))
      ∙ slice-append (length xs) b (length ys)
      ∙ ap (slice b) (sym (length-append xs ys))
