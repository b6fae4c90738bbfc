-- ===== src/StreamReassembler/Push.antt =====
-- `push_substring` step by step: every step keeps the invariant of `Invariant`.
use sponge.Prelude.{
  ℕ, ◌+◌, ◌-◌, ◌≤◌, ◌<◌, ◌≡◌, refl, ap, ◌∙◌, sym, Bool, true, false, Bytes, length, take, drop, ltb,
  leb, ◌==◌, arith, inl, inr, Bool-cases, ap₂,
}
use sponge.StreamReassembler.{StreamReassembler, push_onestr, emit, check_end, substr}
use sponge.StreamReassembler.Substrings.{Substring}
use sponge.StreamReassembler.Stream.{slice, length-slice, take-slice, drop-slice}
use sponge.StreamReassembler.Invariant.{
  edge, Fits, Core, EndNoticed, Kept, check_end-Core, emit-Core,
}

module _ (peer : ℕ → ℕ) (size : ℕ) where
  -- A part of the stream is used up, and takes `first_unassembled` to its end if that lies behind;
  -- or it starts behind `first_unassembled`, and nothing changes.
  abbrev pub Pushed : StreamReassembler → Substring → Bool × StreamReassembler → Type 0
  Pushed r e (true, t) =
      Core peer size t
      × EndNoticed peer size t
      × Kept peer size r t
      × (t.first_unassembled
          ≡ r.first_unassembled + (e.index + length e.bytes - r.first_unassembled))
      × (e.index ≤ r.first_unassembled)
  Pushed r e (false, t) = (t ≡ r) × (r.first_unassembled < e.index)

  slice-suffix :
      (i f : ℕ) (text : Bytes)
      → text ≡ slice peer i (length text)
      → i ≤ f
      → f ≤ i + length text
      → let rest = substr (f - i) (i + length text - f) text in
        (rest ≡ slice peer f (length rest)) × (length rest ≡ i + length text - f)
  slice-suffix i f text e h k = (cut ∙ ap (slice peer f) (sym len), len)
    where
      cut : substr (f - i) (i + length text - f) text ≡ slice peer f (i + length text - f)
      cut =
          ap (λ t. take (i + length text - f) (drop (f - i) t)) e
          ∙ ap (take (i + length text - f)) (drop-slice peer (f - i) i (length text))
          ∙ take-slice peer (i + length text - f) (i + (f - i)) (length text - (f - i))
          ∙ ap₂ (slice peer) (omega arith) (omega arith)

      len : length (substr (f - i) (i + length text - f) text) ≡ i + length text - f
      len = ap length cut ∙ length-slice peer f (i + length text - f)

  -- The three ways in which `push_onestr` uses a substring up, and the one in which it does not.
  data Way (r : StreamReassembler) (e : Substring) (out : Bool × StreamReassembler) : Type 0 where
    at :
        e.index ≡ r.first_unassembled
        → out ≡ (true, emit r e.bytes (r.first_unassembled + length e.bytes))
        → Way r e out
    behind :
        e.index < r.first_unassembled
        → e.index + length e.bytes ≤ r.first_unassembled
        → out ≡ (true, check_end r)
        → Way r e out
    across :
        e.index < r.first_unassembled
        → r.first_unassembled < e.index + length e.bytes
        → out ≡ (
          true,
          emit r
              (substr
                (r.first_unassembled - e.index)
                (e.index + length e.bytes - r.first_unassembled)
                e.bytes)
              (e.index + length e.bytes),
        )
        → Way r e out
    ahead : r.first_unassembled < e.index → out ≡ (false, r) → Way r e out

  module _ (r : StreamReassembler) (e : Substring) (v : Core peer size r)
      (h : Fits peer size (edge r) e) where
    push_onestr-Way : Way r e (push_onestr r e.bytes e.index)
    push_onestr-Way = elim (Bool-cases (e.index == r.first_unassembled)) [
      | inl p ↦ at (ground arith) (unfold push_onestr in ground (arith, v, h))
      | inr p ↦ elim (Bool-cases (leb (e.index + length e.bytes) r.first_unassembled)) [
        | inl q ↦
            behind (ground (arith, h)) (ground arith) (unfold push_onestr in ground (arith, v, h))
        | inr q ↦ elim (Bool-cases (ltb e.index r.first_unassembled)) [
          | inl s ↦
              across (ground arith) (ground arith) (unfold push_onestr in ground (arith, v, h))
          | inr s ↦ ahead (ground arith) (unfold push_onestr in ground (arith, v, h))
        ]
      ]
    ]

    Way-Pushed : (out : Bool × StreamReassembler) → Way r e out → Pushed r e out
    Way-Pushed out (at p q) =
        let (c, n, k, f) =
          emit-Core peer size r e.bytes _ v (h.exact ∙ ap (λ i. slice peer i (length e.bytes)) p)
            refl (ground (arith, h)) (ground (arith, h)) in
        rw q (c, n, k, omega arith, omega arith)
    Way-Pushed out (behind p l q) =
        let (c, n, k, f) = check_end-Core peer size v in rw q (c, n, k, omega arith, omega arith)
    Way-Pushed out (across p l q) =
        let (x, len) =
          slice-suffix e.index r.first_unassembled e.bytes h.exact (omega arith) (omega arith) in
        let (c, n, k, f) =
          emit-Core peer size r _ (e.index + length e.bytes) v x (omega arith) h.inside
            h.in_stream in
        rw q (c, n, k, omega arith, omega arith)
    Way-Pushed out (ahead p q) = rw q (refl, p)

    -- What `push_onestr` does to a part of the stream.
    pub push_onestr-Pushed : Pushed r e (push_onestr r e.bytes e.index)
    push_onestr-Pushed = Way-Pushed _ push_onestr-Way
