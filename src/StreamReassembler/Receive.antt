-- ===== src/StreamReassembler/Receive.antt =====
-- `push_substring` up to its loop: the substring is cut to the window, used or set aside.
use sponge.Prelude.{
  ℕ, ◌+◌, ◌-◌, ◌≤◌, ◌<◌, ◌≡◌, refl, ap, ap₂, ◌∙◌, sym, Bool, true, false, Bytes, length, take,
  arith, ◌⊎◌, inl, inr, Bool-cases, subst, dec_lt, add64, sub64, min, ltb,
}
use sponge.StreamReassembler.{
  StreamReassembler, note_eof, truncation_data, truncation_eof, truncation_window, keep,
  get_first_unacceptable,
}
use sponge.StreamReassembler.Substrings.{
  Substring, insert, All, Any, All-insert, Any-insert, Any-of_insert,
}
use sponge.StreamReassembler.Stream.{slice, length-slice, take-slice}
use sponge.StreamReassembler.Invariant.{edge, Fits, Core, Inv}
use sponge.StreamReassembler.Push.{Pushed}
use sponge.StreamReassembler.Held.{Covers, Held}

-- The byte at index `j` is one of the substring, and lies inside the window.
abbrev pub Offered : StreamReassembler → Bytes → ℕ → ℕ → Type 0
Offered r text index j = (index ≤ j) × (j < index + length text) × (j < edge r)

module _ (peer : ℕ → ℕ) (size : ℕ) where
  -- A substring of the stream, flagged as the last one only if it is, that starts at or in front of
  -- the end of the window.
  pub record Consistent (r : StreamReassembler) (text : Bytes) (index : ℕ) (eof : Bool)
      : Type 0 where
    pub exact : text ≡ slice peer index (length text)
    pub in_stream : index + length text ≤ size
    pub last : (eof ≡ false) ⊎ (index + length text ≡ size)
    pub in_window : index ≤ edge r

  pub note_eof-Core :
      {r : StreamReassembler} {text : Bytes} {index : ℕ} {eof : Bool}
      → Core peer size r
      → Consistent r text index eof
      → Core peer size (note_eof r index (length text) eof)
        × ((note_eof r index (length text) eof).output ≡ r.output)
        × ((note_eof r index (length text) eof).mapbuffer ≡ r.mapbuffer)
        × ((note_eof r index (length text) eof).first_unassembled ≡ r.first_unassembled)
  unfolding note_eof
  note_eof-Core v c = ground (arith, c)

  module _ {r : StreamReassembler} (v : Core peer size r) (text : Bytes) (index : ℕ) where
    -- Nothing of the stream lies behind its end.
    truncation_eof_lem : index + length text ≤ size → truncation_eof r text index ≡ text
    truncation_eof_lem h = ground (arith, v)

    truncation_window_lem :
        text ≡ slice peer index (length text)
        → index + length text ≤ size
        → index ≤ edge r
        → truncation_window r text index ≡ slice peer index (min (length text) (edge r - index))
    truncation_window_lem e h w =
        elim (Bool-cases (ltb (get_first_unacceptable r) (add64 index (length text)))) [
          | inl long ↦ rw long (
              ap₂ take cut e
              ∙ take-slice peer (edge r - index) index (length text)
              ∙ ap (slice peer index) (omega arith))
          | inr short ↦ rw short (e ∙ ap (slice peer index) (ground (arith, v)))
        ]
      where
        cut : sub64 (get_first_unacceptable r) index ≡ edge r - index
        cut = omega (arith, v)

  pub truncation_data-Fits :
      {r : StreamReassembler} (text : Bytes) (index : ℕ)
      → Core peer size r
      → text ≡ slice peer index (length text)
      → index + length text ≤ size
      → index ≤ edge r
      → let part = truncation_data r text index in
        Fits peer size (edge r) (record { index = index; bytes = part })
        × (length part ≡ min (length text) (edge r - index))
  unfolding truncation_data
  truncation_data-Fits {r} text index v e h w = (
    record {
      exact = cut ∙ ap (slice peer index) (sym len);
      inside = omega (arith, len);
      in_stream = omega (arith, len);
    },
    len,
  )
    where
      cut :
          truncation_window r (truncation_eof r text index) index
          ≡ slice peer index (min (length text) (edge r - index))
      cut = rw (truncation_eof_lem v text index h) (truncation_window_lem v text index e h w)

      len :
          length (truncation_window r (truncation_eof r text index) index)
          ≡ min (length text) (edge r - index)
      len = ap length cut ∙ length-slice peer index (min (length text) (edge r - index))

  -- What a step of `push_substring` does with the substring `e`, cut to the window.
  pub record Accepted (r : StreamReassembler) (e : Substring) (t : StreamReassembler) : Type 0 where
    pub inv : Inv peer size t
    pub holds : (j : ℕ) → Held r j ⊎ Covers j e → Held t j
    pub of_holds : (j : ℕ) → Held t j → Held r j ⊎ Covers j e
    pub bytes_read : t.output.bytes_read ≡ r.output.bytes_read
    pub cap : t.output.capacity ≡ r.output.capacity
    pub has_eof : t.has_eof ≡ r.has_eof
    pub grows : r.first_unassembled ≤ t.first_unassembled

  keep_used : (t : StreamReassembler) (b : Bytes) (i : ℕ) → i ≤ t.first_unassembled → keep t b i ≡ t
  unfolding keep
  keep_used t b i h = ground arith

  keep_ahead :
      (t : StreamReassembler) (b : Bytes) (i : ℕ)
      → t.first_unassembled < i
      → keep t b i ≡ record t { mapbuffer = insert (record { index = i; bytes = b }) t.mapbuffer }
  unfolding keep
  keep_ahead t b i h = ground arith

  pub keep-Accepted :
      (r : StreamReassembler) (e : Substring) (out : Bool × StreamReassembler)
      → Core peer size r
      → All (Fits peer size (edge r)) r.mapbuffer
      → Fits peer size (edge r) e
      → Pushed peer size r e out
      → Accepted r e (keep out.1 e.bytes e.index)
  keep-Accepted r e (true, t) v w f (c, n, k, upto, from) =
      rw (keep_used t e.bytes e.index (omega arith)) (record {
        inv = record { core = c; noticed = n; waiting = waiting };
        holds = holds;
        of_holds = of_holds;
        bytes_read = k.bytes_read;
        cap = k.cap;
        has_eof = k.has_eof;
        grows = omega arith;
      })
    where
      waiting : All (Fits peer size (edge t)) t.mapbuffer
      waiting =
          subst (λ b. All (Fits peer size b) t.mapbuffer) (omega (arith, k))
            (subst (All (Fits peer size (edge r))) (sym k.mapbuffer) w)

      holds : (j : ℕ) → Held r j ⊎ Covers j e → Held t j
      holds j (inl (inl h)) = inl (omega (arith, upto))
      holds j (inl (inr h)) = inr (subst (Any (Covers j)) (sym k.mapbuffer) h)
      holds j (inr h) = inl (omega (arith, upto))

      of_holds : (j : ℕ) → Held t j → Held r j ⊎ Covers j e
      of_holds j (inl h) = elim (dec_lt j r.first_unassembled) [
        | yes p ↦ inl (inl p)
        | no p ↦ inr (omega (arith, upto, from), omega (arith, upto, from))
      ]
      of_holds j (inr h) = inl (inr (subst (Any (Covers j)) k.mapbuffer h))
  keep-Accepted r e (false, t) v w f (same, ahead) =
      subst (λ u. Accepted r e (keep u e.bytes e.index)) (sym same)
        (rw (keep_ahead r e.bytes e.index ahead) (record {
          inv = record {
            core = ground (arith, v);
            noticed = inr (inr (omega (arith, f.in_stream)));
            waiting = All-insert (Fits peer size (edge r)) e r.mapbuffer f w;
          };
          holds = holds;
          of_holds = of_holds;
          bytes_read = refl;
          cap = refl;
          has_eof = refl;
          grows = omega arith;
        }))
    where
      holds :
          (j : ℕ)
          → Held r j ⊎ Covers j e
          → (j < r.first_unassembled) ⊎ Any (Covers j) (insert e r.mapbuffer)
      holds j (inl (inl h)) = inl h
      holds j (inl (inr h)) = inr (Any-insert (Covers j) e r.mapbuffer (inr h))
      holds j (inr h) = inr (Any-insert (Covers j) e r.mapbuffer (inl h))

      of_holds :
          (j : ℕ)
          → (j < r.first_unassembled) ⊎ Any (Covers j) (insert e r.mapbuffer)
          → Held r j ⊎ Covers j e
      of_holds j (inl h) = inl (inl h)
      of_holds j (inr h) = elim (Any-of_insert (Covers j) e r.mapbuffer h) [
        | inl p ↦ inr p
        | inr p ↦ inl (inr p)
      ]
