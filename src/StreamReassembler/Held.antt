-- ===== src/StreamReassembler/Held.antt =====
-- Which bytes of the stream a reassembler has, written out or waiting, and the loop of
-- `push_substring`, which changes none of that.
use sponge.Prelude.{
  ℕ, zero, suc, ◌+◌, ◌-◌, ◌≤◌, ◌<◌, ◌≡◌, refl, ap, ◌∙◌, sym, Bool, true, false, List, [], ◌∷◌,
  Option, none, some, length, arith, ◌⊎◌, inl, inr, subst, dec_lt, if◌then◌else◌,
}
use sponge.StreamReassembler.{StreamReassembler, push_onestr, scan, read_out}
use sponge.StreamReassembler.Substrings.{
  Substring, erase, All, Any, In, All-In, All-at, All-erase, Any-In, Any-erase, Any-of_erase,
  length-erase,
}
use sponge.StreamReassembler.Invariant.{edge, Fits, Inv}
use sponge.StreamReassembler.Push.{Pushed, push_onestr-Pushed}

-- The byte at index `j` is part of the substring.
abbrev pub Covers : ℕ → Substring → Type 0
Covers j e = (e.index ≤ j) × (j < e.index + length e.bytes)

-- The byte at index `j` was written out, or waits.
abbrev pub Held : StreamReassembler → ℕ → Type 0
Held r j = (j < r.first_unassembled) ⊎ Any (Covers j) r.mapbuffer

-- The substring starts behind what is written out: it cannot be used yet.
abbrev pub Ahead : StreamReassembler → Substring → Type 0
Ahead r e = r.first_unassembled < e.index

module _ (peer : ℕ → ℕ) (size : ℕ) where
  -- A pass of the loop that takes the substring `e` out.
  pub record Took (r t : StreamReassembler) : Type 0 where
    pub e : Substring
    pub inv : Inv peer size t
    pub member : In r.mapbuffer e
    pub erased : t.mapbuffer ≡ erase e r.mapbuffer
    pub from : e.index ≤ r.first_unassembled
    pub upto :
        t.first_unassembled ≡ r.first_unassembled + (e.index + length e.bytes - r.first_unassembled)
    pub bytes_read : t.output.bytes_read ≡ r.output.bytes_read
    pub cap : t.output.capacity ≡ r.output.capacity
    pub has_eof : t.has_eof ≡ r.has_eof

  Scanned : StreamReassembler → List Substring → Option StreamReassembler → Type 0
  Scanned r es none = All (Ahead r) es
  Scanned r es (some t) = Took r t

  -- The pass goes on behind a substring that is not used.
  Scanned-cons :
      (r : StreamReassembler) (e : Substring) (es : List Substring) (o : Option StreamReassembler)
      → Ahead r e
      → Scanned r es o
      → Scanned r (e ∷ es) o
  unfolding Scanned
  Scanned-cons r e es none a h = (a, h)
  Scanned-cons r e es (some t) a h = h

  take_one :
      (r : StreamReassembler) (e : Substring) (out : Bool × StreamReassembler)
      (others : Option StreamReassembler) (es : List Substring)
      → Inv peer size r
      → In r.mapbuffer e
      → Pushed peer size r e out
      → Scanned r es others
      → let (used, r') = out in
        Scanned r
          (e ∷ es)
          (if used then some (record r' { mapbuffer = erase e r'.mapbuffer }) else others)
  take_one r e (true, t) others es v m (c, n, k, upto, from) h =
      unfold Scanned in
      record {
        e = e;
        inv = record { core = ground (arith, c); noticed = n; waiting = waiting };
        member = m;
        erased = ap (erase e) k.mapbuffer;
        from = from;
        upto = upto;
        bytes_read = k.bytes_read;
        cap = k.cap;
        has_eof = k.has_eof;
      }
    where
      waiting : All (Fits peer size (edge t)) (erase e t.mapbuffer)
      waiting = All-erase (Fits peer size (edge t)) e t.mapbuffer (
          subst (λ b. All (Fits peer size b) t.mapbuffer) (omega (arith, k))
            (subst (All (Fits peer size (edge r))) (sym k.mapbuffer) v.waiting))
  take_one r e (false, t) others es v m (same, a) h = Scanned-cons r e es others a h

  scan-Scanned :
      (r : StreamReassembler) (es : List Substring)
      → Inv peer size r
      → All (In r.mapbuffer) es
      → Scanned r es (scan r es)
  unfolding scan
  scan-Scanned r [] v m = unfold Scanned in tt
  scan-Scanned r (e ∷ es) v m =
      take_one r e (push_onestr r e.bytes e.index) (scan r es) es v m.0
        (push_onestr-Pushed peer size r e v.core (All-at _ e r.mapbuffer v.waiting m.0))
        (scan-Scanned r es v m.1)

  module _ {r t : StreamReassembler} (k : Took r t) where
    Took-Held : (j : ℕ) → Held r j → Held t j
    Took-Held j (inl h) = inl (omega (arith, k.upto))
    Took-Held j (inr h) = elim (Any-erase (Covers j) k.e r.mapbuffer h) [
      | inl c ↦ inl (omega (arith, k.upto, c))
      | inr c ↦ inr (subst (Any (Covers j)) (sym k.erased) c)
    ]

    Took-of_Held : (j : ℕ) → Held t j → Held r j
    Took-of_Held j (inl h) = elim (dec_lt j r.first_unassembled) [
      | yes p ↦ inl p
      | no p ↦ inr (
          Any-In (Covers j) k.e r.mapbuffer k.member
            (omega (arith, k.upto, k.from), omega (arith, k.upto, k.from)))
    ]
    Took-of_Held j (inr h) =
        inr (Any-of_erase (Covers j) k.e r.mapbuffer (subst (Any (Covers j)) k.erased h))

    Took-shorter : length t.mapbuffer + 1 ≡ length r.mapbuffer
    Took-shorter = rw k.erased (length-erase k.e r.mapbuffer k.member)

  -- What the loop leaves: the same bytes are held, and no waiting substring can be used.
  pub record Drained (r t : StreamReassembler) : Type 0 where
    pub inv : Inv peer size t
    pub settled : All (Ahead t) t.mapbuffer
    pub holds : (j : ℕ) → Held r j → Held t j
    pub of_holds : (j : ℕ) → Held t j → Held r j
    pub bytes_read : t.output.bytes_read ≡ r.output.bytes_read
    pub cap : t.output.capacity ≡ r.output.capacity
    pub has_eof : t.has_eof ≡ r.has_eof
    pub grows : r.first_unassembled ≤ t.first_unassembled

  Took-Drained : {r t u : StreamReassembler} → Took r t → Drained t u → Drained r u
  Took-Drained k d = record {
    inv = d.inv;
    settled = d.settled;
    holds = λ j h. d.holds j (Took-Held k j h);
    of_holds = λ j h. Took-of_Held k j (d.of_holds j h);
    bytes_read = d.bytes_read ∙ k.bytes_read;
    cap = d.cap ∙ k.cap;
    has_eof = d.has_eof ∙ k.has_eof;
    grows = omega (arith, d.grows, k.upto);
  }

  pub read_out-Drained :
      (fuel : ℕ) (r : StreamReassembler)
      → Inv peer size r
      → length r.mapbuffer < fuel
      → Drained r (read_out fuel r)
  read_out-Drained zero r v h = absurd (omega arith)
  read_out-Drained (suc fuel) r v h =
      go (scan r r.mapbuffer) refl (scan-Scanned r r.mapbuffer v (All-In r.mapbuffer))
        (λ t i l. read_out-Drained fuel t i l)
    where
      go :
          (o : Option StreamReassembler)
          → scan r r.mapbuffer ≡ o
          → Scanned r r.mapbuffer o
          → ((t : StreamReassembler)
              → Inv peer size t
              → length t.mapbuffer < fuel
              → Drained t (read_out fuel t))
          → Drained r (read_out (suc fuel) r)
      go none e s ih =
          unfold read_out Scanned in
          rw (e, read_out)
            (record {
              inv = v;
              settled = s;
              holds = λ j p. p;
              of_holds = λ j p. p;
              bytes_read = refl;
              cap = refl;
              has_eof = refl;
              grows = omega arith;
            })
      go (some t) e s ih =
          unfold read_out Scanned in
          rw (e, read_out) (Took-Drained s (ih t s.inv (omega (arith, Took-shorter s))))
