-- ===== src/StreamReassembler/Reassembly.antt =====
-- `push_substring` as a whole, and the reader of the assembled stream: which bytes are held
-- afterwards, and what the reader gets.
use sponge.Prelude.{
  ℕ, ◌+◌, ◌-◌, ◌≡◌, ap, ◌∙◌, sym, Bool, ◌||◌, List, [], ◌∷◌, Bytes, length, arith, ◌⊎◌, inl, inr,
  ◌↔◌, subst, min,
}
use sponge.ByteStream
use sponge.StreamReassembler.{
  StreamReassembler, push_onestr, note_eof, truncation_data, accept, push_substring,
}
use sponge.StreamReassembler.Substrings.{Substring, All, Any}
use sponge.StreamReassembler.Invariant.{edge, Fits, Core, Inv}
use sponge.StreamReassembler.Push.{push_onestr-Pushed}
use sponge.StreamReassembler.Held.{Covers, Held, Ahead, Drained, read_out-Drained}
use sponge.StreamReassembler.Receive.{
  Consistent, Offered, Accepted, note_eof-Core, truncation_data-Fits, keep-Accepted,
}

Ahead-not_held :
    (r : StreamReassembler) (es : List Substring)
    → All (Ahead r) es
    → ¬ Any (Covers r.first_unassembled) es
Ahead-not_held r [] a h = h
Ahead-not_held r (e ∷ es) a (inl c) = omega arith
Ahead-not_held r (e ∷ es) a (inr h) = Ahead-not_held r es a.1 h

module _ (peer : ℕ → ℕ) (size : ℕ) where
  module _ {r : StreamReassembler} (v : Inv peer size r) {text : Bytes} {index : ℕ} {eof : Bool}
      (c : Consistent peer size r text index eof) where
    noted : StreamReassembler
    noted = note_eof r index (length text) eof

    part : Substring
    part = record { index = index; bytes = truncation_data noted text index }

    noted-Core :
        Core peer size noted
        × (noted.output ≡ r.output)
        × (noted.mapbuffer ≡ r.mapbuffer)
        × (noted.first_unassembled ≡ r.first_unassembled)
    unfolding noted
    noted-Core = note_eof-Core peer size v.core c

    noted-edge : edge noted ≡ edge r
    noted-edge = ap (λ (o : ByteStream.ByteStream). o.bytes_read + o.capacity) noted-Core.1

    noted_waiting : All (Fits peer size (edge noted)) noted.mapbuffer
    noted_waiting =
        subst (λ b. All (Fits peer size b) noted.mapbuffer) (sym noted-edge)
          (subst (All (Fits peer size (edge r))) (sym noted-Core.2) v.waiting)

    part-Fits :
        Fits peer size (edge noted) part
        × (length part.bytes ≡ min (length text) (edge noted - index))
    unfolding part
    part-Fits =
        truncation_data-Fits peer size text index noted-Core.0 c.exact c.in_stream
          (omega (arith, noted-edge, c.in_window))

    accept-Accepted : Accepted peer size noted part (accept r text index eof)
    unfolding accept part note_eof noted
    accept-Accepted =
        keep-Accepted peer size noted part (push_onestr noted part.bytes index) noted-Core.0
          noted_waiting part-Fits.0
          (push_onestr-Pushed peer size noted part noted-Core.0 part-Fits.0)

    pub push_substring-Drained :
        Drained peer size (accept r text index eof) (push_substring r text index eof)
    unfolding push_substring
    push_substring-Drained = read_out-Drained peer size _ _ accept-Accepted.inv (omega arith)

    -- A substring of the peer's stream that starts inside the window keeps the invariant of the
    -- reassembler: the output is a prefix of the stream within the capacity, the waiting
    -- substrings are parts of the stream inside the window, and the input is ended once the last
    -- byte of a stream whose end is known is written out.
    pub push_substring-Inv : Inv peer size (push_substring r text index eof)
    push_substring-Inv = push_substring-Drained.inv

    pub bytes_read-push_substring :
        (push_substring r text index eof).output.bytes_read ≡ r.output.bytes_read
    bytes_read-push_substring =
        push_substring-Drained.bytes_read
        ∙ accept-Accepted.bytes_read
        ∙ ap (λ (o : ByteStream.ByteStream). o.bytes_read) noted-Core.1

    pub has_eof-push_substring : (push_substring r text index eof).has_eof ≡ (eof || r.has_eof)
    unfolding noted note_eof
    has_eof-push_substring = push_substring-Drained.has_eof ∙ accept-Accepted.has_eof ∙ ground arith

    pub cap-push_substring : (push_substring r text index eof).output.capacity ≡ r.output.capacity
    cap-push_substring =
        push_substring-Drained.cap
        ∙ accept-Accepted.cap
        ∙ ap (λ (o : ByteStream.ByteStream). o.capacity) noted-Core.1

    -- After a substring of the peer's stream that starts inside the window, under the invariant,
    -- exactly those bytes are held, written out or waiting, that were held before or that the
    -- substring offers inside the window.
    pub push_substring-Held :
        (j : ℕ) → Held (push_substring r text index eof) j ↔ (Held r j ⊎ Offered r text index j)
    unfolding part
    push_substring-Held j = (
      λ h. from_accepted (accept-Accepted.of_holds j (push_substring-Drained.of_holds j h)),
      λ h. push_substring-Drained.holds j (accept-Accepted.holds j (to_accepted h)),
    )
      where
        from_accepted : Held noted j ⊎ Covers j part → Held r j ⊎ Offered r text index j
        from_accepted (inl (inl h)) = inl (inl (omega (arith, noted-Core.3)))
        from_accepted (inl (inr h)) = inl (inr (subst (Any (Covers j)) noted-Core.2 h))
        from_accepted (inr h) =
            inr (h.0, omega (arith, part-Fits.1, h), omega (arith, part-Fits.1, noted-edge, h))

        to_accepted : Held r j ⊎ Offered r text index j → Held noted j ⊎ Covers j part
        to_accepted (inl (inl h)) = inl (inl (omega (arith, noted-Core.3)))
        to_accepted (inl (inr h)) = inl (inr (subst (Any (Covers j)) (sym noted-Core.2) h))
        to_accepted (inr h) = inr (h.0, omega (arith, part-Fits.1, noted-edge, h))

    -- After a substring of the peer's stream that starts inside the window, under the invariant,
    -- the first byte that is not written out is one that is not held at all: nothing that could
    -- be written out is left waiting.
    pub push_substring-first_missing :
        let t = push_substring r text index eof in ¬ Held t t.first_unassembled
    push_substring-first_missing (inl h) = omega arith
    push_substring-first_missing (inr h) =
        Ahead-not_held (push_substring r text index eof) _ push_substring-Drained.settled h
