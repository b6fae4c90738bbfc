-- ===== src/StreamReassembler/Grows.antt =====
-- What arrives only adds to the end of the inbound stream.
use sponge.Prelude.{
  ℕ, zero, suc, ◌≡◌, refl, ap, sym, subst, ◌+◌, ◌∙◌, Bool, true, false, ◌||◌, ◌&&◌, if_both, [],
  ◌∷◌, ◌++◌, List, Option, none, some, Bytes, length, take, append-nil, append_assoc, ◌==◌,
  if◌then◌else◌, add64, sub64, ltb, leb,
}
use sponge.ByteStream
use sponge.ByteStream.{ByteStream}
use sponge.StreamReassembler.{
  StreamReassembler, check_end, emit, push_onestr, scan, read_out, note_eof, keep, accept,
  truncation_data, push_substring, substr,
}
use sponge.StreamReassembler.Substrings.{Substring, erase}

-- The second list is the first with more behind it.
abbrev pub Grows : Bytes → Bytes → Type 0
Grows xs ys = (zs : Bytes) × (ys ≡ xs ++ zs)

pub Grows-self : (xs : Bytes) → Grows xs xs
Grows-self xs = ([], sym (append-nil xs))

pub Grows-trans : (xs ys zs : Bytes) → Grows xs ys → Grows ys zs → Grows xs zs
Grows-trans xs ys zs (a, e) (b, f) = (a ++ b, f ∙ ap (λ l. l ++ b) e ∙ append_assoc xs a b)

write-Grows : (s : ByteStream) (text : Bytes) → Grows s.buffer (ByteStream.write s text).0.buffer
unfolding ByteStream.write
write-Grows s text =
    if_both (λ (r : ByteStream × ℕ). Grows s.buffer (r.0.buffer)) (s.input_end || s.error)
      {x = (s, 0)} (Grows-self s.buffer)
      (if_both (λ (r : ByteStream × ℕ). Grows s.buffer (r.0.buffer))
        (ByteStream.remaining_capacity s == 0) {x = (s, 0)} (Grows-self s.buffer)
        (take (ByteStream.write_bytes s text) text, refl))

-- The bytes that are in order, and have not been read.
abbrev pub inbound : StreamReassembler → Bytes
inbound r = r.output.buffer

abbrev More : StreamReassembler → StreamReassembler → Type 0
More r r' = Grows (inbound r) (inbound r')

check_end-More : (r : StreamReassembler) → More r (check_end r)
unfolding check_end ByteStream.end_input
check_end-More r =
    if_both (More r) (r.has_eof && r.first_unassembled == add64 r.final_idx 1) {y = r}
      (Grows-self (inbound r)) (Grows-self (inbound r))

emit-More : (r : StreamReassembler) (text : Bytes) (next : ℕ) → More r (emit r text next)
unfolding emit
emit-More r text next =
    let r' = record r { output = (ByteStream.write r.output text).0; first_unassembled = next } in
    Grows-trans (inbound r) (inbound r') (inbound (check_end r')) (write-Grows r.output text)
      (check_end-More r')

abbrev TurnMore : StreamReassembler → Bool × StreamReassembler → Type 0
TurnMore r (used, r') = More r r'

push_onestr-More :
    (r : StreamReassembler) (text : Bytes) (index : ℕ) → TurnMore r (push_onestr r text index)
unfolding push_onestr
push_onestr-More r text index =
    let last : TurnMore r (
        if ltb index r.first_unassembled && ltb r.first_unassembled (add64 index (length text))
        then (
          true,
          emit r
              (substr (sub64 r.first_unassembled index)
                (sub64 (add64 index (length text)) r.first_unassembled) text)
              (sub64 (add64 (add64 r.first_unassembled index) (length text)) r.first_unassembled),
        )
        else (false, r)) =
      if_both (TurnMore r)
        (ltb index r.first_unassembled && ltb r.first_unassembled (add64 index (length text)))
        {y = (false, r)} (emit-More r _ _) (Grows-self (inbound r)) in
    if_both (TurnMore r) (index == r.first_unassembled)
      {x = (true, emit r text (add64 r.first_unassembled (length text)))} (emit-More r text _)
      (if_both (TurnMore r) (leb (add64 index (length text)) r.first_unassembled)
        {x = (true, check_end r)} (check_end-More r) last)

abbrev ScanMore : StreamReassembler → Option StreamReassembler → Type 0
ScanMore r none = Unit
ScanMore r (some r') = More r r'

scan-More : (r : StreamReassembler) (l : List Substring) → ScanMore r (scan r l)
unfolding scan
scan-More r [] = tt
scan-More r (x ∷ l) =
    if_both (ScanMore r) (push_onestr r x.bytes x.index).0
      {x = some (record ((push_onestr r x.bytes x.index).1) {
        mapbuffer = erase x (push_onestr r x.bytes x.index).1.mapbuffer;
      })}
      (push_onestr-More r x.bytes x.index) (scan-More r l)

read_out-next :
    (fuel : ℕ) (r : StreamReassembler) (o : Option StreamReassembler)
    → ScanMore r o
    → ((r' : StreamReassembler) → More r' (read_out fuel r'))
    → More r (elim o [ none ↦ r | some r' ↦ read_out fuel r' ])
read_out-next fuel r none h go = Grows-self (inbound r)
read_out-next fuel r (some r') h go =
    Grows-trans (inbound r) (inbound r') (inbound (read_out fuel r')) h (go r')

read_out-More : (fuel : ℕ) (r : StreamReassembler) → More r (read_out fuel r)
unfolding read_out
read_out-More zero r = Grows-self (inbound r)
read_out-More (suc fuel) r =
    read_out-next fuel r (scan r r.mapbuffer) (scan-More r r.mapbuffer)
      (λ r'. read_out-More fuel r')

keep-More : (r : StreamReassembler) (text : Bytes) (index : ℕ) → More r (keep r text index)
unfolding keep
keep-More r text index =
    if_both (More r) (ltb r.first_unassembled index) {y = r} (Grows-self (inbound r))
      (Grows-self (inbound r))

note_eof-same :
    (r : StreamReassembler) (index len : ℕ) (eof : Bool)
    → inbound (note_eof r index len eof) ≡ inbound r
unfolding note_eof
note_eof-same r index len true = refl
note_eof-same r index len false = refl

accept-More :
    (r : StreamReassembler) (text : Bytes) (index : ℕ) (eof : Bool)
    → More r (accept r text index eof)
unfolding accept
accept-More r text index eof =
    let r1 = note_eof r index (length text) eof in
    let cut = truncation_data r1 text index in
    let r2 = (push_onestr r1 cut index).1 in
    subst (λ xs. Grows xs (inbound (keep r2 cut index))) (note_eof-same r index (length text) eof)
      (Grows-trans (inbound r1) (inbound r2) (inbound (keep r2 cut index))
        (push_onestr-More r1 cut index) (keep-More r2 cut index))

-- A substring that arrives only adds to what is in order.
pub push_substring-Grows :
    (r : StreamReassembler) (text : Bytes) (index : ℕ) (eof : Bool)
    → Grows (inbound r) (inbound (push_substring r text index eof))
unfolding push_substring
push_substring-Grows r text index eof =
    let r' = accept r text index eof in
    Grows-trans (inbound r) (inbound r') (inbound (read_out (length r'.mapbuffer + 1) r'))
      (accept-More r text index eof) (read_out-More (length r'.mapbuffer + 1) r')
