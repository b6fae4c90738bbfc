-- ===== src/TcpHeader/RoundTrip.antt =====
-- The parser reads back the header that was written.
use sponge.Prelude.{
  ℕ, zero, suc, ◌+◌, ◌-◌, ◌*◌, ◌/◌, ◌%◌, ◌^◌, ◌≤◌, ◌<◌, ◌≡◌, refl, ap, ◌∙◌, Bool, ◌++◌, some, Bytes,
  length, drop, arith, length-append,
}
use sponge.WrappingInt32.RoundTrip.{IsWord}
use sponge.NetParser.{no_error, of_buffer, check_size, remove_prefix}
use sponge.NetParser.RoundTrip.{u8-unparse, u16-unparse, u32-unparse}
use sponge.NetUnparser.{unparse_int, unparse_loop}
use sponge.TcpHeader.{TcpHeader, parse, skip_options, flags, serialize, resize, zeros, has_bit, bit}

-- The fields are in the range of their types, and the data offset in that of its four bits.
pub record IsHeader (h : TcpHeader) : Type 0 where
  pub sport : h.sport < 2 ^ 16
  pub dport : h.dport < 2 ^ 16
  pub seqno : IsWord h.seqno
  pub ackno : IsWord h.ackno
  pub doff_min : 5 ≤ h.doff
  pub doff_max : h.doff < 16
  pub win : h.win < 2 ^ 16
  pub cksum : h.cksum < 2 ^ 16
  pub uptr : h.uptr < 2 ^ 16

-- The bytes of a header, without the rest of the options.
abbrev pub fixed : TcpHeader → Bytes → Bytes
fixed h rest =
    let after_cksum = unparse_loop 2 h.uptr ++ rest in
    let after_win = unparse_loop 2 h.cksum ++ after_cksum in
    let after_flags = unparse_loop 2 h.win ++ after_win in
    let after_doff = unparse_loop 1 (flags h) ++ after_flags in
    let after_ackno = unparse_loop 1 (h.doff * 16 % 256) ++ after_doff in
    let after_seqno = unparse_loop 4 h.ackno.raw_value ++ after_ackno in
    let after_dport = unparse_loop 4 h.seqno.raw_value ++ after_seqno in
    let after_sport = unparse_loop 2 h.dport ++ after_dport in unparse_loop 2 h.sport ++ after_sport

pub length-zeros : (n : ℕ) → length (zeros n) ≡ n
length-zeros zero = refl
length-zeros (suc n) = omega (arith, length-zeros n)

pub drop-zeros : (n : ℕ) (rest : Bytes) → drop n (zeros n ++ rest) ≡ rest
drop-zeros zero rest = refl
drop-zeros (suc n) rest = drop-zeros n rest

pub serialize_lem :
    (h : TcpHeader) → IsHeader h → serialize h ≡ some (fixed h (zeros (4 * h.doff - 20)))
unfolding serialize resize unparse_int unparse_loop
serialize_lem h v = ground (arith, v)

-- Each flag is read back from its bit.
flags_bits :
    (urg ack psh rst syn fin : Bool)
    → let fl_b = bit urg 32 + bit ack 16 + bit psh 8 + bit rst 4 + bit syn 2 + bit fin 1 in
      (fl_b < 2 ^ 8)
      × (has_bit fl_b 32 ≡ urg)
      × (has_bit fl_b 16 ≡ ack)
      × (has_bit fl_b 8 ≡ psh)
      × (has_bit fl_b 4 ≡ rst)
      × (has_bit fl_b 2 ≡ syn)
      × (has_bit fl_b 1 ≡ fin)
flags_bits urg ack psh rst syn fin = ground arith

skip_zeros :
    (doff : ℕ) (rest : Bytes)
    → 5 ≤ doff
    → doff < 16
    → skip_options (of_buffer (zeros (4 * doff - 20) ++ rest)) doff ≡ (of_buffer rest, no_error)
unfolding skip_options remove_prefix check_size
skip_zeros doff rest h k =
    let same : doff * 4 - 20 ≡ 4 * doff - 20 = omega arith in
    ground (
      arith,
      same,
      drop-zeros (4 * doff - 20) rest,
      length-append (zeros (4 * doff - 20)) rest,
      length-zeros (4 * doff - 20),
    )

pub parse-fixed :
    (h : TcpHeader) (rest : Bytes)
    → IsHeader h
    → parse (of_buffer (fixed h (zeros (4 * h.doff - 20) ++ rest))) ≡ (of_buffer rest, h, no_error)
unfolding parse flags
parse-fixed h rest v =
    let after_cksum = unparse_loop 2 h.uptr ++ (zeros (4 * h.doff - 20) ++ rest) in
    let after_win = unparse_loop 2 h.cksum ++ after_cksum in
    let after_flags = unparse_loop 2 h.win ++ after_win in
    let after_doff = unparse_loop 1 (flags h) ++ after_flags in
    let after_ackno = unparse_loop 1 (h.doff * 16 % 256) ++ after_doff in
    let after_seqno = unparse_loop 4 h.ackno.raw_value ++ after_ackno in
    let after_dport = unparse_loop 4 h.seqno.raw_value ++ after_seqno in
    let after_sport = unparse_loop 2 h.dport ++ after_dport in
    let (small, b0, b1, b2, b3, b4, b5) = flags_bits h.urg h.ack h.psh h.rst h.syn h.fin in
    let same : h.doff * 16 % 256 / 16 ≡ h.doff = omega (arith, v) in
    rw
      (
        fixed,
        u16-unparse h.sport after_sport v.sport,
        u16-unparse h.dport after_dport v.dport,
        u32-unparse h.seqno.raw_value after_seqno v.seqno,
        u32-unparse h.ackno.raw_value after_ackno v.ackno,
        u8-unparse (h.doff * 16 % 256) after_doff (omega arith),
        u8-unparse (flags h) after_flags small,
        u16-unparse h.win after_win v.win,
        u16-unparse h.cksum after_cksum v.cksum,
        u16-unparse h.uptr (zeros (4 * h.doff - 20) ++ rest) v.uptr,
        same,
        skip_zeros h.doff rest v.doff_min v.doff_max,
        b0,
        b1,
        b2,
        b3,
        b4,
        b5,
      )
      refl

pub fixed-append :
    (h : TcpHeader) (options rest : Bytes) → fixed h options ++ rest ≡ fixed h (options ++ rest)
unfolding unparse_loop
fixed-append h options rest = refl

pub length-fixed : (h : TcpHeader) (rest : Bytes) → length (fixed h rest) ≡ 20 + length rest
unfolding unparse_loop
length-fixed h rest = omega arith

-- For a header whose fields are in the range of their types and whose data offset is from 5 to
-- 15, followed by any bytes: serialize gives four bytes for each unit of the data offset, from
-- which parse reads the header back without an error, and leaves the bytes that follow.
pub parse-serialize :
    (h : TcpHeader) (rest : Bytes)
    → IsHeader h
    → (s : Bytes) × (serialize h ≡ some s)
      × (length s ≡ 4 * h.doff)
      × (parse (of_buffer (s ++ rest)) ≡ (of_buffer rest, h, no_error))
parse-serialize h rest v =
    let options = zeros (4 * h.doff - 20) in
    (
      fixed h options,
      serialize_lem h v,
      omega (arith, length-fixed h options, length-zeros (4 * h.doff - 20), v),
      ap (λ s. parse (of_buffer s)) (fixed-append h options rest) ∙ parse-fixed h rest v,
    )
