-- ===== src/Ipv4Header/RoundTrip.antt =====
-- The fields that are read back from a header that was written.
use sponge.Prelude.{
  ℕ, ◌+◌, ◌-◌, ◌*◌, ◌/◌, ◌%◌, ◌^◌, ◌≤◌, ◌<◌, ◌≡◌, refl, Bool, ◌++◌, Bytes, some, arith,
}
use sponge.NetParser.{of_buffer}
use sponge.NetParser.RoundTrip.{u8-unparse, u16-unparse, u32-unparse}
use sponge.NetUnparser.{unparse_int, unparse_loop}
use sponge.TcpHeader.{has_bit, bit, resize, zeros}
use sponge.Ipv4Header.{Ipv4Header, first_byte, fo_val, parse_fields, serialize}

-- The fields are in the range of their types.
pub record IsIpv4Header (h : Ipv4Header) : Type 0 where
  pub ver : h.ver ≡ 4
  pub hlen_min : 5 ≤ h.hlen
  pub hlen_max : h.hlen < 16
  pub tos : h.tos < 2 ^ 8
  pub len : h.len < 2 ^ 16
  pub id : h.id < 2 ^ 16
  pub offset : h.offset < 2 ^ 13
  pub ttl : h.ttl < 2 ^ 8
  pub proto : h.proto < 2 ^ 8
  pub cksum : h.cksum < 2 ^ 16
  pub src : h.src < 2 ^ 32
  pub dst : h.dst < 2 ^ 32

abbrev after_src : Ipv4Header → Bytes → Bytes
after_src h rest = unparse_loop 4 h.dst ++ rest

abbrev after_cksum : Ipv4Header → Bytes → Bytes
after_cksum h rest = unparse_loop 4 h.src ++ after_src h rest

abbrev after_proto : Ipv4Header → Bytes → Bytes
after_proto h rest = unparse_loop 2 h.cksum ++ after_cksum h rest

abbrev after_ttl : Ipv4Header → Bytes → Bytes
after_ttl h rest = unparse_loop 1 h.proto ++ after_proto h rest

abbrev after_offset : Ipv4Header → Bytes → Bytes
after_offset h rest = unparse_loop 1 h.ttl ++ after_ttl h rest

abbrev after_id : Ipv4Header → Bytes → Bytes
after_id h rest = unparse_loop 2 (fo_val h) ++ after_offset h rest

abbrev after_len : Ipv4Header → Bytes → Bytes
after_len h rest = unparse_loop 2 h.id ++ after_id h rest

abbrev after_tos : Ipv4Header → Bytes → Bytes
after_tos h rest = unparse_loop 2 h.len ++ after_len h rest

abbrev after_first : Ipv4Header → Bytes → Bytes
after_first h rest = unparse_loop 1 h.tos ++ after_tos h rest

-- The bytes of a header, without the rest of the options.
abbrev pub fixed : Ipv4Header → Bytes → Bytes
fixed h rest = unparse_loop 1 (first_byte h) ++ after_first h rest

pub serialize_lem :
    (h : Ipv4Header) → IsIpv4Header h → serialize h ≡ some (fixed h (zeros (4 * h.hlen - 20)))
unfolding serialize resize unparse_int unparse_loop
serialize_lem h v = ground (arith, v)

fo_val_bits :
    (df mf : Bool) (offset : ℕ)
    → offset < 2 ^ 13
    → let n = bit df 16384 + bit mf 8192 + offset % 8192 in
      (n < 2 ^ 16) × (has_bit n 16384 ≡ df) × (has_bit n 8192 ≡ mf) × (n % 8192 ≡ offset)
fo_val_bits df mf offset h = ground arith

pub parse_fields-fixed :
    (h : Ipv4Header) (rest : Bytes)
    → IsIpv4Header h
    → parse_fields (of_buffer (fixed h rest)) ≡ (of_buffer rest, h)
unfolding parse_fields
parse_fields-fixed h rest v =
    let (small, b0, b1, b2) = fo_val_bits h.df h.mf h.offset v.offset in
    let ver : first_byte h / 16 ≡ h.ver = omega (arith, v) in
    let hlen : first_byte h % 16 ≡ h.hlen = omega (arith, v) in
    rw
      (
        u8-unparse (first_byte h) (after_first h rest) (omega arith),
        u8-unparse h.tos (after_tos h rest) v.tos,
        u16-unparse h.len (after_len h rest) v.len,
        u16-unparse h.id (after_id h rest) v.id,
        u16-unparse (fo_val h) (after_offset h rest) small,
        u8-unparse h.ttl (after_ttl h rest) v.ttl,
        u8-unparse h.proto (after_proto h rest) v.proto,
        u16-unparse h.cksum (after_cksum h rest) v.cksum,
        u32-unparse h.src (after_src h rest) v.src,
        u32-unparse h.dst rest v.dst,
        ver,
        hlen,
        b0,
        b1,
        b2,
      )
      refl
