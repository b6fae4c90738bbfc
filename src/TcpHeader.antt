-- ===== src/TcpHeader.antt =====
-- libsponge/tcp_helpers/tcp_header.hh and tcp_header.cc: a TCP header, and its form on the wire.
pub mod RoundTrip
pub mod Accepts
mod Tests
use sponge.Prelude.{
  ℕ, zero, suc, ◌+◌, ◌-◌, ◌*◌, ◌/◌, ◌%◌, Bool, true, false, not, List, [], ◌∷◌, ◌++◌, Option, none,
  some, Bytes, length, take, ltb, ◌==◌, if◌then◌else◌,
}
use sponge.WrappingInt32.{WrappingInt32}
use sponge.NetParser
use sponge.NetParser.{
  NetParser, ParseResult, no_error, header_too_short, error, u8, u16, u32, remove_prefix,
}
use sponge.NetUnparser

-- The fields of `struct TCPHeader`.
pub record TcpHeader : Type 0 where
  pub sport : ℕ
  pub dport : ℕ
  pub seqno : WrappingInt32
  pub ackno : WrappingInt32
  pub doff : ℕ
  pub urg : Bool
  pub ack : Bool
  pub psh : Bool
  pub rst : Bool
  pub syn : Bool
  pub fin : Bool
  pub win : ℕ
  pub cksum : ℕ
  pub uptr : ℕ

-- `TCPHeader::LENGTH`, without options.
abbrev pub header_length : ℕ
header_length = 20

-- `TCPHeader{}`
abbrev pub default : TcpHeader
default = record {
  sport = 0;
  dport = 0;
  seqno = record { raw_value = 0 };
  ackno = record { raw_value = 0 };
  doff = 5;
  urg = false;
  ack = false;
  psh = false;
  rst = false;
  syn = false;
  fin = false;
  win = 0;
  cksum = 0;
  uptr = 0;
}

-- The bit of value `2 ^ k` of a byte, for `weight` that power.
abbrev pub has_bit : ℕ → ℕ → Bool
has_bit byte weight = not (byte / weight % 2 == 0)

abbrev pub bit : Bool → ℕ → ℕ
bit b weight = if b then weight else 0

-- The last statements of `parse`: the checks on the data offset, and the options.
unfoldable pub skip_options : NetParser → ℕ → NetParser × ParseResult
skip_options p doff =
    if ltb doff 5
    then (p, header_too_short)
    else let p' = remove_prefix p (doff * 4 - header_length) in
      (p', if error p' then p'.get_error else no_error)

-- `TCPHeader::parse`: the parser behind the header, the header, and the result.
unfoldable pub parse : NetParser → NetParser × TcpHeader × ParseResult
parse p =
    let (p, sport) = u16 p in
    let (p, dport) = u16 p in
    let (p, seqno) = u32 p in
    let (p, ackno) = u32 p in
    let (p, first) = u8 p in
    let doff = first / 16 in
    let (p, fl_b) = u8 p in
    let (p, win) = u16 p in
    let (p, cksum) = u16 p in
    let (p, uptr) = u16 p in
    let (p, result) = skip_options p doff in
    (
      p,
      record {
        sport = sport;
        dport = dport;
        seqno = record { raw_value = seqno };
        ackno = record { raw_value = ackno };
        doff = doff;
        urg = has_bit fl_b 32;
        ack = has_bit fl_b 16;
        psh = has_bit fl_b 8;
        rst = has_bit fl_b 4;
        syn = has_bit fl_b 2;
        fin = has_bit fl_b 1;
        win = win;
        cksum = cksum;
        uptr = uptr;
      },
      result,
    )

-- The flags; `|` of different bits is their sum.
unfoldable pub flags : TcpHeader → ℕ
flags h = bit h.urg 32 + bit h.ack 16 + bit h.psh 8 + bit h.rst 4 + bit h.syn 2 + bit h.fin 1

abbrev pub zeros : ℕ → Bytes
zeros zero = []
zeros (suc n) = 0 ∷ zeros n

-- `string::resize`
unfoldable pub resize : Bytes → ℕ → Bytes
resize s n = if ltb n (length s) then take n s else s ++ zeros (n - length s)

-- `TCPHeader::serialize`; `none` is the exception on a data offset below 5.
unfoldable pub serialize : TcpHeader → Option Bytes
serialize h =
    if ltb h.doff 5
    then none
    else let ret = NetUnparser.u16 [] h.sport in
      let ret = NetUnparser.u16 ret h.dport in
      let ret = NetUnparser.u32 ret h.seqno.raw_value in
      let ret = NetUnparser.u32 ret h.ackno.raw_value in
      let ret = NetUnparser.u8 ret (h.doff * 16 % 256) in
      let ret = NetUnparser.u8 ret (flags h) in
      let ret = NetUnparser.u16 ret h.win in
      let ret = NetUnparser.u16 ret h.cksum in
      let ret = NetUnparser.u16 ret h.uptr in some (resize ret (4 * h.doff))
