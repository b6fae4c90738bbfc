-- ===== src/Ipv4Header.antt =====
-- libsponge/tcp_helpers/ipv4_header.hh and ipv4_header.cc: an IPv4 header, and its form on the wire.
pub mod RoundTrip
use sponge.Prelude.{
  ℕ, ◌+◌, ◌-◌, ◌*◌, ◌/◌, ◌%◌, ◌^◌, Bool, true, false, not, [], Option, none, some, Bytes, length,
  take, ltb, ◌==◌, if◌then◌else◌,
}
use sponge.NetParser.{
  NetParser, ParseResult, no_error, bad_checksum, packet_too_short, wrong_ip_version,
  header_too_short, truncated_packet, error, u8, u16, u32, remove_prefix,
}
use sponge.NetUnparser
use sponge.InternetChecksum
use sponge.InternetChecksum.{add, value}
use sponge.TcpHeader.{has_bit, bit, resize}

pub record Ipv4Header : Type 0 where
  pub ver : ℕ
  pub hlen : ℕ
  pub tos : ℕ
  pub len : ℕ
  pub id : ℕ
  pub df : Bool
  pub mf : Bool
  pub offset : ℕ
  pub ttl : ℕ
  pub proto : ℕ
  pub cksum : ℕ
  pub src : ℕ
  pub dst : ℕ

-- `IPv4Header::LENGTH`, without options.
abbrev pub header_length : ℕ
header_length = 20

-- `IPv4Header{}`
abbrev pub default : Ipv4Header
default = record {
  ver = 4;
  hlen = 5;
  tos = 0;
  len = 0;
  id = 0;
  df = true;
  mf = false;
  offset = 0;
  ttl = 128;
  proto = 6;
  cksum = 0;
  src = 0;
  dst = 0;
}

-- `payload_length`, a `uint16_t`.
abbrev pub payload_length : Ipv4Header → ℕ
payload_length h = (h.len + 2 ^ 16 - 4 * h.hlen) % 2 ^ 16

-- `pseudo_cksum`, in `uint32_t`.
unfoldable pub pseudo_cksum : Ipv4Header → ℕ
pseudo_cksum h =
    let pcksum = (h.src / 65536 + h.src % 65536) % 2 ^ 32 in
    let pcksum = (pcksum + (h.dst / 65536 + h.dst % 65536)) % 2 ^ 32 in
    let pcksum = (pcksum + h.proto) % 2 ^ 32 in (pcksum + payload_length h) % 2 ^ 32

-- The last statements of `parse`: the options, and the checksum of the header.
unfoldable pub check_header : Bytes → Ipv4Header → NetParser → NetParser × ParseResult
check_header original h p =
    let p' = remove_prefix p (h.hlen * 4 - header_length) in
    (
      p',
      if error p'
          then p'.get_error
          else if not (value (add (InternetChecksum.new 0) (take (4 * h.hlen) original)) == 0)
          then bad_checksum
          else no_error,
    )

-- The checks of `parse` on the fields that it has read.
unfoldable pub check_fields : Bytes → Ipv4Header → NetParser → NetParser × ParseResult
check_fields original h p =
    if ltb (length original) (4 * h.hlen)
    then (p, packet_too_short)
    else if not (h.ver == 4)
    then (p, wrong_ip_version)
    else if ltb h.hlen 5
    then (p, header_too_short)
    else if not (length original == h.len)
    then (p, truncated_packet)
    else check_header original h p

-- The fields of `IPv4Header::parse`.
unfoldable pub parse_fields : NetParser → NetParser × Ipv4Header
parse_fields p =
    let (p, first_byte) = u8 p in
    let (p, tos) = u8 p in
    let (p, len) = u16 p in
    let (p, id) = u16 p in
    let (p, fo_val) = u16 p in
    let (p, ttl) = u8 p in
    let (p, proto) = u8 p in
    let (p, cksum) = u16 p in
    let (p, src) = u32 p in
    let (p, dst) = u32 p in
    (
      p,
      record {
        ver = first_byte / 16;
        hlen = first_byte % 16;
        tos = tos;
        len = len;
        id = id;
        df = has_bit fo_val 16384;
        mf = has_bit fo_val 8192;
        offset = fo_val % 8192;
        ttl = ttl;
        proto = proto;
        cksum = cksum;
        src = src;
        dst = dst;
      },
    )

-- `IPv4Header::parse`, of a header that holds `h` before.
unfoldable pub parse : Ipv4Header → NetParser → NetParser × Ipv4Header × ParseResult
parse h p =
    if ltb (length p.buffer) header_length
    then (p, h, packet_too_short)
    else let (p', h') = parse_fields p in
      let (p'', result) = check_fields p.buffer h' p' in (p'', h', result)

-- The first byte, and the flags with the offset; `|` of different bits is their sum.
abbrev pub first_byte : Ipv4Header → ℕ
first_byte h = (h.ver * 16 + h.hlen % 16) % 256

abbrev pub fo_val : Ipv4Header → ℕ
fo_val h = bit h.df 16384 + bit h.mf 8192 + h.offset % 8192

-- `IPv4Header::serialize`; `none` is one of its exceptions.
unfoldable pub serialize : Ipv4Header → Option Bytes
serialize h =
    if not (h.ver == 4)
    then none
    else if ltb (4 * h.hlen) header_length
    then none
    else let s = NetUnparser.u8 [] (first_byte h) in
      let s = NetUnparser.u8 s h.tos in
      let s = NetUnparser.u16 s h.len in
      let s = NetUnparser.u16 s h.id in
      let s = NetUnparser.u16 s (fo_val h) in
      let s = NetUnparser.u8 s h.ttl in
      let s = NetUnparser.u8 s h.proto in
      let s = NetUnparser.u16 s h.cksum in
      let s = NetUnparser.u32 s h.src in
      let s = NetUnparser.u32 s h.dst in some (resize s (4 * h.hlen))
