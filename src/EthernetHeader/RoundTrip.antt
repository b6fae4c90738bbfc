-- ===== src/EthernetHeader/RoundTrip.antt =====
-- The parser reads back the header that was written.
use sponge.Prelude.{◌^◌, ◌<◌, false, ◌≡◌, refl, ◌++◌, Bytes, length, ltb, arith}
use sponge.NetParser.{no_error, of_buffer}
use sponge.NetParser.RoundTrip.{u8-unparse, u16-unparse}
use sponge.NetUnparser.{unparse_int, unparse_loop}
use sponge.EthernetHeader.{
  EthernetAddress, EthernetHeader, parse_address, unparse_address, parse, serialize,
}

pub record IsAddress (a : EthernetAddress) : Type 0 where
  pub byte0 : a.byte0 < 2 ^ 8
  pub byte1 : a.byte1 < 2 ^ 8
  pub byte2 : a.byte2 < 2 ^ 8
  pub byte3 : a.byte3 < 2 ^ 8
  pub byte4 : a.byte4 < 2 ^ 8
  pub byte5 : a.byte5 < 2 ^ 8

-- The six bytes in front of the rest.
abbrev pub address_bytes : EthernetAddress → Bytes → Bytes
address_bytes a rest =
    unparse_loop 1 a.byte0
    ++ (unparse_loop 1 a.byte1
        ++ (unparse_loop 1 a.byte2
            ++ (unparse_loop 1 a.byte3
                ++ (unparse_loop 1 a.byte4 ++ (unparse_loop 1 a.byte5 ++ rest)))))

pub parse_address_lem :
    (a : EthernetAddress) (rest : Bytes)
    → IsAddress a
    → parse_address (of_buffer (address_bytes a rest)) ≡ (of_buffer rest, a)
unfolding parse_address
parse_address_lem a rest v =
    let after4 = unparse_loop 1 a.byte5 ++ rest in
    let after3 = unparse_loop 1 a.byte4 ++ after4 in
    let after2 = unparse_loop 1 a.byte3 ++ after3 in
    let after1 = unparse_loop 1 a.byte2 ++ after2 in
    let after0 = unparse_loop 1 a.byte1 ++ after1 in
    rw
      (
        u8-unparse a.byte0 after0 v.byte0,
        u8-unparse a.byte1 after1 v.byte1,
        u8-unparse a.byte2 after2 v.byte2,
        u8-unparse a.byte3 after3 v.byte3,
        u8-unparse a.byte4 after4 v.byte4,
        u8-unparse a.byte5 rest v.byte5,
      )
      refl

pub record IsEthernetHeader (h : EthernetHeader) : Type 0 where
  pub dst : IsAddress h.dst
  pub src : IsAddress h.src
  pub type : h.type < 2 ^ 16

serialize-append :
    (h : EthernetHeader) (rest : Bytes)
    → serialize h ++ rest
      ≡ address_bytes h.dst (address_bytes h.src (unparse_loop 2 h.type ++ rest))
unfolding serialize unparse_address unparse_int unparse_loop
serialize-append h rest = refl

long_enough :
    (h : EthernetHeader) (rest : Bytes)
    → ltb (length (address_bytes h.dst (address_bytes h.src (unparse_loop 2 h.type ++ rest)))) 14
      ≡ false
unfolding unparse_loop
long_enough h rest = ground arith

-- For an Ethernet header with addresses of bytes and a 16-bit type, followed by any bytes: parse
-- reads back from what serialize gives the header without an error, and leaves the bytes that
-- follow, whatever the header it is called on held.
pub parse-serialize_ethernet :
    (h before : EthernetHeader) (rest : Bytes)
    → IsEthernetHeader h
    → parse before (of_buffer (serialize h ++ rest)) ≡ (of_buffer rest, h, no_error)
unfolding parse
parse-serialize_ethernet h before rest v =
    rw
      (
        serialize-append h rest,
        long_enough h rest,
        parse_address_lem h.dst (address_bytes h.src (unparse_loop 2 h.type ++ rest)) v.dst,
        parse_address_lem h.src (unparse_loop 2 h.type ++ rest) v.src,
        u16-unparse h.type rest v.type,
      )
      refl
