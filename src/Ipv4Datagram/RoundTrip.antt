-- ===== src/Ipv4Datagram/RoundTrip.antt =====
-- A datagram that was written passes its checksum and is read back.
use sponge.Prelude.{
  ℕ, ◌+◌, ◌-◌, ◌*◌, ◌^◌, ◌≤◌, ◌<◌, ◌≡◌, refl, ap, ◌∙◌, sym, true, false, ◌++◌, some, Bytes, length,
  take, All, length-append, take-append, ◌==◌, ltb, arith,
}
use sponge.NetParser.{no_error, of_buffer, remove_prefix, check_size}
use sponge.NetUnparser.{unparse_loop}
use sponge.InternetChecksum.{InternetChecksum, add, value}
use sponge.InternetChecksum
use sponge.InternetChecksum.Sum.{
  weight, IsByte, add-weight, weight-le, value-zero, value-lt, value_of,
}
use sponge.TcpHeader.{zeros}
use sponge.TcpHeader.RoundTrip.{length-zeros, drop-zeros}
use sponge.TcpSegment.RoundTrip.{zeros-IsByte}
use sponge.Ipv4Header.{Ipv4Header, payload_length, check_header, check_fields, first_byte, fo_val}
use sponge.Ipv4Header
use sponge.Ipv4Header.RoundTrip.{IsIpv4Header, fixed, serialize_lem, parse_fields-fixed}
use sponge.Ipv4Datagram.{Ipv4Datagram, parse, serialize_with, serialize}

-- The header is in range, and its length field counts the header and the payload.
pub record IsDatagram (d : Ipv4Datagram) : Type 0 where
  pub header : IsIpv4Header d.header
  pub total : d.header.len ≡ 4 * d.header.hlen + length d.payload

fixed-append :
    (h : Ipv4Header) (options rest : Bytes) → fixed h options ++ rest ≡ fixed h (options ++ rest)
unfolding unparse_loop
fixed-append h options rest = refl

length-fixed : (h : Ipv4Header) (rest : Bytes) → length (fixed h rest) ≡ 20 + length rest
unfolding unparse_loop
length-fixed h rest = omega arith

fixed-IsByte : (h : Ipv4Header) (rest : Bytes) → All IsByte rest → All IsByte (fixed h rest)
unfolding unparse_loop
fixed-IsByte h rest b = ground (arith, b)

weight-pos : (h : Ipv4Header) (rest : Bytes) → IsIpv4Header h → 0 < weight false (fixed h rest)
unfolding unparse_loop
weight-pos h rest v = omega (arith, v)

weight-cksum :
    (h : Ipv4Header) (c : ℕ) (rest : Bytes)
    → c < 2 ^ 16
    → weight false (fixed (record h { cksum = c }) rest)
      ≡ weight false (fixed (record h { cksum = 0 }) rest) + c
unfolding unparse_loop
weight-cksum h c rest k = omega arith

IsIpv4Header-cksum :
    (h : Ipv4Header) (c : ℕ) → IsIpv4Header h → c < 2 ^ 16 → IsIpv4Header (record h { cksum = c })
IsIpv4Header-cksum h c v k = record {
  ver = v.ver;
  hlen_min = v.hlen_min;
  hlen_max = v.hlen_max;
  tos = v.tos;
  len = v.len;
  id = v.id;
  offset = v.offset;
  ttl = v.ttl;
  proto = v.proto;
  cksum = k;
  src = v.src;
  dst = v.dst;
}

remove_zeros :
    (n : ℕ) (rest : Bytes) → remove_prefix (of_buffer (zeros n ++ rest)) n ≡ of_buffer rest
unfolding remove_prefix check_size
remove_zeros n rest =
    ground (arith, drop-zeros n rest, length-append (zeros n) rest, length-zeros n)

module _ (d : Ipv4Datagram) (v : IsDatagram d) where
  header_bytes : ℕ → Bytes
  header_bytes c = fixed (record (d.header) { cksum = c }) (zeros (4 * d.header.hlen - 20))

  length-header_bytes : (c : ℕ) → length (header_bytes c) ≡ 4 * d.header.hlen
  unfolding header_bytes
  length-header_bytes c = omega (
    arith,
    length-fixed (record (d.header) { cksum = c }) (zeros (4 * d.header.hlen - 20)),
    length-zeros (4 * d.header.hlen - 20),
    v.header,
  )

  header_bytes-IsByte : (c : ℕ) → All IsByte (header_bytes c)
  unfolding header_bytes
  header_bytes-IsByte c =
      fixed-IsByte (record (d.header) { cksum = c }) _ (zeros-IsByte (4 * d.header.hlen - 20))

  sum : ℕ
  sum = weight false (header_bytes 0)

  sum-lt : sum + 2 ^ 16 ≤ 2 ^ 32
  unfolding sum
  sum-lt = omega (
    arith,
    weight-le (header_bytes 0) false (header_bytes-IsByte 0),
    length-header_bytes 0,
    v.header,
  )

  sum-pos : 0 < sum
  unfolding sum header_bytes
  sum-pos =
      weight-pos (record (d.header) { cksum = 0 }) _
        (IsIpv4Header-cksum d.header 0 v.header (omega arith))

  sum-header_bytes :
      (c : ℕ) → c < 2 ^ 16 → (add (InternetChecksum.new 0) (header_bytes c)).sum ≡ sum + c
  unfolding sum InternetChecksum.new header_bytes
  sum-header_bytes c k =
      let w = weight-cksum d.header c (zeros (4 * d.header.hlen - 20)) k in
      add-weight (header_bytes c) (InternetChecksum.new 0) (header_bytes-IsByte c)
        (omega (arith, w, sum-lt))
      ∙ omega (arith, w)

  own : ℕ
  own = value (add (InternetChecksum.new 0) (header_bytes 0))

  own-lt : own < 2 ^ 16
  unfolding own
  own-lt = value-lt (add (InternetChecksum.new 0) (header_bytes 0))

  own_lem : own ≡ value (record { sum = sum; parity = false })
  unfolding own
  own_lem =
      value_of (add (InternetChecksum.new 0) (header_bytes 0))
      ∙ ap (λ n. value (record { sum = n; parity = false }))
          (sum-header_bytes 0 (omega arith) ∙ omega arith)

  header-passes : value (add (InternetChecksum.new 0) (header_bytes own)) ≡ 0
  header-passes =
      value_of (add (InternetChecksum.new 0) (header_bytes own))
      ∙ ap (λ n. value (record { sum = n; parity = false }))
          (sum-header_bytes own own-lt ∙ ap (◌+◌ sum) own_lem)
      ∙ value-zero sum sum-pos sum-lt

  written : Ipv4Header
  written = record (d.header) { cksum = own }

  written-IsIpv4Header : IsIpv4Header written
  unfolding written
  written-IsIpv4Header = IsIpv4Header-cksum d.header own v.header own-lt

  wire : Bytes
  wire = header_bytes own ++ d.payload

  length-wire : length wire ≡ d.header.len
  unfolding wire
  length-wire =
      length-append (header_bytes own) d.payload ∙ omega (arith, length-header_bytes own, v.total)

  -- The header that was written is accepted.
  checks :
      check_fields wire written (of_buffer (zeros (4 * d.header.hlen - 20) ++ d.payload))
      ≡ (of_buffer d.payload, no_error)
  unfolding check_fields check_header written
  checks =
      let rest = of_buffer (zeros (4 * d.header.hlen - 20) ++ d.payload) in
      let same : d.header.hlen * 4 - 20 ≡ 4 * d.header.hlen - 20 = omega arith in
      let removed : remove_prefix rest (d.header.hlen * 4 - 20) ≡ of_buffer d.payload =
        ap (remove_prefix rest) same ∙ remove_zeros (4 * d.header.hlen - 20) d.payload in
      let cut : take (4 * d.header.hlen) wire ≡ header_bytes own =
        ap (λ n. take n wire) (sym (length-header_bytes own))
        ∙ unfold wire in take-append (header_bytes own) d.payload in
      let passes : value (add (InternetChecksum.new 0) (take (4 * d.header.hlen) wire)) ≡ 0 =
        ap (λ s. value (add (InternetChecksum.new 0) s)) cut ∙ header-passes in
      ground (arith, removed, passes, length-wire, v.header, v.total)

  wire-fixed : wire ≡ fixed written (zeros (4 * d.header.hlen - 20) ++ d.payload)
  unfolding wire header_bytes written
  wire-fixed = fixed-append (record (d.header) { cksum = own }) _ _

  parse_header-wire :
      (before : Ipv4Header)
      → Ipv4Header.parse before (of_buffer wire) ≡ (of_buffer d.payload, written, no_error)
  unfolding Ipv4Header.parse
  parse_header-wire before =
      let long : ltb (length wire) 20 ≡ false = ground (arith, length-wire, v.header, v.total) in
      let fields =
        ap (λ s. Ipv4Header.parse_fields (of_buffer s)) wire-fixed
        ∙ parse_fields-fixed written (zeros (4 * d.header.hlen - 20) ++ d.payload)
            written-IsIpv4Header in
      rw (long, fields, checks) refl

  parse-wire :
      (before : Ipv4Datagram)
      → parse before wire ≡ (record d { header = record (d.header) { cksum = own } }, no_error)
  unfolding parse written
  parse-wire before =
      let right : (length d.payload == payload_length d.header) ≡ true =
        ground (arith, v.total, v.header) in
      rw (parse_header-wire before.header, right) refl

  serialize-first : serialize d ≡ serialize_with d (header_bytes 0)
  unfolding serialize header_bytes
  serialize-first =
      let right : (length d.payload == payload_length d.header) ≡ true =
        ground (arith, v.total, v.header) in
      rw
        (
          right,
          serialize_lem (record (d.header) { cksum = 0 })
              (IsIpv4Header-cksum d.header 0 v.header (omega arith)),
          serialize,
        )
        refl

  serialize_with-own : serialize_with d (header_bytes 0) ≡ some wire
  unfolding serialize_with own wire header_bytes written
  serialize_with-own = rw (serialize_lem written written-IsIpv4Header, serialize_with) refl

  -- For an IPv4 datagram whose header fields are in the range of their types, of version 4, with
  -- a header length from 5 to 15 and a length field that counts the header and the payload:
  -- serialize gives bytes whose header IPv4Header::parse accepts, checksum included, and which
  -- IPv4Datagram::parse reads back without an error as the datagram, but for its checksum field,
  -- whatever the datagram it is called on held.
  pub parse-serialize_datagram :
      (before : Ipv4Datagram)
      → (s : Bytes) × (c : ℕ) × (serialize d ≡ some s)
        × (Ipv4Header.parse before.header (of_buffer s)
            ≡ (of_buffer d.payload, record (d.header) { cksum = c }, no_error))
        × (parse before s ≡ (record d { header = record (d.header) { cksum = c } }, no_error))
  unfolding written
  parse-serialize_datagram before = (
    wire,
    own,
    serialize-first ∙ serialize_with-own,
    parse_header-wire before.header,
    parse-wire before,
  )
