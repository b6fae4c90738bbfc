-- ===== src/TcpSegment/RoundTrip.antt =====
-- A segment that was written passes its checksum and is read back.
use sponge.Prelude.{
  ℕ, zero, suc, ◌+◌, ◌-◌, ◌*◌, ◌^◌, ◌≤◌, ◌<◌, ◌≡◌, refl, ap, ◌∙◌, sym, false, ◌++◌, some, Bytes,
  length, All, All-append, length-append, eq_of_some, arith,
}
use sponge.NetParser.{no_error}
use sponge.NetUnparser.{unparse_loop}
use sponge.InternetChecksum.{InternetChecksum, add, value}
use sponge.InternetChecksum
use sponge.InternetChecksum.Sum.{
  weight, IsByte, add-weight, weight-le, add-append, value-zero, value-lt, value_of,
}
use sponge.TcpHeader.{TcpHeader, flags, zeros}
use sponge.TcpHeader.RoundTrip.{
  IsHeader, fixed, fixed-append, length-fixed, length-zeros, serialize_lem, parse-fixed,
}
use sponge.TcpSegment.{TcpSegment, parse, checksum, serialize_with, serialize}

fixed-IsByte : (h : TcpHeader) (rest : Bytes) → All IsByte rest → All IsByte (fixed h rest)
unfolding unparse_loop
fixed-IsByte h rest b = ground (arith, b)

pub zeros-IsByte : (n : ℕ) → All IsByte (zeros n)
zeros-IsByte zero = tt
zeros-IsByte (suc n) = (omega arith, zeros-IsByte n)

-- The data offset alone makes the sum positive.
weight-pos : (h : TcpHeader) (rest : Bytes) → IsHeader h → 0 < weight false (fixed h rest)
unfolding unparse_loop flags
weight-pos h rest v = omega (arith, v)

-- The checksum field adds its number.
weight-cksum :
    (h : TcpHeader) (c : ℕ) (rest : Bytes)
    → c < 2 ^ 16
    → weight false (fixed (record h { cksum = c }) rest)
      ≡ weight false (fixed (record h { cksum = 0 }) rest) + c
unfolding unparse_loop flags
weight-cksum h c rest k = omega arith

-- The header as it is written, with the checksum `c`, and the payload.
abbrev wire : TcpSegment → ℕ → Bytes
wire seg c =
    fixed (record (seg.header) { cksum = c }) (zeros (4 * seg.header.doff - 20) ++ seg.payload)

abbrev header_bytes : TcpSegment → ℕ → Bytes
header_bytes seg c = fixed (record (seg.header) { cksum = c }) (zeros (4 * seg.header.doff - 20))

IsHeader-cksum :
    (h : TcpHeader) (c : ℕ) → IsHeader h → c < 2 ^ 16 → IsHeader (record h { cksum = c })
IsHeader-cksum h c v k = record {
  sport = v.sport;
  dport = v.dport;
  seqno = v.seqno;
  ackno = v.ackno;
  doff_min = v.doff_min;
  doff_max = v.doff_max;
  win = v.win;
  cksum = k;
  uptr = v.uptr;
}

module _ (seg : TcpSegment) (d : ℕ) (v : IsHeader seg.header) (b : All IsByte seg.payload)
    (small : d < 2 ^ 20) (short : length seg.payload ≤ 65000) where
  wire-IsByte : (c : ℕ) → All IsByte (wire seg c)
  wire-IsByte c =
      fixed-IsByte (record (seg.header) { cksum = c }) _
        (All-append IsByte (zeros (4 * seg.header.doff - 20)) seg.payload
          (zeros-IsByte (4 * seg.header.doff - 20)) b)

  total : ℕ
  total = d + weight false (wire seg 0)

  total-lt : total + 2 ^ 16 ≤ 2 ^ 32
  unfolding total
  total-lt = omega (
    arith,
    weight-le (wire seg 0) false (wire-IsByte 0),
    length-fixed (record (seg.header) { cksum = 0 })
        (zeros (4 * seg.header.doff - 20) ++ seg.payload),
    length-append (zeros (4 * seg.header.doff - 20)) seg.payload,
    length-zeros (4 * seg.header.doff - 20),
    v.doff_max,
  )

  total-pos : 0 < total
  unfolding total
  total-pos = omega (
    arith,
    weight-pos (record (seg.header) { cksum = 0 }) (zeros (4 * seg.header.doff - 20) ++ seg.payload)
        (IsHeader-cksum seg.header 0 v (omega arith)),
  )

  -- The sum over the whole segment.
  sum-wire : (c : ℕ) → c < 2 ^ 16 → (add (InternetChecksum.new d) (wire seg c)).sum ≡ total + c
  unfolding total InternetChecksum.new
  sum-wire c k =
      let w = weight-cksum seg.header c (zeros (4 * seg.header.doff - 20) ++ seg.payload) k in
      add-weight (wire seg c) (InternetChecksum.new d) (wire-IsByte c) (omega (arith, w, total-lt))
      ∙ omega (arith, w)

  own : ℕ
  own = checksum (header_bytes seg 0) seg.payload d

  own-lt : own < 2 ^ 16
  unfolding own checksum
  own-lt = value-lt (add (add (InternetChecksum.new d) (header_bytes seg 0)) seg.payload)

  own_lem : own ≡ value (record { sum = total; parity = false })
  unfolding own checksum
  own_lem =
      ap value (
        sym (add-append (header_bytes seg 0) seg.payload (InternetChecksum.new d))
        ∙ ap (add (InternetChecksum.new d)) (fixed-append (record (seg.header) { cksum = 0 }) _ _))
      ∙ value_of (add (InternetChecksum.new d) (wire seg 0))
      ∙ ap (λ n. value (record { sum = n; parity = false }))
          (sum-wire 0 (omega arith) ∙ omega arith)

  wire-passes : value (add (InternetChecksum.new d) (wire seg own)) ≡ 0
  wire-passes =
      value_of (add (InternetChecksum.new d) (wire seg own))
      ∙ ap (λ n. value (record { sum = n; parity = false }))
          (sum-wire own own-lt ∙ ap (◌+◌ total) own_lem)
      ∙ value-zero total total-pos total-lt

  serialize-first : serialize seg d ≡ serialize_with seg d (header_bytes seg 0)
  unfolding serialize
  serialize-first =
      rw
        (
          serialize_lem (record (seg.header) { cksum = 0 })
              (IsHeader-cksum seg.header 0 v (omega arith)),
          serialize,
        )
        refl

  serialize_with-own :
      serialize_with seg d (header_bytes seg 0) ≡ some (header_bytes seg own ++ seg.payload)
  unfolding serialize_with own
  serialize_with-own =
      rw
        (
          serialize_lem (record (seg.header) { cksum = own })
              (IsHeader-cksum seg.header own v own-lt),
          serialize_with,
        )
        refl

  serialize-wire : serialize seg d ≡ some (wire seg own)
  serialize-wire =
      serialize-first
      ∙ serialize_with-own
      ∙ ap some (fixed-append (record (seg.header) { cksum = own }) _ _)

  parse-wire :
      (other : TcpSegment)
      → parse other (wire seg own) d
        ≡ (record seg { header = record (seg.header) { cksum = own } }, no_error)
  unfolding parse
  parse-wire other =
      let read =
        parse-fixed (record (seg.header) { cksum = own }) seg.payload
          (IsHeader-cksum seg.header own v own-lt) in
      rw (wire-passes, read) refl

  pub length-serialize :
      (s : Bytes) → serialize seg d ≡ some s → length s ≡ 4 * seg.header.doff + length seg.payload
  length-serialize s e = omega (
    arith,
    ap (length {A = ℕ}) (eq_of_some (sym serialize-wire ∙ e)),
    length-fixed (record (seg.header) { cksum = own })
        (zeros (4 * seg.header.doff - 20) ++ seg.payload),
    length-append (zeros (4 * seg.header.doff - 20)) seg.payload,
    length-zeros (4 * seg.header.doff - 20),
    v.doff_min,
  )

  -- For a segment whose header fields are in the range of their types with a data offset from 5
  -- to 15, with at most 65000 bytes of payload, and a pseudo-checksum below 2 ^ 20: serialize
  -- gives bytes that parse, with the same pseudo-checksum, accepts and reads back as the segment,
  -- but for its checksum field, whatever the segment it is called on held.
  pub parse-serialize_segment :
      (other : TcpSegment)
      → (s : Bytes) × (c : ℕ) × (serialize seg d ≡ some s)
        × (parse other s d ≡ (record seg { header = record (seg.header) { cksum = c } }, no_error))
  parse-serialize_segment other = (wire seg own, own, serialize-wire, parse-wire other)
