-- ===== src/TcpHeader/Accepts.antt =====
-- Which bytes are taken for a TCP header.
use sponge.Prelude.{
  ℕ, ◌+◌, ◌*◌, ◌-◌, ◌/◌, ◌≤◌, ◌≡◌, refl, ap, ◌∙◌, Bytes, length, drop, length-drop, drop-drop,
  arith,
}
use sponge.NetParser.{
  NetParser, no_error, of_buffer, check_size, remove_prefix, parse_int, u8, u16, u32,
}
use sponge.TcpHeader.{parse, skip_options}

-- A parser without an error that has taken so many bytes off the buffer.
record Took (s : Bytes) (n : ℕ) (p : NetParser) : Type 0 where
  fits : n ≤ length s
  left : p.buffer ≡ drop n s
  ok : p.get_error ≡ no_error

parse_int-ok :
    (len : ℕ) (p : NetParser)
    → (parse_int len p).0.get_error ≡ no_error
    → (p.get_error ≡ no_error)
      × (len ≤ length p.buffer)
      × ((parse_int len p).0.buffer ≡ drop len p.buffer)
unfolding parse_int check_size
parse_int-ok len p h = ground arith

skip_options-ok :
    (p : NetParser) (doff : ℕ)
    → (skip_options p doff).1 ≡ no_error
    → (p.get_error ≡ no_error)
      × (5 ≤ doff)
      × (doff * 4 - 20 ≤ length p.buffer)
      × ((skip_options p doff).0.buffer ≡ drop (doff * 4 - 20) p.buffer)
unfolding skip_options remove_prefix check_size
skip_options-ok p doff h = ground arith

Took-next :
    (s : Bytes) (n len : ℕ) (p : NetParser)
    → ((p.get_error ≡ no_error) → Took s n p)
    → ((parse_int len p).0.get_error ≡ no_error)
    → Took s (n + len) (parse_int len p).0
Took-next s n len p t h =
    let (ok, fits, left) = parse_int-ok len p h in
    let v = t ok in
    let size : length p.buffer ≡ length s - n = ap length v.left ∙ length-drop n s in
    record {
      fits = omega (arith, v.fits, size, fits);
      left = left ∙ ap (drop len) v.left ∙ drop-drop n len s;
      ok = h;
    }

-- A buffer from which TCPHeader::parse reads a header without an error is long enough for the
-- data offset that it has read, which is at least 5, and exactly that header, options included,
-- is taken off the buffer.
pub parse_accepts :
    (s : Bytes)
    → (parse (of_buffer s)).2 ≡ no_error
    → let (p, h, result) = parse (of_buffer s) in
      (5 ≤ h.doff) × (4 * h.doff ≤ length s) × (p.buffer ≡ drop (4 * h.doff) s)
unfolding parse
parse_accepts s r =
    let (p1, x1) = u16 (of_buffer s) in
    let (p2, x2) = u16 p1 in
    let (p3, x3) = u32 p2 in
    let (p4, x4) = u32 p3 in
    let (p5, x5) = u8 p4 in
    let (p6, x6) = u8 p5 in
    let (p7, x7) = u16 p6 in
    let (p8, x8) = u16 p7 in
    let (p9, x9) = u16 p8 in
    let t0 : Took s 0 (of_buffer s) = record { fits = omega arith; left = refl; ok = refl } in
    let t4 =
      Took-next s _ 4 p3
        (Took-next s _ 4 p2 (Took-next s _ 2 p1 (Took-next s 0 2 (of_buffer s) (λ e. t0)))) in
    let t9 =
      Took-next s _ 2 p8
        (Took-next s _ 2 p7 (Took-next s _ 2 p6 (Took-next s _ 1 p5 (Took-next s _ 1 p4 t4)))) in
    let (ok, min, room, left) = skip_options-ok p9 (x5 / 16) r in
    let v = t9 ok in
    let size : length p9.buffer ≡ length s - 20 = ap length v.left ∙ length-drop _ s in
    (
      min,
      omega (arith, min, room, size, v.fits),
      left
          ∙ ap (drop (x5 / 16 * 4 - 20)) v.left
          ∙ drop-drop _ _ s
          ∙ ap (λ n. drop n s) {x = 0 + 2 + 2 + 4 + 4 + 1 + 1 + 2 + 2 + 2 + (x5 / 16 * 4 - 20)}
              (omega (arith, min)),
    )
