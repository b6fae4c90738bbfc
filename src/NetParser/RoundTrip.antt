-- ===== src/NetParser/RoundTrip.antt =====
-- The parser reads back what the unparser writes.
use sponge.Prelude.{ℕ, ◌^◌, ◌<◌, ◌≡◌, ◌++◌, Bytes, arith}
use sponge.NetParser.{of_buffer, check_size, parse_loop, parse_int}
use sponge.NetUnparser.{unparse_loop}

-- An integer of one, two or four bytes in front of the buffer.
pub u8-unparse :
    (val : ℕ) (rest : Bytes)
    → val < 2 ^ 8
    → parse_int 1 (of_buffer (unparse_loop 1 val ++ rest)) ≡ (of_buffer rest, val)
unfolding parse_int check_size parse_loop unparse_loop
u8-unparse val rest h = ground arith

pub u16-unparse :
    (val : ℕ) (rest : Bytes)
    → val < 2 ^ 16
    → parse_int 2 (of_buffer (unparse_loop 2 val ++ rest)) ≡ (of_buffer rest, val)
unfolding parse_int check_size parse_loop unparse_loop
u16-unparse val rest h = ground arith

pub u32-unparse :
    (val : ℕ) (rest : Bytes)
    → val < 2 ^ 32
    → parse_int 4 (of_buffer (unparse_loop 4 val ++ rest)) ≡ (of_buffer rest, val)
unfolding parse_int check_size parse_loop unparse_loop
u32-unparse val rest h = ground arith
