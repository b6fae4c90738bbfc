-- ===== src/NetUnparser.antt =====
-- `NetUnparser` of libsponge/util/parser.hh and parser.cc: what each function appends.
use sponge.Prelude.{ℕ, zero, suc, ◌*◌, ◌/◌, ◌%◌, ◌^◌, [], ◌∷◌, ◌++◌, Bytes}

-- The loop of `_unparse_int`, with so many bytes left to write.
unfoldable pub unparse_loop : ℕ → ℕ → Bytes
unparse_loop zero val = []
unparse_loop (suc n) val = val / 2 ^ (n * 8) % 256 ∷ unparse_loop n val

unfoldable pub unparse_int : ℕ → Bytes → ℕ → Bytes
unparse_int len s val = s ++ unparse_loop len val

abbrev pub u32 : Bytes → ℕ → Bytes
u32 s val = unparse_int 4 s val

abbrev pub u16 : Bytes → ℕ → Bytes
u16 s val = unparse_int 2 s val

abbrev pub u8 : Bytes → ℕ → Bytes
u8 s val = unparse_int 1 s val
