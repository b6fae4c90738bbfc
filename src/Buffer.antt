-- ===== src/Buffer.antt =====
-- libsponge/util/buffer.hh and buffer.cc, class `Buffer`: a shared string and an offset into it.
-- The string is never written to, so the sharing is not seen.
pub mod Prefix
use sponge.Prelude.{
  ℕ, ◌+◌, ◌≤◌, ◌<◌, ◌^◌, true, [], Bytes, length, drop, get_elem?, Option, none, some, ltb, ◌==◌,
  if◌then◌else◌, add64,
}

-- `storage` is `none` for the null pointer.
pub record Buffer : Type 0 where
  pub storage : Option Bytes
  pub starting_offset : ℕ

-- `Buffer{}`
abbrev pub null : Buffer
null = record { storage = none; starting_offset = 0 }

-- The constructor from a string.
abbrev pub of_string : Bytes → Buffer
of_string s = record { storage = some s; starting_offset = 0 }

-- `str`, of the members; `copy` and the conversion to `std::string_view` return the same bytes.
abbrev pub str_of : Option Bytes → ℕ → Bytes
str_of none offset = []
str_of (some s) offset = drop offset s

abbrev pub str : Buffer → Bytes
str b = str_of b.storage b.starting_offset

abbrev pub size : Buffer → ℕ
size b = length (str b)

-- `at`; `none` is the exception of `std::string_view::at`.
unfoldable pub at : Buffer → ℕ → Option ℕ
at b n = get_elem? (str b) n

-- The last statement of `remove_prefix`: a string that is used up is let go.
abbrev pub release : Option Bytes → ℕ → Option Bytes
release none offset = none
release (some s) offset = if offset == length s then none else some s

-- `remove_prefix`; `none` is the exception `out_of_range`.
unfoldable pub remove_prefix : Buffer → ℕ → Option Buffer
remove_prefix b n =
    if ltb (size b) n
    then none
    else let offset = add64 b.starting_offset n in
      some (record { storage = release b.storage offset; starting_offset = offset })

-- The offset lies in the string, and both are `size_t`.
pub data FitsString : Option Bytes → ℕ → Type 0 where
  nothing : (offset : ℕ) → FitsString none offset
  part :
      (s : Bytes) (offset : ℕ) → offset ≤ length s → length s < 2 ^ 64 → FitsString (some s) offset

abbrev pub IsValid : Buffer → Type 0
IsValid b = FitsString b.storage b.starting_offset
