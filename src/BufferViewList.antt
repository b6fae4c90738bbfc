-- ===== src/BufferViewList.antt =====
-- libsponge/util/buffer.hh and buffer.cc, class `BufferViewList`: views of the buffers of a packet,
-- for a system call that writes them together.
pub mod Equivalence
mod Tests
use sponge.Prelude.{
  ℕ, ◌-◌, Option, none, some, List, [], ◌∷◌, ◌++◌, Bytes, length, drop, ltb, ◌==◌, if◌then◌else◌,
  add64,
}
use sponge.Buffer
use sponge.BufferList.{BufferList}

-- `_views`, each with the bytes that it shows.
abbrev pub BufferViewList : Type 0
BufferViewList = List Bytes

-- The constructor from a `std::string_view`, to which those from strings lead.
abbrev pub of_string_view : Bytes → BufferViewList
of_string_view str = str ∷ []

-- The constructor from a `BufferList`.
unfoldable pub of_buffer_list : BufferList → BufferViewList
of_buffer_list [] = []
of_buffer_list (x ∷ buffers) = Buffer.str x ∷ of_buffer_list buffers

-- The loop of `remove_prefix`; `none` is an exception.
unfoldable pub remove_prefix : BufferViewList → ℕ → Option BufferViewList
remove_prefix [] n = if n == 0 then some [] else none
remove_prefix (v ∷ views) n =
    let rest = remove_prefix views (n - length v) in
    if n == 0 then some (v ∷ views) else if ltb n (length v) then some (drop n v ∷ views) else rest

unfoldable pub size_from : ℕ → BufferViewList → ℕ
size_from ret [] = ret
size_from ret (v ∷ views) = size_from (add64 ret (length v)) views

abbrev pub size : BufferViewList → ℕ
size views = size_from 0 views

-- An `iovec`: the bytes at its pointer, and their number.
pub record Iovec : Type 0 where
  pub iov_base : Bytes
  pub iov_len : ℕ

unfoldable pub as_iovecs : BufferViewList → List Iovec
as_iovecs [] = []
as_iovecs (x ∷ views) = record { iov_base = x; iov_len = length x } ∷ as_iovecs views
