-- ===== src/FileDescriptor.antt =====
-- libsponge/util/file_descriptor.hh and file_descriptor.cc, and `SystemCall` of libsponge/util/util.cc.
-- A handle is the `FDWrapper` that it shares with its duplicates; the kernel's system calls are
-- parameters, and a failed call gives `none` or `failure`. `SystemCall` takes an `int`, to which the
-- `ssize_t` of `read` and `writev` is converted: the kernel transfers less than 2 ^ 31 bytes in a
-- call, so that the number is the same.
pub mod Writing
mod Tests
use sponge.Prelude.{
  ℕ, zero, suc, Bool, true, false, not, ◌&&◌, ◌||◌, Option, none, some, List, Bytes, length, min,
  ltb, ◌==◌, if◌then◌else◌, add64, add32,
}
use sponge.BufferViewList.{BufferViewList, Iovec, size, as_iovecs, remove_prefix}

-- What a system call returns: a number that is not negative, or -1 with the `errno`.
pub data SysReturn : Type 0 where
  success : ℕ → SysReturn
  failure : ℕ → SysReturn

-- `SystemCall`; `none` is the exception `unix_error`.
unfoldable pub system_call : SysReturn → ℕ → Option SysReturn
system_call (success return_value) errno_mask = some (success return_value)
system_call (failure errno) errno_mask = if errno == errno_mask then some (failure errno) else none

-- `FileDescriptor::FDWrapper`
pub record FdWrapper : Type 0 where
  pub fd : ℕ
  pub eof : Bool
  pub closed : Bool
  pub read_count : ℕ
  pub write_count : ℕ

-- The constructor of a number that is not negative; that of another number throws.
unfoldable pub new : ℕ → FdWrapper
new fd = record { fd = fd; eof = false; closed = false; read_count = 0; write_count = 0 }

-- The counts are `unsigned`.
abbrev pub register_read : FdWrapper → FdWrapper
register_read w = record w { read_count = add32 w.read_count 1 }

abbrev pub register_write : FdWrapper → FdWrapper
register_write w = record w { write_count = add32 w.write_count 1 }

-- `FDWrapper::close`, with what `::close` returns.
unfoldable pub close : SysReturn → FdWrapper → Option FdWrapper
close answer w = elim (system_call answer 0) [
  | none ↦ none
  | some _ ↦ some (record w { eof = true; closed = true })
]

-- The maximum size of a read.
abbrev pub buffer_size : ℕ
buffer_size = 1048576

-- `read`, with the bytes that `::read` stores for a size; `none` is an exception.
unfoldable pub read : (ℕ → Option Bytes) → FdWrapper → ℕ → Option (FdWrapper × Bytes)
read kernel w limit = elim (kernel (min buffer_size limit)) [
  | none ↦ none
  | some str ↦
      let at_eof = ltb 0 limit && length str == 0 in
      if ltb (min buffer_size limit) (length str)
      then none
      else some (register_read (record w { eof = w.eof || at_eof }), str)
]

-- What `write` does to the kernel's state and to the wrapper: it returns a number, or it throws.
pub data Outcome (K : Type 0) : Type 0 where
  returned : K → FdWrapper → ℕ → Outcome K
  thrown : K → FdWrapper → Outcome K
  out_of_fuel : Outcome K

-- The tests of a turn of `write`, in which the kernel has taken `n` bytes.
abbrev pub is_refused : BufferViewList → ℕ → Bool
is_refused buffer n = (n == 0 && not (size buffer == 0)) || ltb (size buffer) n

module _ {K : Type 0} (writev : K → List Iovec → Option ℕ × K) where
  -- The loop of `write`, with fuel.
  unfoldable pub write_from : ℕ → Bool → K → FdWrapper → BufferViewList → ℕ → Outcome K
  write_from zero write_all k w buffer total = out_of_fuel
  write_from (suc fuel) write_all k w buffer total =
      let (answer, k') = writev k (as_iovecs buffer) in
      elim answer [
        | none ↦ thrown k' w
        | some n ↦ if is_refused buffer n then thrown k' w else elim (remove_prefix buffer n) [
          | none ↦ thrown k' (register_write w)
          | some rest ↦
              let again = write_from fuel write_all k' (register_write w) rest (add64 total n) in
              if write_all && not (size rest == 0)
              then again
              else returned k' (register_write w) (add64 total n)
        ]
      ]

  -- `write`
  abbrev pub write : ℕ → Bool → K → FdWrapper → BufferViewList → Outcome K
  write fuel write_all k w buffer = write_from fuel write_all k w buffer 0
