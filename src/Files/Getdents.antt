-- ===== src/Files/Getdents.antt =====
-- src/syscall/files.rs: `getdents64`, on the records that `open` made of a directory.
use ferros.Prelude.{ℕ, zero, suc, ◌+◌, Option, none, some, Result, ok, err}
use ferros.Prelude.{if◌then◌else◌, ltb, leb, ◌==◌, length, take, drop, get_or, le16, Bytes}
use ferros.Abi.{ebadf, enotdir}
use ferros.User.{einval}
use ferros.Files.Kernel.{OpenFile, Fd, file, Kernel, touch, fd_at, copy_out}
use ferros.Files.Transfer.{advance}

-- What the loop of `sys_getdents64` comes to: the bytes of whole records, an index out of range, or
-- a loop that goes on for ever, at a record whose length is 0.
pub data Span : Type 0 where
  span : ℕ → Span
  panics spins : Span

-- `fuel` is more than the bytes that are left, and a record that has a length takes some.
unfoldable pub span_loop : ℕ → Bytes → ℕ → ℕ → Span
span_loop zero content count len = spins
span_loop (suc fuel) content count len =
    let rest = drop len content in
    let reclen = le16 (get_or rest 16 0) (get_or rest 17 0) in
    let more = span_loop fuel content count (len + reclen) in
    if leb (length content) len
    then span len
    else if leb (length rest) 17
    then panics
    else if ltb count (len + reclen)
    then span len
    else more

-- The records from the cursor on.
abbrev pub records : OpenFile → ℕ → Span
records f count = span_loop (suc (length f.content)) (drop f.offset f.content) count 0

-- `none` is a panic, or a loop that does not end.
module _ {Dev : Type 0} where
  abbrev pub list_span : ℕ → OpenFile → ℕ → Span → Kernel Dev → Option (Result ℕ ℕ × Kernel Dev)
  list_span fd f buf panics k = none
  list_span fd f buf spins k = none
  list_span fd f buf (span n) k = some (
      if n == 0
      then ((if leb (length f.content) f.offset then ok 0 else err einval), k)
      else advance fd f n (copy_out buf (take n (drop f.offset f.content)) k))

  abbrev pub list_entry : ℕ → Option Fd → ℕ → ℕ → Kernel Dev → Option (Result ℕ ℕ × Kernel Dev)
  list_entry fd (some (file f)) buf count k =
      if f.is_dir then list_span fd f buf (records f count) k else some (err enotdir, k)
  list_entry fd (some _) buf count k = some (err enotdir, k)
  list_entry fd none buf count k = some (err ebadf, k)

  unfoldable pub sys_getdents64 : ℕ → ℕ → ℕ → Kernel Dev → Option (Result ℕ ℕ × Kernel Dev)
  sys_getdents64 fd buf count k = list_entry fd (fd_at fd k) buf count (touch k)
