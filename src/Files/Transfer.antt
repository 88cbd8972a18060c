-- ===== src/Files/Transfer.antt =====
-- src/syscall/files.rs: reading, writing and seeking. A call that finds nothing to read blocks the
-- thread and goes round its loop again when it is woken: a round either returns or waits.
use ferros.Prelude.{
  ℕ, ◌+◌, ◌-◌, true, ◌&&◌, not, Option, none, some, [], ◌∷◌, ◌++◌, Result, ok, err, M, min,
}
use ferros.Prelude.{if◌then◌else◌, ltb, ◌==◌, length, take, drop, replicate, Bytes, ℤ, pos, negsuc}
use ferros.Abi.{ebadf, eisdir, espipe, epipe}
use ferros.Sched.Table.{BlockReason}
use ferros.Sched.Calls.{block_current, wake_pipe_waiters}
use ferros.User.{einval, user_bytes}
use ferros.Console.{take_ready, unread, is_nil}
use ferros.Files.Kernel.{
  OpenFile, Fd, console, vga, serial, file, pipe_read, pipe_write, socket, Kernel, change, touch,
  fd_at, set_fd, copy_out,
}

pub data Progress : Type 0 where
  returns : Result ℕ ℕ → Progress
  waits : Progress

abbrev pub sum : Bytes → ℕ
sum [] = 0
sum (b ∷ bs) = b + sum bs

-- `n`, if a copy to the user's memory succeeded.
abbrev pub copied : {Dev : Type 0} → ℕ → Result ℕ (Unit {0}) × Kernel Dev → Result ℕ ℕ × Kernel Dev
copied n (ok _, k) = (ok n, k)
copied n (err e, k) = (err e, k)

-- `resize` and `copy_from_slice`
unfoldable pub splice : Bytes → ℕ → Bytes → Bytes
splice content offset bytes =
    let end = offset + length bytes in
    let padded = content ++ replicate (end - length content) 0 in
    take offset padded ++ (bytes ++ drop end padded)

abbrev pub write_at : OpenFile → Bytes → OpenFile
write_at f bytes = record f {
  content = splice f.content f.offset bytes;
  offset = f.offset + length bytes;
  dirty = true;
}

abbrev pub seek_base : ℕ → OpenFile → Option ℕ
seek_base whence f =
    if whence == 0
    then some 0
    else if whence == 1
    then some f.offset
    else if whence == 2
    then some (length f.content)
    else none

-- `base.checked_add(offset)`, if it is at least 0.
abbrev pub moved : ℕ → ℤ → Option ℕ
moved base (pos n) = if ltb (base + n) 9223372036854775808 then some (base + n) else none
moved base (negsuc n) = if ltb n base then some (base - (n + 1)) else none

module _ {Dev : Type 0} where
  abbrev pub record_write : ℕ → Bytes → ℕ → Kernel Dev → Kernel Dev
  record_write fd bytes user_rsp k = record k {
    last_write = record { fd = fd; len = length bytes; sum = sum bytes; user_rsp = user_rsp };
  }

  abbrev pub write_device : ℕ → ℕ → ℕ → ℕ → (Bytes → Kernel Dev → Kernel Dev) → M (Kernel Dev) ℕ ℕ
  write_device fd buf count user_rsp sink k = elim (user_bytes k.space buf count) [
    | err e ↦ (err e, k)
    | ok bytes ↦ (ok (length bytes), record_write fd bytes user_rsp (sink bytes k))
  ]

  abbrev pub to_screen : Bytes → Kernel Dev → Kernel Dev
  to_screen bytes k = record k { screen = k.screen ++ bytes }

  abbrev pub to_serial : Bytes → Kernel Dev → Kernel Dev
  to_serial bytes k = record k { serial_line = k.serial_line ++ bytes }

  -- Under the lock of the pipe, and then the wake-up.
  abbrev pub push_pipe : ℕ → Bytes → M (Kernel Dev) ℕ ℕ
  push_pipe p bytes k =
      let b = k.pipes p in
      if b.readers == 0 then (err epipe, k) else (
        ok (length bytes),
        record k {
          pipes = change k.pipes p (record b { queue = b.queue ++ bytes });
          sched = if length bytes == 0 then k.sched else wake_pipe_waiters k.sched;
        },
      )

  unfoldable pub write_pipe : ℕ → ℕ → ℕ → M (Kernel Dev) ℕ ℕ
  write_pipe p buf count k = if count == 0 then (ok 0, k) else elim (user_bytes k.space buf count) [
    | err e ↦ (err e, k)
    | ok bytes ↦ push_pipe p bytes k
  ]

  unfoldable pub write_to_file : ℕ → OpenFile → ℕ → ℕ → M (Kernel Dev) ℕ ℕ
  write_to_file fd f buf count k = elim (user_bytes k.space buf count) [
    | err e ↦ (err e, k)
    | ok bytes ↦ (ok (length bytes), set_fd fd (some (file (write_at f bytes))) k)
  ]

  abbrev pub write_entry : ℕ → Option Fd → ℕ → ℕ → ℕ → M (Kernel Dev) ℕ ℕ
  write_entry fd (some vga) buf count user_rsp k = write_device fd buf count user_rsp to_screen k
  write_entry fd (some serial) buf count user_rsp k = write_device fd buf count user_rsp to_serial k
  write_entry fd (some (pipe_write p)) buf count user_rsp k = write_pipe p buf count k
  write_entry fd (some (file f)) buf count user_rsp k =
      if f.writable && not f.is_dir then write_to_file fd f buf count k else (err ebadf, k)
  write_entry fd (some console) buf count user_rsp k = (err ebadf, k)
  write_entry fd (some (pipe_read p)) buf count user_rsp k = (err ebadf, k)
  write_entry fd (some (socket a handle kind)) buf count user_rsp k = (err ebadf, k)
  write_entry fd none buf count user_rsp k = (err ebadf, k)

  unfoldable pub sys_write : ℕ → ℕ → ℕ → ℕ → M (Kernel Dev) ℕ ℕ
  sys_write fd buf count user_rsp k = write_entry fd (fd_at fd k) buf count user_rsp (touch k)

  -- A line that could not be copied goes back.
  abbrev pub give_back : Bytes → Result ℕ ℕ × Kernel Dev → Progress × Kernel Dev
  give_back bytes (ok n, k) = (returns (ok n), k)
  give_back bytes (err e, k) = (returns (err e), record k { keyboard = unread bytes k.keyboard })

  -- A round of the loop of `read_stdin`.
  unfoldable pub read_stdin : ℕ → ℕ → Kernel Dev → Progress × Kernel Dev
  read_stdin buf count k =
      if count == 0
      then (returns (ok 0), k)
      else let (bytes, keyboard) = take_ready count k.keyboard in
        if is_nil bytes
        then (
          waits,
          record k { keyboard = keyboard; sched = block_current k.sched BlockReason.stdin },
        )
        else give_back bytes
            (copied (length bytes) (copy_out buf bytes (record k { keyboard = keyboard })))

  abbrev pub returned : Result ℕ ℕ × Kernel Dev → Progress × Kernel Dev
  returned (r, k) = (returns r, k)

  -- A round of the loop of `read_pipe`.
  unfoldable pub read_pipe : ℕ → ℕ → ℕ → Kernel Dev → Progress × Kernel Dev
  read_pipe p buf count k =
      let b = k.pipes p in
      let n = min count (length b.queue) in
      if count == 0
      then (returns (ok 0), k)
      else if not (is_nil b.queue)
      then returned (
          copied n (
            copy_out buf (take n b.queue)
              (record k { pipes = change k.pipes p (record b { queue = drop n b.queue }) })))
      else if b.writers == 0
      then (returns (ok 0), k)
      else (waits, record k { sched = block_current k.sched BlockReason.pipe })

  abbrev pub advance : ℕ → OpenFile → ℕ → Result ℕ (Unit {0}) × Kernel Dev → Result ℕ ℕ × Kernel Dev
  advance fd f n (ok _, k) = (ok n, set_fd fd (some (file (record f { offset = f.offset + n }))) k)
  advance fd f n (err e, k) = (err e, k)

  unfoldable pub read_from_file : ℕ → OpenFile → ℕ → ℕ → M (Kernel Dev) ℕ ℕ
  read_from_file fd f buf count k =
      let start = min f.offset (length f.content) in
      let n = min (length f.content - start) count in
      if f.is_dir
      then (err eisdir, k)
      else advance fd f n (copy_out buf (take n (drop start f.content)) k)

  abbrev pub read_entry : ℕ → Option Fd → ℕ → ℕ → Kernel Dev → Progress × Kernel Dev
  read_entry fd (some console) buf count k = read_stdin buf count k
  read_entry fd (some (pipe_read p)) buf count k = read_pipe p buf count k
  read_entry fd (some (file f)) buf count k = returned (read_from_file fd f buf count k)
  read_entry fd (some vga) buf count k = (returns (err ebadf), k)
  read_entry fd (some serial) buf count k = (returns (err ebadf), k)
  read_entry fd (some (pipe_write p)) buf count k = (returns (err ebadf), k)
  read_entry fd (some (socket a handle kind)) buf count k = (returns (err ebadf), k)
  read_entry fd none buf count k = (returns (err ebadf), k)

  unfoldable pub sys_read : ℕ → ℕ → ℕ → Kernel Dev → Progress × Kernel Dev
  sys_read fd buf count k = read_entry fd (fd_at fd k) buf count (touch k)

  abbrev pub seek_file : ℕ → OpenFile → ℤ → ℕ → M (Kernel Dev) ℕ ℕ
  seek_file fd f offset whence k = elim (seek_base whence f) [
    | none ↦ (err einval, k)
    | some base ↦ elim (moved base offset) [
      | none ↦ (err einval, k)
      | some at ↦ (ok at, set_fd fd (some (file (record f { offset = at }))) k)
    ]
  ]

  abbrev pub seek_entry : ℕ → Option Fd → ℤ → ℕ → M (Kernel Dev) ℕ ℕ
  seek_entry fd (some (file f)) offset whence k = seek_file fd f offset whence k
  seek_entry fd (some _) offset whence k = (err espipe, k)
  seek_entry fd none offset whence k = (err ebadf, k)

  unfoldable pub sys_lseek : ℕ → ℤ → ℕ → M (Kernel Dev) ℕ ℕ
  sys_lseek fd offset whence k = seek_entry fd (fd_at fd k) offset whence (touch k)
