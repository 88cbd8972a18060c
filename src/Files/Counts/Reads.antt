-- ===== src/Files/Counts/Reads.antt =====
-- src/syscall/files.rs: reading and seeking, against the counts.
use ferros.Prelude.{ℕ, ◌+◌, ◌-◌, ◌≡◌, refl, Option, none, some, inl, inr, Result, ok, err, min}
use ferros.Prelude.{◌==◌, length, take, drop, Bytes, ℤ, Option-cases, Bool-cases}
use ferros.Abi.{eisdir}
use ferros.Sched.Table.{BlockReason}
use ferros.Sched.Calls.{block_current}
use ferros.Console.{take_ready, unread, is_nil}
use ferros.Files.Kernel.{
  OpenFile, Fd, console, vga, serial, file, pipe_read, pipe_write, socket, Kernel, change, fd_at,
  touch, copy_out,
}
use ferros.Files.Transfer.{
  copied, give_back, read_stdin, read_pipe, advance, read_from_file, read_entry, sys_read,
  seek_base, moved, seek_file, seek_entry, sys_lseek,
}
use ferros.Files.Counts.{IsCounted}
use ferros.Files.Counts.Ends.{Same-fields}
use ferros.Files.Counts.Calls.{Balanced-touch, Same-copy_out, IsCounted-if}
use ferros.Files.Counts.Writes.{IsCounted-Same, IsCounted-set_file, Same-queue, fd_at-touch}

module _ {Dev : Type 0} where
  IsCounted-give_back :
      (bytes : Bytes) (x : Result ℕ ℕ × Kernel Dev)
      → IsCounted x.1
      → IsCounted (give_back bytes x).1
  IsCounted-give_back bytes (ok n, k) bal = bal
  IsCounted-give_back bytes (err e, k) bal =
      IsCounted-Same k (record k { keyboard = unread bytes k.keyboard })
        (Same-fields k (record k { keyboard = unread bytes k.keyboard }) (refl, refl, refl, refl)
          refl refl)
        bal

  copied-state : (n : ℕ) (x : Result ℕ (Unit {0}) × Kernel Dev) → (copied n x).1 ≡ x.1
  copied-state n (ok _, k) = refl
  copied-state n (err e, k) = refl

  IsCounted-copied :
      (n dst : ℕ) (src : Bytes) (k : Kernel Dev)
      → IsCounted k
      → IsCounted (copied n (copy_out dst src k)).1
  IsCounted-copied n dst src k bal =
      rw (copied-state n (copy_out dst src k))
        (IsCounted-Same k (copy_out dst src k).1 (Same-copy_out dst src k) bal)

  IsCounted-read_stdin :
      (buf count : ℕ) (k : Kernel Dev) → IsCounted k → IsCounted (read_stdin buf count k).1
  unfolding read_stdin
  IsCounted-read_stdin buf count k bal =
      let bytes = (take_ready count k.keyboard).0 in
      let k' = record k { keyboard = (take_ready count k.keyboard).1 } in
      let k'' = record k {
        keyboard = (take_ready count k.keyboard).1;
        sched = block_current k.sched BlockReason.stdin;
      } in
      elim (Bool-cases (count == 0)) [
        | inl e ↦ rw (e, read_stdin) bal
        | inr e ↦ elim (Bool-cases (is_nil bytes)) [
          | inl f ↦
              rw (e, f, read_stdin)
                (IsCounted-Same k k'' (Same-fields k k'' (refl, refl, refl, refl) refl refl) bal)
          | inr f ↦
              rw (e, f, read_stdin)
                (IsCounted-give_back bytes (copied (length bytes) (copy_out buf bytes k')) (
                  IsCounted-copied (length bytes) buf bytes k' (
                    IsCounted-Same k k' (Same-fields k k' (refl, refl, refl, refl) refl refl) bal)))
        ]
      ]

  IsCounted-read_pipe :
      (p buf count : ℕ) (k : Kernel Dev) → IsCounted k → IsCounted (read_pipe p buf count k).1
  unfolding read_pipe
  IsCounted-read_pipe p buf count k bal =
      let b = k.pipes p in
      let n = min count (length b.queue) in
      let k' = record k { pipes = change k.pipes p (record b { queue = drop n b.queue }) } in
      let k'' = record k { sched = block_current k.sched BlockReason.pipe } in
      elim (Bool-cases (count == 0)) [
        | inl e ↦ rw (e, read_pipe) bal
        | inr e ↦ elim (Bool-cases (is_nil b.queue)) [
          | inl f ↦ elim (Bool-cases (b.writers == 0)) [
            | inl g ↦ rw (e, f, g, read_pipe) bal
            | inr g ↦
                rw (e, f, g, read_pipe)
                  (IsCounted-Same k k'' (Same-fields k k'' (refl, refl, refl, refl) refl refl) bal)
          ]
          | inr f ↦
              rw (e, f, read_pipe)
                (IsCounted-copied n buf (take n b.queue) k' (
                  IsCounted-Same k k'
                    (Same-queue p (drop n b.queue) k k' (refl, refl, refl, refl) refl refl) bal))
        ]
      ]

  pub IsCounted-advance :
      (fd : ℕ) (f : OpenFile) (n : ℕ) (x : Result ℕ (Unit {0}) × Kernel Dev)
      → fd_at fd x.1 ≡ some (file f)
      → IsCounted x.1
      → IsCounted (advance fd f n x).1
  IsCounted-advance fd f n (ok _, k) here bal =
      IsCounted-set_file fd f (record f { offset = f.offset + n }) k here bal
  IsCounted-advance fd f n (err e, k) here bal = bal

  IsCounted-read_from_file :
      (fd : ℕ) (f : OpenFile) (buf count : ℕ) (k : Kernel Dev)
      → fd_at fd k ≡ some (file f)
      → IsCounted k
      → IsCounted (read_from_file fd f buf count k).1
  unfolding read_from_file
  IsCounted-read_from_file fd f buf count k here bal =
      let start = min f.offset (length f.content) in
      let n = min (length f.content - start) count in
      let out = take n (drop start f.content) in
      IsCounted-if f.is_dir (err eisdir, k) (advance fd f n (copy_out buf out k)) bal
        (IsCounted-advance fd f n (copy_out buf out k) here
          (IsCounted-Same k (copy_out buf out k).1 (Same-copy_out buf out k) bal))

  IsCounted-read_entry :
      (fd : ℕ) (o : Option Fd) (buf count : ℕ) (k : Kernel Dev)
      → fd_at fd k ≡ o
      → IsCounted k
      → IsCounted (read_entry fd o buf count k).1
  IsCounted-read_entry fd none buf count k here bal = bal
  IsCounted-read_entry fd (some console) buf count k here bal = IsCounted-read_stdin buf count k bal
  IsCounted-read_entry fd (some vga) buf count k here bal = bal
  IsCounted-read_entry fd (some serial) buf count k here bal = bal
  IsCounted-read_entry fd (some (file f)) buf count k here bal =
      IsCounted-read_from_file fd f buf count k here bal
  IsCounted-read_entry fd (some (pipe_read p)) buf count k here bal =
      IsCounted-read_pipe p buf count k bal
  IsCounted-read_entry fd (some (pipe_write p)) buf count k here bal = bal
  IsCounted-read_entry fd (some (socket a handle kind)) buf count k here bal = bal

  pub IsCounted-sys_read :
      (fd buf count : ℕ) (k : Kernel Dev) → IsCounted k → IsCounted (sys_read fd buf count k).1
  unfolding sys_read
  IsCounted-sys_read fd buf count k bal =
      IsCounted-read_entry fd (fd_at fd k) buf count (touch k) (fd_at-touch fd k)
        (Balanced-touch (λ r. 0) k bal)

  IsCounted-seek_file :
      (fd : ℕ) (f : OpenFile) (offset : ℤ) (whence : ℕ) (k : Kernel Dev)
      → fd_at fd k ≡ some (file f)
      → IsCounted k
      → IsCounted (seek_file fd f offset whence k).1
  IsCounted-seek_file fd f offset whence k here bal = elim (Option-cases (seek_base whence f)) [
    | inl e ↦ rw (e, seek_file) bal
    | inr (base, e) ↦ elim (Option-cases (moved base offset)) [
      | inl g ↦ rw (e, g, seek_file) bal
      | inr (at, g) ↦
          rw (e, g, seek_file) (IsCounted-set_file fd f (record f { offset = at }) k here bal)
    ]
  ]

  IsCounted-seek_entry :
      (fd : ℕ) (o : Option Fd) (offset : ℤ) (whence : ℕ) (k : Kernel Dev)
      → fd_at fd k ≡ o
      → IsCounted k
      → IsCounted (seek_entry fd o offset whence k).1
  IsCounted-seek_entry fd none offset whence k here bal = bal
  IsCounted-seek_entry fd (some console) offset whence k here bal = bal
  IsCounted-seek_entry fd (some vga) offset whence k here bal = bal
  IsCounted-seek_entry fd (some serial) offset whence k here bal = bal
  IsCounted-seek_entry fd (some (file f)) offset whence k here bal =
      IsCounted-seek_file fd f offset whence k here bal
  IsCounted-seek_entry fd (some (pipe_read p)) offset whence k here bal = bal
  IsCounted-seek_entry fd (some (pipe_write p)) offset whence k here bal = bal
  IsCounted-seek_entry fd (some (socket a handle kind)) offset whence k here bal = bal

  pub IsCounted-sys_lseek :
      (fd : ℕ) (offset : ℤ) (whence : ℕ) (k : Kernel Dev)
      → IsCounted k
      → IsCounted (sys_lseek fd offset whence k).1
  unfolding sys_lseek
  IsCounted-sys_lseek fd offset whence k bal =
      IsCounted-seek_entry fd (fd_at fd k) offset whence (touch k) (fd_at-touch fd k)
        (Balanced-touch (λ r. 0) k bal)
