-- ===== src/Files/Counts/Writes.antt =====
-- src/syscall/files.rs: writing, against the counts.
use ferros.Prelude.{ℕ, ◌≡◌, refl, ap, ◌&&◌, not, Option, none, some, ◌++◌, inl, inr, arith}
use ferros.Prelude.{◌==◌, set, Bytes, Bool-cases, Result-cases}
use ferros.User.{user_bytes}
use ferros.Files.Kernel.{
  slot, OpenFile, Fd, console, vga, serial, file, pipe_read, pipe_write, socket, Kernel, change,
  current_proc, fd_at, set_fd, touch,
}
use ferros.Files.Transfer.{
  record_write, write_device, to_screen, to_serial, push_pipe, write_pipe, write_at, write_to_file,
  write_entry, sys_write,
}
use ferros.Files.Counts.{Shared, reader, writer, arc, use_entry, counter, IsCounted}
use ferros.Files.Counts.Tables.{uses-set, slot-some-lt}
use ferros.Files.Counts.Ends.{Kept, Same, Same-fields, Balanced-Same, Balanced-set_fds}
use ferros.Files.Counts.Calls.{Balanced-touch}
use ferros.Files.Counts.Pipes.{fds-set_fds}

module _ {Dev : Type 0} where
  pub IsCounted-Same : (k k' : Kernel Dev) → Same k k' → IsCounted k → IsCounted k'
  IsCounted-Same = Balanced-Same (λ r. 0)

  -- A file takes the place of a file.
  pub IsCounted-set_file :
      (fd : ℕ) (f f' : OpenFile) (k : Kernel Dev)
      → fd_at fd k ≡ some (file f)
      → IsCounted k
      → IsCounted (set_fd fd (some (file f')) k)
  IsCounted-set_file fd f f' k e =
      Balanced-set_fds (λ r. 0) (λ r. 0) (set (current_proc k).fds fd (some (file f'))) k
        (λ r. omega (
          arith,
          ap (use_entry r) e,
          uses-set r (current_proc k).fds fd (some (file f'))
              (slot-some-lt (current_proc k).fds fd e),
        ))

  -- What a pipe holds does not count.
  pub Same-queue :
      (p : ℕ) (queue : Bytes) (k k' : Kernel Dev)
      → Kept k k'
      → k'.pipes ≡ change k.pipes p (record (k.pipes p) { queue = queue })
      → k'.arcs ≡ k.arcs
      → Same k k'
  Same-queue p queue k k' kept pipes arcs = (kept, same)
    where
      same : (r : Shared) → counter r k' ≡ counter r k
      same (reader q) = ground (arith, ap (λ f. (f q).readers) pipes)
      same (writer q) = ground (arith, ap (λ f. (f q).writers) pipes)
      same (arc a) = ap (λ f. f a) arcs

  IsCounted-write_device :
      (fd buf count user_rsp : ℕ) (sink : Bytes → Kernel Dev → Kernel Dev) (k : Kernel Dev)
      → ((bytes : Bytes) → Same k (record_write fd bytes user_rsp (sink bytes k)))
      → IsCounted k
      → IsCounted (write_device fd buf count user_rsp sink k).1
  IsCounted-write_device fd buf count user_rsp sink k same bal =
      elim (Result-cases (user_bytes k.space buf count)) [
        | inl (bytes, e) ↦
            rw (e, write_device)
              (IsCounted-Same k (record_write fd bytes user_rsp (sink bytes k)) (same bytes) bal)
        | inr (errno, e) ↦ rw (e, write_device) bal
      ]

  Same-push_pipe : (p : ℕ) (bytes : Bytes) (k : Kernel Dev) → Same k (push_pipe p bytes k).1
  Same-push_pipe p bytes k = elim (Bool-cases ((k.pipes p).readers == 0)) [
    | inl e ↦ rw (e, push_pipe) (Same-fields k k (refl, refl, refl, refl) refl refl)
    | inr e ↦
        rw (e, push_pipe)
          (Same-queue p ((k.pipes p).queue ++ bytes) k _ (refl, refl, refl, refl) refl refl)
  ]

  IsCounted-write_pipe :
      (p buf count : ℕ) (k : Kernel Dev) → IsCounted k → IsCounted (write_pipe p buf count k).1
  unfolding write_pipe
  IsCounted-write_pipe p buf count k bal = elim (Bool-cases (count == 0)) [
    | inl e ↦ rw (e, write_pipe) bal
    | inr e ↦ elim (Result-cases (user_bytes k.space buf count)) [
      | inl (bytes, f) ↦
          rw (e, f, write_pipe)
            (IsCounted-Same k (push_pipe p bytes k).1 (Same-push_pipe p bytes k) bal)
      | inr (errno, f) ↦ rw (e, f, write_pipe) bal
    ]
  ]

  IsCounted-write_to_file :
      (fd : ℕ) (f : OpenFile) (buf count : ℕ) (k : Kernel Dev)
      → fd_at fd k ≡ some (file f)
      → IsCounted k
      → IsCounted (write_to_file fd f buf count k).1
  unfolding write_to_file
  IsCounted-write_to_file fd f buf count k here bal =
      elim (Result-cases (user_bytes k.space buf count)) [
        | inl (bytes, e) ↦
            rw (e, write_to_file) (IsCounted-set_file fd f (write_at f bytes) k here bal)
        | inr (errno, e) ↦ rw (e, write_to_file) bal
      ]

  IsCounted-write_entry :
      (fd : ℕ) (o : Option Fd) (buf count user_rsp : ℕ) (k : Kernel Dev)
      → fd_at fd k ≡ o
      → IsCounted k
      → IsCounted (write_entry fd o buf count user_rsp k).1
  IsCounted-write_entry fd none buf count user_rsp k here bal = bal
  IsCounted-write_entry fd (some console) buf count user_rsp k here bal = bal
  IsCounted-write_entry fd (some vga) buf count user_rsp k here bal =
      IsCounted-write_device fd buf count user_rsp to_screen k
        (λ bytes.
          Same-fields k (record_write fd bytes user_rsp (to_screen bytes k))
            (refl, refl, refl, refl) refl refl)
        bal
  IsCounted-write_entry fd (some serial) buf count user_rsp k here bal =
      IsCounted-write_device fd buf count user_rsp to_serial k
        (λ bytes.
          Same-fields k (record_write fd bytes user_rsp (to_serial bytes k))
            (refl, refl, refl, refl) refl refl)
        bal
  IsCounted-write_entry fd (some (file f)) buf count user_rsp k here bal =
      elim (Bool-cases (f.writable && not f.is_dir)) [
        | inl e ↦ rw (e, write_entry) (IsCounted-write_to_file fd f buf count k here bal)
        | inr e ↦ rw (e, write_entry) bal
      ]
  IsCounted-write_entry fd (some (pipe_read p)) buf count user_rsp k here bal = bal
  IsCounted-write_entry fd (some (pipe_write p)) buf count user_rsp k here bal =
      IsCounted-write_pipe p buf count k bal
  IsCounted-write_entry fd (some (socket a handle kind)) buf count user_rsp k here bal = bal

  pub fd_at-touch : (fd : ℕ) (k : Kernel Dev) → fd_at fd (touch k) ≡ fd_at fd k
  fd_at-touch fd k = ap (λ fds. slot fds fd) (fds-set_fds (current_proc k).fds k)

  pub IsCounted-sys_write :
      (fd buf count user_rsp : ℕ) (k : Kernel Dev)
      → IsCounted k
      → IsCounted (sys_write fd buf count user_rsp k).1
  unfolding sys_write
  IsCounted-sys_write fd buf count user_rsp k bal =
      IsCounted-write_entry fd (fd_at fd k) buf count user_rsp (touch k) (fd_at-touch fd k)
        (Balanced-touch (λ r. 0) k bal)
