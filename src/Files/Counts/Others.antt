-- ===== src/Files/Counts/Others.antt =====
-- src/syscall/files.rs: the calls that share nothing, against the counts.
use ferros.Prelude.{
  ℕ, zero, suc, ◌+◌, ◌≡◌, Bool, true, false, Option, none, some, [], ◌∷◌, ◌++◌, inl, inr, Result,
  err, M, pure, ◌>>=◌, ◌>>◌, arith,
}
use ferros.Prelude.{
  if◌then◌else◌, ltb, ◌==◌, length, take, drop, Bytes, Bool-cases, Option-cases, Result-cases,
}
use ferros.Abi.{enotdir}
use ferros.Block.{BlockDevice}
use ferros.Fat.Volume.{FatError}
use ferros.Fat.Path.{Node, file, dir}
use ferros.User.{einval}
use ferros.Files.Kernel
use ferros.Files.Kernel.{
  OpenFile, Fd, Kernel, touch, fd_at, current_proc, set_proc, copy_out, on_volume,
}
use ferros.Files.Open.{path_arg, enter_dir, sys_chdir, sys_getcwd, sys_mkdir, sys_unlink, sys_rmdir}
use ferros.Files.Stat.{stat_of, sys_stat, fd_stat, sys_fstat}
use ferros.Files.Transfer.{advance, sys_write}
use ferros.Files.Getdents.{
  Span, span, panics, spins, records, list_span, list_entry, sys_getdents64,
}
use ferros.Files.Vector.{read_iovec, iov_max, writev_loop, sys_writev}
use ferros.Files.Counts.{uses_all-insert_proc, IsCounted}
use ferros.Files.Counts.Ends.{Balanced-procs, uses-current_proc}
use ferros.Files.Counts.Calls.{Balanced-touch, Same-copy_out, IsCounted-if}
use ferros.Files.Counts.Opened.{IsCounted-after, IsCounted-on_volume, IsCounted-path_arg}
use ferros.Files.Counts.Writes.{IsCounted-Same, fd_at-touch, IsCounted-sys_write}
use ferros.Files.Counts.Reads.{IsCounted-advance}
use ferros.Vfs

module _ {Dev : Type 0} where
  pub IsCounted-copy_out :
      (dst : ℕ) (src : Bytes) (k : Kernel Dev) → IsCounted k → IsCounted (copy_out dst src k).1
  IsCounted-copy_out dst src k = IsCounted-Same k (copy_out dst src k).1 (Same-copy_out dst src k)

  IsCounted-set_cwd :
      (cwd : Bytes) (k : Kernel Dev)
      → IsCounted k
      → IsCounted (set_proc (record (current_proc k) { cwd = cwd }) k)
  IsCounted-set_cwd cwd k =
      Balanced-procs (λ r. 0) (λ r. 0) (set_proc (record (current_proc k) { cwd = cwd }) k).procs k
        (λ r. omega (
          arith,
          uses-current_proc r k,
          uses_all-insert_proc r k.key (record (current_proc k) { cwd = cwd }) k.procs,
        ))

module _ (d : BlockDevice) (utf8 : Bytes → Bool) where
  -- A call on a path, and then a copy to the caller or an answer.
  IsCounted-copied_out :
      (dst : ℕ) (src : Bytes) (a : ℕ) (k : Kernel d.Dev)
      → IsCounted k
      → IsCounted ((copy_out dst src >> pure a) k).1
  IsCounted-copied_out dst src a k bal =
      IsCounted-after d utf8 (copy_out dst src k) (λ _. pure a) (IsCounted-copy_out dst src k bal)
        (λ _ k' bal'. bal')

  IsCounted-on_path :
      (path_ptr : ℕ) (f : Bytes → M (Kernel d.Dev) ℕ ℕ) (k : Kernel d.Dev)
      → ((path : Bytes) (k : Kernel d.Dev) → IsCounted k → IsCounted (f path k).1)
      → IsCounted k
      → IsCounted ((path_arg d utf8 path_ptr >>= f) k).1
  IsCounted-on_path path_ptr f k keeps bal =
      IsCounted-after d utf8 (path_arg d utf8 path_ptr k) f
        (IsCounted-path_arg d utf8 path_ptr k bal) keeps

  IsCounted-enter_dir :
      (path : Bytes) (node : Node) (k : Kernel d.Dev)
      → IsCounted k
      → IsCounted (enter_dir d utf8 path node k).1
  IsCounted-enter_dir path (dir items) k bal = IsCounted-set_cwd path k bal
  IsCounted-enter_dir path (file content) k bal = bal

  pub IsCounted-sys_chdir :
      (path_ptr : ℕ) (k : Kernel d.Dev) → IsCounted k → IsCounted (sys_chdir d utf8 path_ptr k).1
  unfolding sys_chdir
  IsCounted-sys_chdir path_ptr k = IsCounted-on_path path_ptr _ k (λ path k1 bal1.
      IsCounted-after d utf8 (on_volume (Vfs.lookup d path) k1) (enter_dir d utf8 path)
        (IsCounted-on_volume d utf8 (Vfs.lookup d path) k1 bal1) (IsCounted-enter_dir path))

  pub IsCounted-sys_getcwd :
      (buf size : ℕ) (k : Kernel d.Dev) → IsCounted k → IsCounted (sys_getcwd d utf8 buf size k).1
  unfolding sys_getcwd
  IsCounted-sys_getcwd buf size k bal =
      elim (Bool-cases (ltb size (length (current_proc k).cwd + 1))) [
        | inl e ↦ rw (e, sys_getcwd) (Balanced-touch (λ r. 0) k bal)
        | inr e ↦
            rw (e, sys_getcwd)
              (IsCounted-copied_out buf ((current_proc k).cwd ++ (0 ∷ []))
                (length (current_proc k).cwd + 1) (touch k) (Balanced-touch (λ r. 0) k bal))
      ]

  IsCounted-changed :
      (m : M d.Dev FatError (Unit {0})) (a : ℕ) (k : Kernel d.Dev)
      → IsCounted k
      → IsCounted ((on_volume m >> pure a) k).1
  IsCounted-changed m a k bal =
      IsCounted-after d utf8 (on_volume m k) (λ _. pure a) (IsCounted-on_volume d utf8 m k bal)
        (λ _ k' bal'. bal')

  pub IsCounted-sys_mkdir :
      (path_ptr : ℕ) (k : Kernel d.Dev) → IsCounted k → IsCounted (sys_mkdir d utf8 path_ptr k).1
  unfolding sys_mkdir
  IsCounted-sys_mkdir path_ptr k =
      IsCounted-on_path path_ptr _ k (λ path. IsCounted-changed (Vfs.mkdir d path) 0)

  pub IsCounted-sys_unlink :
      (path_ptr : ℕ) (k : Kernel d.Dev) → IsCounted k → IsCounted (sys_unlink d utf8 path_ptr k).1
  unfolding sys_unlink
  IsCounted-sys_unlink path_ptr k =
      IsCounted-on_path path_ptr _ k (λ path. IsCounted-changed (Vfs.unlink d path) 0)

  pub IsCounted-sys_rmdir :
      (path_ptr : ℕ) (k : Kernel d.Dev) → IsCounted k → IsCounted (sys_rmdir d utf8 path_ptr k).1
  unfolding sys_rmdir
  IsCounted-sys_rmdir path_ptr k =
      IsCounted-on_path path_ptr _ k (λ path. IsCounted-changed (Vfs.rmdir d path) 0)

  pub IsCounted-sys_stat :
      (path_ptr statbuf : ℕ) (k : Kernel d.Dev)
      → IsCounted k
      → IsCounted (sys_stat d utf8 path_ptr statbuf k).1
  unfolding sys_stat
  IsCounted-sys_stat path_ptr statbuf k = IsCounted-on_path path_ptr _ k (λ path k1 bal1.
      IsCounted-after d utf8 (on_volume (Vfs.stat d path) k1) _
        (IsCounted-on_volume d utf8 (Vfs.stat d path) k1 bal1)
        (λ meta. IsCounted-copied_out statbuf (stat_of meta) 0))

  pub IsCounted-sys_fstat :
      (fd statbuf : ℕ) (k : Kernel d.Dev) → IsCounted k → IsCounted (sys_fstat fd statbuf k).1
  unfolding sys_fstat
  IsCounted-sys_fstat fd statbuf k bal = elim (Option-cases (fd_at fd k)) [
    | inl e ↦ rw (e, sys_fstat) (Balanced-touch (λ r. 0) k bal)
    | inr (o, e) ↦
        rw (e, sys_fstat)
          (IsCounted-copied_out statbuf (fd_stat o) 0 (touch k) (Balanced-touch (λ r. 0) k bal))
  ]

module _ {Dev : Type 0} where
  -- A listing that panics or spins leads to no state.
  abbrev pub state_of : Option (Result ℕ ℕ × Kernel Dev) → Kernel Dev → Kernel Dev
  state_of none k = k
  state_of (some x) k = x.1

  IsCounted-list_span :
      (fd : ℕ) (f : OpenFile) (buf : ℕ) (n : Span) (k : Kernel Dev)
      → fd_at fd k ≡ some (Kernel.Fd.file f)
      → IsCounted k
      → IsCounted (state_of (list_span fd f buf n k) k)
  IsCounted-list_span fd f buf panics k here bal = bal
  IsCounted-list_span fd f buf spins k here bal = bal
  IsCounted-list_span fd f buf (span n) k here bal =
      let out = take n (drop f.offset f.content) in
      IsCounted-if (n == 0) _ (advance fd f n (copy_out buf out k)) bal
        (IsCounted-advance fd f n (copy_out buf out k) here (IsCounted-copy_out buf out k bal))

  IsCounted-list_entry :
      (fd : ℕ) (o : Option Fd) (buf count : ℕ) (k : Kernel Dev)
      → fd_at fd k ≡ o
      → IsCounted k
      → IsCounted (state_of (list_entry fd o buf count k) k)
  IsCounted-list_entry fd none buf count k here bal = bal
  IsCounted-list_entry fd (some Kernel.Fd.console) buf count k here bal = bal
  IsCounted-list_entry fd (some Kernel.Fd.vga) buf count k here bal = bal
  IsCounted-list_entry fd (some Kernel.Fd.serial) buf count k here bal = bal
  IsCounted-list_entry fd (some (Kernel.Fd.file f)) buf count k here bal =
      or_not_dir f.is_dir (IsCounted-list_span fd f buf (records f count) k here bal)
    where
      or_not_dir :
          (b : Bool)
          → IsCounted (state_of (list_span fd f buf (records f count) k) k)
          → IsCounted (
              state_of
                (if b then list_span fd f buf (records f count) k else some (err enotdir, k))
                k)
      or_not_dir true h = h
      or_not_dir false h = bal
  IsCounted-list_entry fd (some (Kernel.Fd.pipe_read p)) buf count k here bal = bal
  IsCounted-list_entry fd (some (Kernel.Fd.pipe_write p)) buf count k here bal = bal
  IsCounted-list_entry fd (some (Kernel.Fd.socket a handle kind)) buf count k here bal = bal

  pub IsCounted-sys_getdents64 :
      (fd buf count : ℕ) (k : Kernel Dev)
      → IsCounted k
      → IsCounted (state_of (sys_getdents64 fd buf count k) (touch k))
  unfolding sys_getdents64
  IsCounted-sys_getdents64 fd buf count k bal =
      IsCounted-list_entry fd (fd_at fd k) buf count (touch k) (fd_at-touch fd k)
        (Balanced-touch (λ r. 0) k bal)

  IsCounted-writev_loop :
      (left i fd iov user_rsp total : ℕ) (k : Kernel Dev)
      → IsCounted k
      → IsCounted (writev_loop left i fd iov user_rsp total k).1
  unfolding writev_loop
  IsCounted-writev_loop zero i fd iov user_rsp total k bal = bal
  IsCounted-writev_loop (suc left) i fd iov user_rsp total k bal =
      elim (Result-cases (read_iovec k.space iov i)) [
        | inr (errno, e) ↦ rw (e, writev_loop) bal
        | inl (v, e) ↦ elim (Bool-cases (v.1 == 0)) [
          | inl f ↦
              rw (e, f, writev_loop)
                (IsCounted-writev_loop left (i + 1) fd iov user_rsp total k bal)
          | inr f ↦
              let k' = (sys_write fd v.0 v.1 user_rsp k).1 in
              let bal' = IsCounted-sys_write fd v.0 v.1 user_rsp k bal in
              elim (Result-cases (sys_write fd v.0 v.1 user_rsp k).0) [
                | inr (errno, g) ↦ rw (e, f, g, writev_loop) bal'
                | inl (written, g) ↦ elim (Bool-cases (ltb written v.1)) [
                  | inl h ↦ rw (e, f, g, h, writev_loop) bal'
                  | inr h ↦
                      rw (e, f, g, h, writev_loop)
                        (IsCounted-writev_loop left (i + 1) fd iov user_rsp (total + written) k'
                          bal')
                ]
              ]
        ]
      ]

  pub IsCounted-sys_writev :
      (fd iov iovcnt user_rsp : ℕ) (k : Kernel Dev)
      → IsCounted k
      → IsCounted (sys_writev fd iov iovcnt user_rsp k).1
  unfolding sys_writev
  IsCounted-sys_writev fd iov iovcnt user_rsp k bal =
      IsCounted-if (ltb iov_max iovcnt) (err einval, k) _ bal
        (IsCounted-writev_loop iovcnt 0 fd iov user_rsp 0 k bal)
