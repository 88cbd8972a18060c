-- ===== src/Files/Table.antt =====
-- src/syscall/files.rs: the calls that change the table of descriptors.
use ferros.Prelude.{
  ℕ, zero, suc, ◌+◌, ◌-◌, ◌||◌, not, Option, none, some, List, [], ◌++◌, Result, ok, err, M, pure,
  ◌>>=◌, ◌>>◌,
}
use ferros.Prelude.{if◌then◌else◌, leb, ◌==◌, length, set, replicate, to_le}
use ferros.Abi.{
  ebadf, eprotonosupport, eafnosupport, o_rdonly, o_wronly, o_rdwr, f_dupfd, f_getfd, f_setfd,
  f_getfl, f_setfl, af_inet, sock_dgram, sock_stream,
}
use ferros.Block.{BlockDevice}
use ferros.User.{einval}
use ferros.Files.{max_fds, emfile}
use ferros.Files.Kernel.{
  Fd, console, vga, serial, file, pipe_read, pipe_write, socket, SockKind, udp, tcp, Kernel, change,
  slot, clone_entry, drop_entry, drop_fd, current_proc, touch, fd_at, set_fds, set_fd, place,
  copy_out, flush,
}

-- `while fds.len() <= fd { fds.push(None) }`
abbrev pub grow : List (Option Fd) → ℕ → List (Option Fd)
grow fds fd = fds ++ replicate (fd + 1 - length fds) none

-- The search of `F_DUPFD`: `left` numbers below MAX_FDS remain.
abbrev pub first_free : ℕ → ℕ → List (Option Fd) → Option ℕ
first_free zero idx fds = none
first_free (suc left) idx fds =
    let rest = first_free left (idx + 1) fds in
    elim (slot fds idx) [ none ↦ some idx | some fd ↦ rest ]

abbrev pub access_mode : Fd → ℕ
access_mode console = o_rdonly
access_mode vga = o_wronly
access_mode serial = o_wronly
access_mode (file f) = if f.writable then o_rdwr else o_rdonly
access_mode (pipe_read p) = o_rdonly
access_mode (pipe_write p) = o_wronly
access_mode (socket a handle kind) = o_rdwr

abbrev pub if_open : Option Fd → (Fd → ℕ) → Result ℕ ℕ
if_open none f = err ebadf
if_open (some fd) f = ok (f fd)

module _ {Dev : Type 0} where
  -- The entry at `fd` is replaced by a copy of `o`, and what stood there is dropped.
  abbrev pub replace : ℕ → Fd → Kernel Dev → Kernel Dev
  replace fd o k =
      drop_entry (fd_at fd k)
        (set_fds (set (grow (current_proc k).fds fd) fd (some o)) (clone_entry (some o) k))

  unfoldable pub sys_dup2 : ℕ → ℕ → M (Kernel Dev) ℕ ℕ
  sys_dup2 oldfd newfd k = if leb max_fds newfd then (err ebadf, k) else elim (fd_at oldfd k) [
    | none ↦ (err ebadf, touch k)
    | some o ↦ if oldfd == newfd then (ok newfd, touch k) else (ok newfd, replace newfd o k)
  ]

  -- A copy that finds no place is dropped.
  abbrev pub dupfd : ℕ → ℕ → M (Kernel Dev) ℕ ℕ
  dupfd fd start k = elim (fd_at fd k) [
    | none ↦ (err ebadf, touch k)
    | some o ↦ elim (first_free (max_fds - start) start (current_proc k).fds) [
      | none ↦ (err emfile, drop_fd o (touch (clone_entry (some o) k)))
      | some idx ↦ (ok idx, replace idx o k)
    ]
  ]

  unfoldable pub sys_fcntl : ℕ → ℕ → ℕ → M (Kernel Dev) ℕ ℕ
  sys_fcntl fd cmd arg k =
      if cmd == f_dupfd
      then (if leb max_fds arg then (err einval, k) else dupfd fd arg k)
      else if (cmd == f_getfd) || ((cmd == f_setfd) || (cmd == f_setfl))
      then (if_open (fd_at fd k) (λ _. 0), touch k)
      else if cmd == f_getfl
      then (if_open (fd_at fd k) access_mode, touch k)
      else (err einval, k)

  -- A socket in the stack has a fresh `Arc`. `made` is what the stack's call returned.
  abbrev pub install_socket : Result ℕ ℕ → SockKind → M (Kernel Dev) ℕ ℕ
  install_socket (err e) kind k = (err e, k)
  install_socket (ok handle) kind k =
      place (socket k.next_arc handle kind)
        (record k { arcs = change k.arcs k.next_arc 1; next_arc = k.next_arc + 1 })

  -- `udp_socket` and `tcp_socket` stand for the outcomes of the stack's calls.
  unfoldable pub sys_socket : Result ℕ ℕ → Result ℕ ℕ → ℕ → ℕ → M (Kernel Dev) ℕ ℕ
  sys_socket udp_socket tcp_socket domain sock_type k =
      if not (domain == af_inet)
      then (err eafnosupport, k)
      else if sock_type == sock_dgram
      then install_socket udp_socket udp k
      else if sock_type == sock_stream
      then install_socket tcp_socket tcp k
      else (err eprotonosupport, k)

  abbrev pub new_pipe : Kernel Dev → Kernel Dev
  new_pipe k = record k {
    pipes = change k.pipes k.next_pipe (record { queue = []; readers = 1; writers = 1 });
    next_pipe = k.next_pipe + 1;
  }

  -- The closure of `sys_pipe`: without a place for both ends neither stays.
  abbrev pub keep_both : ℕ → ℕ → Result ℕ ℕ × Kernel Dev → Result ℕ (ℕ × ℕ) × Kernel Dev
  keep_both p r (err e, k) = (err e, drop_fd (pipe_read p) (set_fd r none k))
  keep_both p r (ok w, k) = (ok (r, w), k)

  abbrev pub place_write_end : ℕ → Result ℕ ℕ × Kernel Dev → Result ℕ (ℕ × ℕ) × Kernel Dev
  place_write_end p (err e, k) = (err e, drop_fd (pipe_write p) k)
  place_write_end p (ok r, k) = keep_both p r (place (pipe_write p) k)

  abbrev pub place_ends : ℕ → M (Kernel Dev) ℕ (ℕ × ℕ)
  place_ends p k = place_write_end p (place (pipe_read p) k)

  unfoldable pub sys_pipe : ℕ → M (Kernel Dev) ℕ ℕ
  sys_pipe fds_ptr = λ k.
      (do (r, w) ← place_ends k.next_pipe; copy_out fds_ptr (to_le 4 r ++ to_le 4 w) >> pure 0)
        (new_pipe k)

module _ (d : BlockDevice) where
  -- The entry is taken out of the table first, and dropped at the end, written back or not.
  abbrev pub close_entry : Fd → M (Kernel d.Dev) ℕ ℕ
  close_entry o k = let (r, k') = (flush d o >> pure 0) k in (r, drop_fd o k')

  unfoldable pub sys_close : ℕ → M (Kernel d.Dev) ℕ ℕ
  sys_close fd k = elim (fd_at fd k) [
    | none ↦ (err ebadf, touch k)
    | some o ↦ close_entry o (set_fd fd none k)
  ]
