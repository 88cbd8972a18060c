-- ===== src/Files/Counts/Calls.antt =====
-- src/syscall/files.rs: the calls keep each count at the number of descriptors that share it.
use ferros.Prelude.{
  ℕ, ◌+◌, ◌-◌, ◌≤◌, ◌≡◌, refl, not, ◌||◌, Bool, true, false, Option, some, List, inl, inr, Result,
  ok, err, arith,
}
use ferros.Prelude.{if◌then◌else◌, leb, ◌==◌, set, Bytes, Option-cases, Bool-cases}
use ferros.User.{einval}
use ferros.Abi.{
  eafnosupport, eprotonosupport, f_dupfd, f_getfd, f_setfd, f_setfl, f_getfl, af_inet, sock_dgram,
  sock_stream,
}
use ferros.Files.{max_fds, alloc_fd}
use ferros.Files.Kernel.{
  Fd, socket, SockKind, udp, tcp, Kernel, change, clone_fd, current_proc, set_fds, fd_at, touch,
  placed, place, copy_out,
}
use ferros.Files.Table.{
  if_open, access_mode, grow, replace, first_free, dupfd, sys_dup2, sys_fcntl, install_socket,
  sys_socket,
}
use ferros.Files.Counts.{
  Shared, reader, writer, arc, use_of, use_entry, uses, uses_all, Balanced, IsCounted, uses_proc-le,
}
use ferros.Files.Counts.Tables.{uses-set-grow, use_of-le-uses, uses-alloc_fd, taken}
use ferros.Files.Counts.Ends.{
  Same, Same-fields, Balanced-drop_fd, Balanced-drop_entry, Balanced-clone_fd, Balanced-set_fds,
  clone_fd-Kept, uses-current_proc,
}

module _ {Dev : Type 0} where
  pub Balanced-touch :
      (held : Shared → ℕ) (k : Kernel Dev) → Balanced held k → Balanced held (touch k)
  Balanced-touch held k = Balanced-set_fds held held (current_proc k).fds k (λ r. refl)

  pub Same-copy_out : (dst : ℕ) (src : Bytes) (k : Kernel Dev) → Same k (copy_out dst src k).1
  Same-copy_out dst src k = Same-fields k (copy_out dst src k).1 (refl, refl, refl, refl) refl refl

  current_proc-clone_fd :
      (r : Shared) (fd : Fd) (k : Kernel Dev)
      → uses r (current_proc (clone_fd fd k)).fds ≡ uses r (current_proc k).fds
  current_proc-clone_fd r fd k =
      let (same_key, same_procs, same_pipe, same_arc) = clone_fd-Kept fd k in
      rw (same_key, same_procs) refl

  -- What stands in the table of the current process stands in a table.
  use_of-le-uses_all :
      (r : Shared) (fd : ℕ) (o : Fd) (k : Kernel Dev)
      → fd_at fd k ≡ some o
      → use_of r o ≤ uses_all r k.procs
  use_of-le-uses_all r fd o k e = omega (
    arith,
    use_of-le-uses r (current_proc k).fds fd e,
    uses-current_proc r k,
    uses_proc-le r k.key k.procs,
  )

  -- An entry in hand finds its place, or is dropped.
  Balanced-placed :
      (held : Shared → ℕ) (fd : Fd) (x : Result ℕ ℕ × List (Option Fd)) (k : Kernel Dev)
      → ((r : Shared) → uses r x.1 ≡ taken x.0 r fd + uses r (current_proc k).fds)
      → Balanced (λ r. use_of r fd + held r) k
      → Balanced held (placed fd x k).1
  Balanced-placed held fd (ok i, fds) k e bal =
      Balanced-set_fds (λ r. use_of r fd + held r) held fds k (λ r. omega (arith, e r)) bal
  Balanced-placed held fd (err errno, fds) k e bal = Balanced-drop_fd held fd (set_fds fds k) (
      Balanced-set_fds (λ r. use_of r fd + held r) (λ r. use_of r fd + held r) fds k
        (λ r. omega (arith, e r)) bal)

  pub Balanced-place :
      (held : Shared → ℕ) (fd : Fd) (k : Kernel Dev)
      → Balanced (λ r. use_of r fd + held r) k
      → Balanced held (place fd k).1
  unfolding place
  Balanced-place held fd k =
      Balanced-placed held fd (alloc_fd (current_proc k).fds fd) k
        (λ r. uses-alloc_fd r (current_proc k).fds fd)

  -- The entry that stands at the place is in no table any more, and the copy is in this one.
  Balanced-replace :
      (fd : ℕ) (o : Fd) (k : Kernel Dev)
      → ((r : Shared) → use_of r o ≤ uses_all r k.procs)
      → IsCounted k
      → IsCounted (replace fd o k)
  Balanced-replace fd o k small bal =
      let k' = clone_fd o k in
      let fds = set (grow (current_proc k).fds fd) fd (some o) in
      let (same_key, same_procs, same_pipe, same_arc) = clone_fd-Kept o k in
      let copied = Balanced-clone_fd (λ r. 0) o k bal (λ r. omega (arith, small r)) in
      Balanced-drop_entry (λ r. 0) (fd_at fd k) (set_fds fds k')
        (Balanced-set_fds (λ r. use_of r o + 0) (λ r. use_entry r (fd_at fd k) + 0) fds k'
          (λ r.
            omega (
              arith,
              uses-set-grow r (current_proc k).fds fd (some o),
              current_proc-clone_fd r o k,
            ))
          copied)

  pub IsCounted-sys_dup2 :
      (oldfd newfd : ℕ) (k : Kernel Dev) → IsCounted k → IsCounted (sys_dup2 oldfd newfd k).1
  unfolding sys_dup2
  IsCounted-sys_dup2 oldfd newfd k bal = elim (Bool-cases (leb max_fds newfd)) [
    | inl e ↦ rw (e, sys_dup2) bal
    | inr e ↦ elim (Option-cases (fd_at oldfd k)) [
      | inl f ↦ rw (e, f, sys_dup2) (Balanced-touch (λ r. 0) k bal)
      | inr (o, f) ↦ elim (Bool-cases (oldfd == newfd)) [
        | inl g ↦ rw (e, f, g, sys_dup2) (Balanced-touch (λ r. 0) k bal)
        | inr g ↦
            rw (e, f, g, sys_dup2)
              (Balanced-replace newfd o k (λ r. use_of-le-uses_all r oldfd o k f) bal)
      ]
    ]
  ]

  IsCounted-dupfd : (fd start : ℕ) (k : Kernel Dev) → IsCounted k → IsCounted (dupfd fd start k).1
  IsCounted-dupfd fd start k bal = elim (Option-cases (fd_at fd k)) [
    | inl e ↦ rw (e, dupfd) (Balanced-touch (λ r. 0) k bal)
    | inr (o, e) ↦ elim (Option-cases (first_free (max_fds - start) start (current_proc k).fds)) [
      | inl f ↦
          let k' = clone_fd o k in
          let copied =
            Balanced-clone_fd (λ r. 0) o k bal
              (λ r. omega (arith, use_of-le-uses_all r fd o k e)) in
          rw (e, f, dupfd)
            (Balanced-drop_fd (λ r. 0) o (touch k')
              (Balanced-touch (λ r. use_of r o + 0) k' copied))
      | inr (idx, f) ↦
          rw (e, f, dupfd) (Balanced-replace idx o k (λ r. use_of-le-uses_all r fd o k e) bal)
    ]
  ]

  pub IsCounted-if :
      (b : Bool) (x y : Result ℕ ℕ × Kernel Dev)
      → IsCounted x.1
      → IsCounted y.1
      → IsCounted (if b then x else y).1
  IsCounted-if true x y h h' = h
  IsCounted-if false x y h h' = h'

  pub IsCounted-sys_fcntl :
      (fd cmd arg : ℕ) (k : Kernel Dev) → IsCounted k → IsCounted (sys_fcntl fd cmd arg k).1
  unfolding sys_fcntl
  IsCounted-sys_fcntl fd cmd arg k bal =
      IsCounted-if (cmd == f_dupfd) (if leb max_fds arg then (err einval, k) else dupfd fd arg k) _
        (IsCounted-if (leb max_fds arg) (err einval, k) (dupfd fd arg k) bal
          (IsCounted-dupfd fd arg k bal))
        (IsCounted-if ((cmd == f_getfd) || ((cmd == f_setfd) || (cmd == f_setfl)))
          (if_open (fd_at fd k) (λ _. 0), touch k) _ (Balanced-touch (λ r. 0) k bal)
          (IsCounted-if (cmd == f_getfl) (if_open (fd_at fd k) access_mode, touch k) (err einval, k)
            (Balanced-touch (λ r. 0) k bal) bal))

  Balanced-new_arc :
      (handle : ℕ) (kind : SockKind) (k : Kernel Dev)
      → IsCounted k
      → Balanced
          (λ r. use_of r (socket k.next_arc handle kind) + 0)
          (record k { arcs = change k.arcs k.next_arc 1; next_arc = k.next_arc + 1 })
  Balanced-new_arc handle kind k bal (reader p) =
      let (b1, b2) = bal (reader p) in (ground (arith, b1, b2), ground (arith, b1, b2))
  Balanced-new_arc handle kind k bal (writer p) =
      let (b1, b2) = bal (writer p) in (ground (arith, b1, b2), ground (arith, b1, b2))
  Balanced-new_arc handle kind k bal (arc a) =
      let (b1, b2) = bal (arc a) in (ground (arith, b1, b2), ground (arith, b1, b2))

  IsCounted-install_socket :
      (made : Result ℕ ℕ) (kind : SockKind) (k : Kernel Dev)
      → IsCounted k
      → IsCounted (install_socket made kind k).1
  IsCounted-install_socket (err e) kind k bal = bal
  IsCounted-install_socket (ok handle) kind k bal =
      Balanced-place (λ r. 0) (socket k.next_arc handle kind)
        (record k { arcs = change k.arcs k.next_arc 1; next_arc = k.next_arc + 1 })
        (Balanced-new_arc handle kind k bal)

  pub IsCounted-sys_socket :
      (udp_socket tcp_socket : Result ℕ ℕ) (domain sock_type : ℕ) (k : Kernel Dev)
      → IsCounted k
      → IsCounted (sys_socket udp_socket tcp_socket domain sock_type k).1
  unfolding sys_socket
  IsCounted-sys_socket udp_socket tcp_socket domain sock_type k bal =
      IsCounted-if (not (domain == af_inet)) (err eafnosupport, k) _ bal
        (IsCounted-if (sock_type == sock_dgram) (install_socket udp_socket udp k) _
          (IsCounted-install_socket udp_socket udp k bal)
          (IsCounted-if (sock_type == sock_stream) (install_socket tcp_socket tcp k)
            (err eprotonosupport, k) (IsCounted-install_socket tcp_socket tcp k bal) bal))
