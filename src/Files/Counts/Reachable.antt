-- ===== src/Files/Counts/Reachable.antt =====
-- src/syscall/files.rs: every state that the calls lead to, and what it says of a pipe at its end.
use ferros.Prelude.{
  ℕ, ◌-◌, ◌≡◌, ◌≢◌, refl, sym, ap, ◌∙◌, Bool, false, none, some, [], ◌++◌, append-nil, inl, inr,
  Result, ok, err, arith,
}
use ferros.Prelude.{if◌then◌else◌, ◌==◌, length, Bytes, ℤ, Bool-cases}
use ferros.Abi.{epipe}
use ferros.Sched.Table.{Scheduler}
use ferros.Sched.Calls.{wake_pipe_waiters}
use ferros.Block.{BlockDevice}
use ferros.User.{Space, user_bytes}
use ferros.User.Text.{user_bytes-ok, length-bytes_at}
use ferros.Console.{Console}
use ferros.Files.Kernel.{touch, Kernel, fd_at, drop_fd, pipe_write, set_fd}
use ferros.Files.Open.{sys_open}
use ferros.Files.Table.{sys_dup2, sys_fcntl, sys_socket, sys_pipe, sys_close}
use ferros.Files.Transfer.{sys_read, sys_write, sys_lseek, read_pipe, write_pipe, returns, waits}
use ferros.Files.Process.{forget_process, rekey_process, fork_fds, release_current_process_fds}
use ferros.Files.Counts.{Shared, reader, writer, arc, uses_all, counter, counter-drop_fd, IsCounted}
use ferros.Files.Counts.Calls.{IsCounted-sys_dup2, IsCounted-sys_fcntl, IsCounted-sys_socket}
use ferros.Files.Counts.Pipes.{IsCounted-sys_pipe, IsCounted-sys_close}
use ferros.Files.Counts.Processes.{
  IsCounted-forget_process, IsCounted-rekey_process, IsCounted-fork_fds,
  IsCounted-release_current_process_fds,
}
use ferros.Files.Counts.Reads.{IsCounted-sys_read, IsCounted-sys_lseek}
use ferros.Files.Counts.Writes.{IsCounted-sys_write}
use ferros.Files.Open.{sys_chdir, sys_getcwd, sys_mkdir, sys_unlink, sys_rmdir}
use ferros.Files.Stat.{sys_stat, sys_fstat}
use ferros.Files.Vector.{sys_writev, sys_readv, resume_readv}
use ferros.Files.Counts.Vectors.{IsCounted-sys_readv, IsCounted-resume_readv}
use ferros.Files.Getdents.{sys_getdents64}
use ferros.Files.Counts.Others.{
  state_of, IsCounted-sys_chdir, IsCounted-sys_getcwd, IsCounted-sys_mkdir, IsCounted-sys_unlink,
  IsCounted-sys_rmdir, IsCounted-sys_stat, IsCounted-sys_fstat, IsCounted-sys_getdents64,
  IsCounted-sys_writev,
}
use ferros.Files.Counts.Opened.{IsCounted-sys_open}
use ferros.Paging.{Mapper, Mmu}
use ferros.Files.Kernel.{current_proc, set_proc}
use ferros.Files.Sockets.{NetStack, sys_connect, sys_bind, sys_sendto, sys_recvfrom}
use ferros.Files.Heap.{sys_brk}
use ferros.Files.Counts.Wires.{
  Keeps-sys_connect, Keeps-sys_bind, Keeps-sys_sendto, Keeps-sys_recvfrom, IsCounted-sys_brk,
}

module _ (d : BlockDevice) (utf8 : Bytes → Bool) where
  -- A call of the current process, or one that the scheduler makes for a process; between them
  -- another process may come to run, and the threads, the keyboard and memory may change. The stack
  -- that a call on a socket meets, and the pages that `brk` meets, are any.
  pub data Step (k : Kernel d.Dev) : Kernel d.Dev → Type 1 where
    open_path : (path_ptr flags : ℕ) → Step k (sys_open d utf8 path_ptr flags k).1
    close : (fd : ℕ) → Step k (sys_close d fd k).1
    read_fd : (fd buf count : ℕ) → Step k (sys_read fd buf count k).1
    write_fd : (fd buf count user_rsp : ℕ) → Step k (sys_write fd buf count user_rsp k).1
    lseek : (fd : ℕ) (offset : ℤ) (whence : ℕ) → Step k (sys_lseek fd offset whence k).1
    chdir : (path_ptr : ℕ) → Step k (sys_chdir d utf8 path_ptr k).1
    getcwd : (buf size : ℕ) → Step k (sys_getcwd d utf8 buf size k).1
    make_dir : (path_ptr : ℕ) → Step k (sys_mkdir d utf8 path_ptr k).1
    remove_file : (path_ptr : ℕ) → Step k (sys_unlink d utf8 path_ptr k).1
    remove_dir : (path_ptr : ℕ) → Step k (sys_rmdir d utf8 path_ptr k).1
    stat_path : (path_ptr statbuf : ℕ) → Step k (sys_stat d utf8 path_ptr statbuf k).1
    fstat : (fd statbuf : ℕ) → Step k (sys_fstat fd statbuf k).1
    writev : (fd iov iovcnt user_rsp : ℕ) → Step k (sys_writev fd iov iovcnt user_rsp k).1
    readv : (fd iov iovcnt : ℕ) → Step k (sys_readv fd iov iovcnt k).1
    readv_again :
        (left i total base len fd iov : ℕ) → Step k (resume_readv left i total base len fd iov k).1
    getdents64 : (fd buf count : ℕ) → Step k (state_of (sys_getdents64 fd buf count k) (touch k))
    dup2 : (oldfd newfd : ℕ) → Step k (sys_dup2 oldfd newfd k).1
    fcntl : (fd cmd arg : ℕ) → Step k (sys_fcntl fd cmd arg k).1
    new_socket :
        (udp_socket tcp_socket : Result ℕ ℕ) (domain sock_type : ℕ)
        → Step k (sys_socket udp_socket tcp_socket domain sock_type k).1
    connect :
        (n : NetStack) (net : n.Net) (fd addr_ptr addrlen : ℕ)
        → Step k
            (sys_connect d.Dev n fd addr_ptr addrlen (record { kernel = k; net = net })).1.kernel
    bind :
        (n : NetStack) (net : n.Net) (fd addr_ptr addrlen : ℕ)
        → Step k (sys_bind d.Dev n fd addr_ptr addrlen (record { kernel = k; net = net })).1.kernel
    sendto :
        (n : NetStack) (net : n.Net) (fd buf len dest_addr addrlen : ℕ)
        → Step k
            (sys_sendto d.Dev n fd buf len dest_addr addrlen
              (record { kernel = k; net = net })).1.kernel
    recvfrom :
        (n : NetStack) (net : n.Net) (fd buf len src_addr addrlen_ptr : ℕ)
        → Step k
            (sys_recvfrom d.Dev n fd buf len src_addr addrlen_ptr
              (record { kernel = k; net = net })).1.kernel
    brk :
        (m : Mapper) (addr : ℕ) (mmu : Mmu m)
        → Step k (set_proc (sys_brk m addr (current_proc k) mmu).1 k)
    make_pipe : (fds_ptr : ℕ) → Step k (sys_pipe fds_ptr k).1
    fork : (parent_cr3 child_cr3 : ℕ) → Step k (fork_fds parent_cr3 child_cr3 k)
    exec : (old_cr3 new_cr3 : ℕ) → Step k (rekey_process old_cr3 new_cr3 k)
    exit : Step k (release_current_process_fds d k)
    forget : (cr3 : ℕ) → Step k (forget_process cr3 k)
    run :
        (key : ℕ) (sched : Scheduler) (keyboard : Console) (space : Space)
        → Step k (record k { key = key; sched = sched; keyboard = keyboard; space = space })

  pub data Reach (start : Kernel d.Dev) : Kernel d.Dev → Type 1 where
    here : Reach start start
    after : {k k' : Kernel d.Dev} → Reach start k → Step k k' → Reach start k'

  IsCounted-run :
      (k : Kernel d.Dev) (key : ℕ) (sched : Scheduler) (keyboard : Console) (space : Space)
      → IsCounted k
      → IsCounted (record k { key = key; sched = sched; keyboard = keyboard; space = space })
  IsCounted-run k key sched keyboard space bal (reader p) = bal (reader p)
  IsCounted-run k key sched keyboard space bal (writer p) = bal (writer p)
  IsCounted-run k key sched keyboard space bal (arc a) = bal (arc a)

  IsCounted-Step : (k k' : Kernel d.Dev) → Step k k' → IsCounted k → IsCounted k'
  IsCounted-Step k _ (open_path path_ptr flags) = IsCounted-sys_open d utf8 path_ptr flags k
  IsCounted-Step k _ (close fd) = IsCounted-sys_close d fd k
  IsCounted-Step k _ (read_fd fd buf count) = IsCounted-sys_read fd buf count k
  IsCounted-Step k _ (write_fd fd buf count user_rsp) = IsCounted-sys_write fd buf count user_rsp k
  IsCounted-Step k _ (lseek fd offset whence) = IsCounted-sys_lseek fd offset whence k
  IsCounted-Step k _ (chdir path_ptr) = IsCounted-sys_chdir d utf8 path_ptr k
  IsCounted-Step k _ (getcwd buf size) = IsCounted-sys_getcwd d utf8 buf size k
  IsCounted-Step k _ (make_dir path_ptr) = IsCounted-sys_mkdir d utf8 path_ptr k
  IsCounted-Step k _ (remove_file path_ptr) = IsCounted-sys_unlink d utf8 path_ptr k
  IsCounted-Step k _ (remove_dir path_ptr) = IsCounted-sys_rmdir d utf8 path_ptr k
  IsCounted-Step k _ (stat_path path_ptr statbuf) = IsCounted-sys_stat d utf8 path_ptr statbuf k
  IsCounted-Step k _ (fstat fd statbuf) = IsCounted-sys_fstat d utf8 fd statbuf k
  IsCounted-Step k _ (writev fd iov iovcnt user_rsp) = IsCounted-sys_writev fd iov iovcnt user_rsp k
  IsCounted-Step k _ (readv fd iov iovcnt) = IsCounted-sys_readv fd iov iovcnt k
  IsCounted-Step k _ (readv_again left i total base len fd iov) =
      IsCounted-resume_readv left i total base len fd iov k
  IsCounted-Step k _ (getdents64 fd buf count) = IsCounted-sys_getdents64 fd buf count k
  IsCounted-Step k _ (dup2 oldfd newfd) = IsCounted-sys_dup2 oldfd newfd k
  IsCounted-Step k _ (fcntl fd cmd arg) = IsCounted-sys_fcntl fd cmd arg k
  IsCounted-Step k _ (new_socket udp_socket tcp_socket domain sock_type) =
      IsCounted-sys_socket udp_socket tcp_socket domain sock_type k
  IsCounted-Step k _ (connect n net fd addr_ptr addrlen) =
      Keeps-sys_connect n fd addr_ptr addrlen (record { kernel = k; net = net })
  IsCounted-Step k _ (bind n net fd addr_ptr addrlen) =
      Keeps-sys_bind n fd addr_ptr addrlen (record { kernel = k; net = net })
  IsCounted-Step k _ (sendto n net fd buf len dest_addr addrlen) =
      Keeps-sys_sendto n fd buf len dest_addr addrlen (record { kernel = k; net = net })
  IsCounted-Step k _ (recvfrom n net fd buf len src_addr addrlen_ptr) =
      Keeps-sys_recvfrom n fd buf len src_addr addrlen_ptr (record { kernel = k; net = net })
  IsCounted-Step k _ (brk m addr mmu) = IsCounted-sys_brk m addr mmu k
  IsCounted-Step k _ (make_pipe fds_ptr) = IsCounted-sys_pipe fds_ptr k
  IsCounted-Step k _ (fork parent_cr3 child_cr3) = IsCounted-fork_fds parent_cr3 child_cr3 k
  IsCounted-Step k _ (exec old_cr3 new_cr3) = IsCounted-rekey_process old_cr3 new_cr3 k
  IsCounted-Step k _ exit = IsCounted-release_current_process_fds d k
  IsCounted-Step k _ (forget cr3) = IsCounted-forget_process cr3 k
  IsCounted-Step k _ (run key sched keyboard space) = IsCounted-run k key sched keyboard space

  -- From a start at which no process has a table, and no count is above 0, each state that the calls
  -- of Step lead to, in any order and from any process, has this: the readers and the writers of each
  -- pipe, and the owners of each socket, are as many as the descriptors for them in all tables
  -- together, and a pipe or a socket that is not made yet has none.
  pub Reach-IsCounted :
      {start k : Kernel d.Dev}
      → start.procs ≡ []
      → ((r : Shared) → counter r start ≡ 0)
      → Reach start k
      → IsCounted k
  Reach-IsCounted empty zeros here =
      λ r. (ground (arith, ap (uses_all r) empty, zeros r), ground (arith, zeros r))
  Reach-IsCounted empty zeros (after {k} {k'} steps step) =
      IsCounted-Step k k' step (Reach-IsCounted empty zeros steps)

  -- In a state that the calls of Step lead to, from a start at which no process has a table and no
  -- count is above 0: a round of a read of an empty pipe, of at least one byte, answers 0 exactly
  -- if no process has a write end of the pipe, and otherwise waits.
  pub Reach-read_pipe :
      {start k : Kernel d.Dev} (p buf count : ℕ)
      → start.procs ≡ []
      → ((r : Shared) → counter r start ≡ 0)
      → Reach start k
      → (count == 0) ≡ false
      → (k.pipes p).queue ≡ []
      → (read_pipe p buf count k).0
        ≡ (if uses_all (writer p) k.procs == 0 then returns (ok 0) else waits)
  unfolding read_pipe
  Reach-read_pipe {start} {k} p buf count empty zeros steps some_bytes no_data =
      let ends : uses_all (writer p) k.procs ≡ (k.pipes p).writers =
        omega (arith, (Reach-IsCounted empty zeros steps (writer p)).0) in
      elim (Bool-cases ((k.pipes p).writers == 0)) [
        | inl f ↦ rw (ends, some_bytes, no_data, f, read_pipe) refl
        | inr f ↦ rw (ends, some_bytes, no_data, f, read_pipe) refl
      ]

  -- In a state that the calls of Step lead to, from a start at which no process has a table and no
  -- count is above 0: a write of at least one byte, whose bytes can be read from the caller's
  -- memory, is refused with EPIPE exactly if no process has a read end of the pipe, and otherwise
  -- answers the number of its bytes. The pipe then has these bytes behind what was queued, or what
  -- was queued if the write is refused, and no other pipe changes; the threads that wait for a pipe
  -- are woken unless the write is refused.
  pub Reach-write_pipe :
      {start k : Kernel d.Dev} (p buf count : ℕ) (bytes : Bytes)
      → start.procs ≡ []
      → ((r : Shared) → counter r start ≡ 0)
      → Reach start k
      → (count == 0) ≡ false
      → user_bytes k.space buf count ≡ ok bytes
      → ((write_pipe p buf count k).0
          ≡ (if uses_all (reader p) k.procs == 0 then err epipe else ok (length bytes)))
        × (((write_pipe p buf count k).1.pipes p).queue
            ≡ (k.pipes p).queue ++ (if uses_all (reader p) k.procs == 0 then [] else bytes))
        × ((q : ℕ) → q ≢ p → (write_pipe p buf count k).1.pipes q ≡ k.pipes q)
        × ((write_pipe p buf count k).1.sched
            ≡ (if uses_all (reader p) k.procs == 0 then k.sched else wake_pipe_waiters k.sched))
  unfolding write_pipe
  Reach-write_pipe {start} {k} p buf count bytes empty zeros steps some_bytes e =
      let ends : uses_all (reader p) k.procs ≡ (k.pipes p).readers =
        omega (arith, (Reach-IsCounted empty zeros steps (reader p)).0) in
      let not_empty : (length bytes == 0) ≡ false =
        rw
          (ap length (user_bytes-ok k.space buf count bytes e)
            ∙ length-bytes_at k.space.mem buf count)
          some_bytes in
      elim (Bool-cases ((k.pipes p).readers == 0)) [
        | inl f ↦
            rw (ends, some_bytes, e, f, write_pipe)
              (refl, sym (append-nil (k.pipes p).queue), λ q ne. refl, refl)
        | inr f ↦
            rw (ends, some_bytes, e, f, not_empty, write_pipe)
              (refl, ground arith, λ q ne. ground arith, refl)
      ]

  -- In a state that the calls of Step lead to, from a start at which no process has a table and no
  -- count is above 0: when the running process closes a descriptor for a write end of a pipe,
  -- and no process has a write end of this pipe any more, the threads that wait for a pipe are woken.
  pub Reach-sys_close :
      {start k : Kernel d.Dev} (p fd : ℕ)
      → start.procs ≡ []
      → ((r : Shared) → counter r start ≡ 0)
      → Reach start k
      → fd_at fd k ≡ some (pipe_write p)
      → uses_all (writer p) (sys_close d fd k).1.procs ≡ 0
      → (sys_close d fd k).1.sched ≡ wake_pipe_waiters k.sched
  unfolding sys_close
  Reach-sys_close {start} {k} p fd empty zeros steps e last =
      let bal = IsCounted-sys_close d fd k (Reach-IsCounted empty zeros steps) (writer p) in
      let dropped : sys_close d fd k ≡ (ok 0, drop_fd (pipe_write p) (set_fd fd none k)) =
        rw (e, sys_close) refl in
      let none_left : (k.pipes p).writers - 1 ≡ 0 = ground (
        arith,
        bal.0,
        last,
        ap (λ x. counter (writer p) x.1) dropped,
        counter-drop_fd (writer p) (pipe_write p) (set_fd fd none k),
      ) in
      rw (e, sys_close, none_left) refl
