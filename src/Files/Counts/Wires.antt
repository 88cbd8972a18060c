-- ===== src/Files/Counts/Wires.antt =====
-- src/syscall/files.rs: the calls on sockets and `brk`, against the counts.
use ferros.Prelude.{
  ℕ, ◌≡◌, refl, ap, inl, inr, Bool, true, false, Result, ok, err, M, pure, throw, after, ◌>>=◌,
  arith, min,
}
use ferros.Prelude.{if◌then◌else◌, ltb, length, take, from_le, to_le, Bytes, Bool-cases}
use ferros.Abi.{emsgsize, sockaddr_in_len}
use ferros.Paging.{Mapper, Mmu}
use ferros.User.{user_bytes}
use ferros.Files.Kernel.{ProcState, Kernel, SockKind, udp, tcp, current_proc, set_proc, copy_out}
use ferros.Files.Stat.{socket_handle, parse_sockaddr_in, encode_sockaddr_in}
use ferros.Files.Sockets.{
  NetStack, Wired, wants_sender, max_dgram, sock_io_max, on_kernel, on_net, from_user, connect_to,
  sys_connect, bind_to, sys_bind, send_datagram, send_on, sys_sendto, write_address, write_sender,
  receive_on, sys_recvfrom,
}
use ferros.Files.Heap.{out_of_heap, page_up, pages_between, grown, map_pages, sys_brk}
use ferros.Files.Counts.{uses, uses_all-insert_proc, IsCounted}
use ferros.Files.Counts.Ends.{Balanced-procs, uses-current_proc}
use ferros.Files.Counts.Calls.{Balanced-touch}
use ferros.Files.Counts.Others.{IsCounted-copy_out}

module _ {Dev : Type 0} (n : NetStack) where
  -- The call keeps the counts, whatever the stack does.
  abbrev Keeps : {A : Type 0} → M (Wired Dev n) ℕ A → Type 0
  Keeps m = (w : Wired Dev n) → IsCounted w.kernel → IsCounted (m w).1.kernel

  >>=-Keeps :
      {A B : Type 0} (m : M (Wired Dev n) ℕ A) (f : A → M (Wired Dev n) ℕ B)
      → Keeps m
      → ((a : A) → Keeps (f a))
      → Keeps (m >>= f)
  >>=-Keeps {A} m f km kf w bal = on_result (m w).0 (m w).1 (km w bal)
    where
      on_result :
          (r : Result ℕ A) (t : Wired Dev n) → IsCounted t.kernel → IsCounted (after r t f).1.kernel
      on_result (ok a) t h = kf a t h
      on_result (err e) t h = h

  if-Keeps :
      {A : Type 0} (b : Bool) (m m' : M (Wired Dev n) ℕ A)
      → Keeps m
      → Keeps m'
      → Keeps (if b then m else m')
  if-Keeps true m m' h h' = h
  if-Keeps false m m' h h' = h'

  Keeps-copy_out : (dst : ℕ) (src : Bytes) → Keeps (on_kernel Dev n (copy_out dst src))
  Keeps-copy_out dst src w bal = IsCounted-copy_out dst src w.kernel bal

  Keeps-handle : (fd : ℕ) → Keeps (on_kernel Dev n (socket_handle fd))
  unfolding socket_handle
  Keeps-handle fd w bal = Balanced-touch (λ r. 0) w.kernel bal

  Keeps-connect_to :
      (handle : ℕ) (kind : SockKind) (addr_ptr addrlen : ℕ)
      → Keeps (connect_to Dev n handle kind addr_ptr addrlen)
  Keeps-connect_to handle udp addr_ptr addrlen = λ w bal. bal
  Keeps-connect_to handle tcp addr_ptr addrlen =
      >>=-Keeps (from_user Dev n (λ k. parse_sockaddr_in k.space addr_ptr addrlen)) _ (λ w bal. bal)
        (λ (p : Bytes × ℕ).
          >>=-Keeps (on_net Dev n (n.tcp_connect handle p.0 p.1)) (λ _. pure 0) (λ w bal. bal)
            (λ _ w bal. bal))

  pub Keeps-sys_connect : (fd addr_ptr addrlen : ℕ) → Keeps (sys_connect Dev n fd addr_ptr addrlen)
  unfolding sys_connect
  Keeps-sys_connect fd addr_ptr addrlen =
      >>=-Keeps (on_kernel Dev n (socket_handle fd)) _ (Keeps-handle fd)
        (λ (p : ℕ × SockKind). Keeps-connect_to p.0 p.1 addr_ptr addrlen)

  Keeps-bind_to :
      (handle : ℕ) (kind : SockKind) (addr_ptr addrlen : ℕ)
      → Keeps (bind_to Dev n handle kind addr_ptr addrlen)
  Keeps-bind_to handle tcp addr_ptr addrlen = λ w bal. bal
  Keeps-bind_to handle udp addr_ptr addrlen =
      >>=-Keeps (from_user Dev n (λ k. parse_sockaddr_in k.space addr_ptr addrlen)) _ (λ w bal. bal)
        (λ (p : Bytes × ℕ).
          >>=-Keeps (on_net Dev n (n.udp_bind handle p.1)) (λ _. pure 0) (λ w bal. bal)
            (λ _ w bal. bal))

  pub Keeps-sys_bind : (fd addr_ptr addrlen : ℕ) → Keeps (sys_bind Dev n fd addr_ptr addrlen)
  unfolding sys_bind
  Keeps-sys_bind fd addr_ptr addrlen =
      >>=-Keeps (on_kernel Dev n (socket_handle fd)) _ (Keeps-handle fd)
        (λ (p : ℕ × SockKind). Keeps-bind_to p.0 p.1 addr_ptr addrlen)

  Keeps-send_on :
      (handle : ℕ) (kind : SockKind) (buf len dest_addr addrlen : ℕ)
      → Keeps (send_on Dev n handle kind buf len dest_addr addrlen)
  Keeps-send_on handle udp buf len dest_addr addrlen =
      if-Keeps (ltb max_dgram len) (throw emsgsize)
        (send_datagram Dev n handle buf len dest_addr addrlen) (λ w bal. bal)
        (>>=-Keeps (from_user Dev n (λ k. parse_sockaddr_in k.space dest_addr addrlen)) _
          (λ w bal. bal)
          (λ (p : Bytes × ℕ).
            >>=-Keeps (from_user Dev n (λ k. user_bytes k.space buf len)) _ (λ w bal. bal)
              (λ content w bal. bal)))
  Keeps-send_on handle tcp buf len dest_addr addrlen =
      >>=-Keeps (from_user Dev n (λ k. user_bytes k.space buf (min len sock_io_max))) _
        (λ w bal. bal) (λ content w bal. bal)

  pub Keeps-sys_sendto :
      (fd buf len dest_addr addrlen : ℕ) → Keeps (sys_sendto Dev n fd buf len dest_addr addrlen)
  unfolding sys_sendto
  Keeps-sys_sendto fd buf len dest_addr addrlen =
      >>=-Keeps (on_kernel Dev n (socket_handle fd)) _ (Keeps-handle fd)
        (λ (p : ℕ × SockKind). Keeps-send_on p.0 p.1 buf len dest_addr addrlen)

  Keeps-write_sender :
      (ip : Bytes) (port src_addr addrlen_ptr : ℕ)
      → Keeps (write_sender Dev n ip port src_addr addrlen_ptr)
  Keeps-write_sender ip port src_addr addrlen_ptr =
      >>=-Keeps (from_user Dev n (λ k. user_bytes k.space addrlen_ptr 4)) _ (λ w bal. bal)
        (λ room.
          let sa = encode_sockaddr_in ip port in
          let cut = take (min (from_le room) (length sa)) sa in
          >>=-Keeps (write_address Dev n src_addr cut) _
            (if-Keeps _ (pure tt) (on_kernel Dev n (copy_out src_addr cut)) (λ w bal. bal)
              (Keeps-copy_out src_addr cut))
            (λ _. Keeps-copy_out addrlen_ptr (to_le 4 sockaddr_in_len)))

  Keeps-receive_on :
      (handle : ℕ) (kind : SockKind) (buf cap src_addr addrlen_ptr : ℕ)
      → Keeps (receive_on Dev n handle kind buf cap src_addr addrlen_ptr)
  Keeps-receive_on handle udp buf cap src_addr addrlen_ptr =
      >>=-Keeps (on_net Dev n (n.udp_recvfrom handle cap)) _ (λ w bal. bal)
        (λ (p : Bytes × Bytes × ℕ).
          >>=-Keeps (on_kernel Dev n (copy_out buf p.0)) _ (Keeps-copy_out buf p.0) (λ _.
            >>=-Keeps
              (if wants_sender src_addr addrlen_ptr
                then write_sender Dev n p.1 p.2 src_addr addrlen_ptr
                else pure tt)
              _
              (if-Keeps (wants_sender src_addr addrlen_ptr) _ (pure tt)
                (Keeps-write_sender p.1 p.2 src_addr addrlen_ptr) (λ w bal. bal))
              (λ _ w bal. bal)))
  Keeps-receive_on handle tcp buf cap src_addr addrlen_ptr =
      >>=-Keeps (on_net Dev n (n.tcp_recv handle cap)) _ (λ w bal. bal)
        (λ content.
          >>=-Keeps (on_kernel Dev n (copy_out buf content)) _ (Keeps-copy_out buf content)
            (λ _ w bal. bal))

  pub Keeps-sys_recvfrom :
      (fd buf len src_addr addrlen_ptr : ℕ)
      → Keeps (sys_recvfrom Dev n fd buf len src_addr addrlen_ptr)
  unfolding sys_recvfrom
  Keeps-sys_recvfrom fd buf len src_addr addrlen_ptr =
      >>=-Keeps (on_kernel Dev n (socket_handle fd)) _ (Keeps-handle fd) (λ (p : ℕ × SockKind).
        Keeps-receive_on p.0 p.1 buf (min len sock_io_max) src_addr addrlen_ptr)

-- `brk` changes the end of the heap, and no descriptor.
fds-sys_brk :
    (m : Mapper) (addr : ℕ) (p : ProcState) (s : Mmu m) → (sys_brk m addr p s).1.fds ≡ p.fds
unfolding sys_brk
fds-sys_brk m addr p s = elim (Bool-cases (out_of_heap addr)) [
  | inl out ↦ rw out refl
  | inr inside ↦ elim (Bool-cases (ltb p.brk addr)) [
    | inr shrinks ↦ rw (inside, shrinks) refl
    | inl grows ↦
        rw (inside, grows)
          (of_grown
            (map_pages m (pages_between (page_up p.brk) (page_up addr)) 0 (page_up p.brk) s))
  ]
]
  where
    of_grown : (r : Bool × Mmu m) → (grown m addr p r).1.fds ≡ p.fds
    of_grown (true, t) = refl
    of_grown (false, t) = refl

pub IsCounted-sys_brk :
    {Dev : Type 0} (m : Mapper) (addr : ℕ) (s : Mmu m) (k : Kernel Dev)
    → IsCounted k
    → IsCounted (set_proc (sys_brk m addr (current_proc k) s).1 k)
IsCounted-sys_brk m addr s k =
    let p = (sys_brk m addr (current_proc k) s).1 in
    Balanced-procs (λ r. 0) (λ r. 0) (set_proc p k).procs k
      (λ r. omega (
        arith,
        uses-current_proc r k,
        uses_all-insert_proc r k.key p k.procs,
        ap (uses r) (fds-sys_brk m addr (current_proc k) s),
      ))
