-- ===== src/Files/Sockets.antt =====
-- src/syscall/files.rs: the calls on sockets. The operations of src/net/socket.rs on the stack are an
-- interface: each takes the handle, may change the stack, and returns a result or an errno.
use ferros.Prelude.{ℕ, Bool, ◌&&◌, not, Result, M, pure, throw, ◌>>=◌, ◌>>◌, min}
use ferros.Prelude.{if◌then◌else◌, ltb, ◌==◌, length, take, from_le, to_le, Bytes}
use ferros.Abi.{eopnotsupp, emsgsize, sockaddr_in_len}
use ferros.User.{user_bytes}
use ferros.Files.Kernel.{SockKind, udp, tcp, Kernel, copy_out}
use ferros.Files.Stat.{socket_handle, parse_sockaddr_in, encode_sockaddr_in}

abbrev pub max_dgram : ℕ
max_dgram = 1472

abbrev pub sock_io_max : ℕ
sock_io_max = 4096

-- A receipt gives the bytes that came, as many as asked for at most, and the sender.
pub record NetStack : Type 1 where
  pub Net : Type 0
  pub udp_bind : ℕ → ℕ → M Net ℕ (Unit {0})
  pub tcp_connect : ℕ → Bytes → ℕ → M Net ℕ (Unit {0})
  pub udp_sendto : ℕ → Bytes → Bytes → ℕ → M Net ℕ ℕ
  pub tcp_send : ℕ → Bytes → M Net ℕ ℕ
  pub udp_recvfrom : ℕ → ℕ → M Net ℕ (Bytes × Bytes × ℕ)
  pub tcp_recv : ℕ → ℕ → M Net ℕ Bytes

-- What the calls on sockets change.
pub record Wired (Dev : Type 0) (n : NetStack) : Type 0 where
  pub kernel : Kernel Dev
  pub net : n.Net

-- Whether the caller asks for the address of the sender.
abbrev pub wants_sender : ℕ → ℕ → Bool
wants_sender src_addr addrlen_ptr = not (src_addr == 0) && not (addrlen_ptr == 0)

module _ (Dev : Type 0) (n : NetStack) where
  abbrev pub on_kernel : {A : Type 0} → M (Kernel Dev) ℕ A → M (Wired Dev n) ℕ A
  on_kernel m s = let (r, k) = m s.kernel in (r, record s { kernel = k })

  abbrev pub on_net : {A : Type 0} → M n.Net ℕ A → M (Wired Dev n) ℕ A
  on_net m s = let (r, net) = m s.net in (r, record s { net = net })

  -- What is only read from the caller's memory.
  abbrev pub from_user : {A : Type 0} → (Kernel Dev → Result ℕ A) → M (Wired Dev n) ℕ A
  from_user f s = (f s.kernel, s)

  abbrev pub connect_to : ℕ → SockKind → ℕ → ℕ → M (Wired Dev n) ℕ ℕ
  connect_to handle udp addr_ptr addrlen = throw eopnotsupp
  connect_to handle tcp addr_ptr addrlen = do
    (ip, port) ← from_user (λ k. parse_sockaddr_in k.space addr_ptr addrlen)
    on_net (n.tcp_connect handle ip port) >> pure 0

  unfoldable pub sys_connect : ℕ → ℕ → ℕ → M (Wired Dev n) ℕ ℕ
  sys_connect fd addr_ptr addrlen = do
    (handle, kind) ← on_kernel (socket_handle fd)
    connect_to handle kind addr_ptr addrlen

  abbrev pub bind_to : ℕ → SockKind → ℕ → ℕ → M (Wired Dev n) ℕ ℕ
  bind_to handle tcp addr_ptr addrlen = throw eopnotsupp
  bind_to handle udp addr_ptr addrlen = do
    (ip, port) ← from_user (λ k. parse_sockaddr_in k.space addr_ptr addrlen)
    on_net (n.udp_bind handle port) >> pure 0

  unfoldable pub sys_bind : ℕ → ℕ → ℕ → M (Wired Dev n) ℕ ℕ
  sys_bind fd addr_ptr addrlen = do
    (handle, kind) ← on_kernel (socket_handle fd)
    bind_to handle kind addr_ptr addrlen

  abbrev pub send_datagram : ℕ → ℕ → ℕ → ℕ → ℕ → M (Wired Dev n) ℕ ℕ
  send_datagram handle buf len dest_addr addrlen = do
    (ip, port) ← from_user (λ k. parse_sockaddr_in k.space dest_addr addrlen)
    content ← from_user (λ k. user_bytes k.space buf len)
    on_net (n.udp_sendto handle content ip port)

  abbrev pub send_on : ℕ → SockKind → ℕ → ℕ → ℕ → ℕ → M (Wired Dev n) ℕ ℕ
  send_on handle udp buf len dest_addr addrlen =
      if ltb max_dgram len then throw emsgsize else send_datagram handle buf len dest_addr addrlen
  send_on handle tcp buf len dest_addr addrlen = do
    content ← from_user (λ k. user_bytes k.space buf (min len sock_io_max))
    on_net (n.tcp_send handle content)

  unfoldable pub sys_sendto : ℕ → ℕ → ℕ → ℕ → ℕ → M (Wired Dev n) ℕ ℕ
  sys_sendto fd buf len dest_addr addrlen = do
    (handle, kind) ← on_kernel (socket_handle fd)
    send_on handle kind buf len dest_addr addrlen

  abbrev pub write_address : ℕ → Bytes → M (Wired Dev n) ℕ (Unit {0})
  write_address src_addr sa = if length sa == 0 then pure tt else on_kernel (copy_out src_addr sa)

  -- The address of the sender, cut to the length that the caller has room for, and its full length.
  abbrev pub write_sender : Bytes → ℕ → ℕ → ℕ → M (Wired Dev n) ℕ (Unit {0})
  write_sender ip port src_addr addrlen_ptr = do
    room ← from_user (λ k. user_bytes k.space addrlen_ptr 4)
    let sa = encode_sockaddr_in ip port
    write_address src_addr (take (min (from_le room) (length sa)) sa)
    on_kernel (copy_out addrlen_ptr (to_le 4 sockaddr_in_len))

  abbrev pub receive_on : ℕ → SockKind → ℕ → ℕ → ℕ → ℕ → M (Wired Dev n) ℕ ℕ
  receive_on handle udp buf cap src_addr addrlen_ptr = do
    (content, ip, port) ← on_net (n.udp_recvfrom handle cap)
    on_kernel (copy_out buf content)
    (if wants_sender src_addr addrlen_ptr
        then write_sender ip port src_addr addrlen_ptr
        else pure tt)
    pure (length content)
  receive_on handle tcp buf cap src_addr addrlen_ptr = do
    content ← on_net (n.tcp_recv handle cap)
    on_kernel (copy_out buf content) >> pure (length content)

  unfoldable pub sys_recvfrom : ℕ → ℕ → ℕ → ℕ → ℕ → M (Wired Dev n) ℕ ℕ
  sys_recvfrom fd buf len src_addr addrlen_ptr = do
    (handle, kind) ← on_kernel (socket_handle fd)
    receive_on handle kind buf (min len sock_io_max) src_addr addrlen_ptr
