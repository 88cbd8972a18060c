-- ===== src/Files/Stat.antt =====
-- src/syscall/files.rs: the metadata of a file, and the addresses of sockets.
use ferros.Prelude.{
  ℕ, ◌+◌, ◌/◌, Bool, not, Option, none, some, ◌++◌, Result, ok, err, M, pure, ◌>>=◌, ◌>>◌,
}
use ferros.Prelude.{
  if◌then◌else◌, ltb, ◌==◌, length, replicate, get_or, take, drop, to_le, to_be16, le16, be16,
  Bytes,
}
use ferros.Abi.{ebadf, enotsock, eafnosupport, af_inet, sockaddr_in_len}
use ferros.Block.{BlockDevice}
use ferros.Fat.Path.{Metadata}
use ferros.User.{Space, einval, user_bytes}
use ferros.Files.Kernel.{
  Fd, console, vga, serial, file, pipe_read, pipe_write, socket, SockKind, Kernel, touch, fd_at,
  on_volume, copy_out,
}
use ferros.Files.Open.{path_arg}
use ferros.Vfs

-- The fields one after another; what stands between them is zero, and `st_blksize` is 512.
unfoldable pub build_stat : ℕ → ℕ → ℕ → ℕ → Bytes
build_stat mode ino nlink size =
    replicate 8 0
    ++ (to_le 8 ino
        ++ (to_le 8 nlink
            ++ (to_le 4 mode
                ++ (replicate 20 0
                    ++ (to_le 8 size
                        ++ (to_le 8 512 ++ (to_le 8 ((size + 511) / 512) ++ replicate 72 0)))))))

abbrev pub file_mode : Bool → ℕ
file_mode is_dir = if is_dir then 0o040755 else 0o100644

abbrev pub nlink_of : Bool → ℕ
nlink_of is_dir = if is_dir then 2 else 1

abbrev pub stat_of : Metadata → Bytes
stat_of meta =
    build_stat (file_mode meta.is_dir) meta.first_cluster (nlink_of meta.is_dir) meta.size

module _ (d : BlockDevice) (utf8 : Bytes → Bool) where
  unfoldable pub sys_stat : ℕ → ℕ → M (Kernel d.Dev) ℕ ℕ
  sys_stat path_ptr statbuf = do
    path ← path_arg d utf8 path_ptr
    meta ← on_volume (Vfs.stat d path)
    copy_out statbuf (stat_of meta) >> pure 0

abbrev pub fd_stat : Fd → Bytes
fd_stat console = build_stat 0o020620 0 1 0
fd_stat vga = build_stat 0o020620 0 1 0
fd_stat serial = build_stat 0o020620 0 1 0
fd_stat (pipe_read p) = build_stat 0o010600 0 1 0
fd_stat (pipe_write p) = build_stat 0o010600 0 1 0
fd_stat (socket a handle kind) = build_stat 0o140600 0 1 0
fd_stat (file f) = build_stat (file_mode f.is_dir) 0 (nlink_of f.is_dir) (length f.content)

-- The bytes of `st_mode` and `st_size`, as a program reads them.
abbrev pub st_mode : Bytes → Bytes
st_mode st = take 4 (drop 24 st)

abbrev pub st_size : Bytes → Bytes
st_size st = take 8 (drop 48 st)

abbrev pub encode_sockaddr_in : Bytes → ℕ → Bytes
encode_sockaddr_in ip port = to_le 2 af_inet ++ (to_be16 port ++ (ip ++ replicate 8 0))

-- The closure of `parse_sockaddr_in`: the four octets and the port.
abbrev pub sockaddr_of : Bytes → Result ℕ (Bytes × ℕ)
sockaddr_of b =
    if not (le16 (get_or b 0 0) (get_or b 1 0) == af_inet)
    then err eafnosupport
    else ok (take 4 (drop 4 b), be16 (get_or b 2 0) (get_or b 3 0))

unfoldable pub parse_sockaddr_in : Space → ℕ → ℕ → Result ℕ (Bytes × ℕ)
parse_sockaddr_in s addr_ptr addrlen =
    if ltb addrlen sockaddr_in_len
    then err einval
    else elim (user_bytes s addr_ptr sockaddr_in_len) [ err e ↦ err e | ok b ↦ sockaddr_of b ]

abbrev pub socket_of : Option Fd → Result ℕ (ℕ × SockKind)
socket_of none = err ebadf
socket_of (some (socket a handle kind)) = ok (handle, kind)
socket_of (some _) = err enotsock

module _ {Dev : Type 0} where
  unfoldable pub sys_fstat : ℕ → ℕ → M (Kernel Dev) ℕ ℕ
  sys_fstat fd statbuf k = elim (fd_at fd k) [
    | none ↦ (err ebadf, touch k)
    | some o ↦ (copy_out statbuf (fd_stat o) >> pure 0) (touch k)
  ]

  unfoldable pub socket_handle : ℕ → M (Kernel Dev) ℕ (ℕ × SockKind)
  socket_handle fd k = (socket_of (fd_at fd k), touch k)
