-- ===== src/Abi.antt =====
-- src/syscall/abi.rs: the numbers of Linux that the calls use. A call returns an errno negated.
use ferros.Prelude.{ℕ}

abbrev pub enoent : ℕ
enoent = 2

abbrev pub esrch : ℕ
esrch = 3

abbrev pub ebadf : ℕ
ebadf = 9

abbrev pub echild : ℕ
echild = 10

abbrev pub enotdir : ℕ
enotdir = 20

abbrev pub eisdir : ℕ
eisdir = 21

abbrev pub espipe : ℕ
espipe = 29

abbrev pub epipe : ℕ
epipe = 32

abbrev pub erange : ℕ
erange = 34

abbrev pub enotsock : ℕ
enotsock = 88

abbrev pub emsgsize : ℕ
emsgsize = 90

abbrev pub eopnotsupp : ℕ
eopnotsupp = 95

abbrev pub eprotonosupport : ℕ
eprotonosupport = 93

abbrev pub eafnosupport : ℕ
eafnosupport = 97

abbrev pub o_accmode : ℕ
o_accmode = 3

abbrev pub o_rdonly : ℕ
o_rdonly = 0

abbrev pub o_wronly : ℕ
o_wronly = 1

abbrev pub o_rdwr : ℕ
o_rdwr = 2

abbrev pub o_creat : ℕ
o_creat = 0o100

abbrev pub o_trunc : ℕ
o_trunc = 0o1000

abbrev pub o_append : ℕ
o_append = 0o2000

abbrev pub f_dupfd : ℕ
f_dupfd = 0

abbrev pub f_getfd : ℕ
f_getfd = 1

abbrev pub f_setfd : ℕ
f_setfd = 2

abbrev pub f_getfl : ℕ
f_getfl = 3

abbrev pub f_setfl : ℕ
f_setfl = 4

abbrev pub af_inet : ℕ
af_inet = 2

abbrev pub sock_dgram : ℕ
sock_dgram = 2

abbrev pub sock_stream : ℕ
sock_stream = 1

abbrev pub sockaddr_in_len : ℕ
sockaddr_in_len = 16

abbrev pub sig_max : ℕ
sig_max = 64

abbrev pub clock_realtime : ℕ
clock_realtime = 0

abbrev pub clock_monotonic : ℕ
clock_monotonic = 1
