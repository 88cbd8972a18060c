-- ===== src/Files/Kernel/State.antt =====
-- src/syscall/files.rs: open files, descriptors, the state of each process, and all that the calls
-- change. A shared pipe is named by a number, as the `Arc` names its buffer; a socket's `Arc` by
-- another, with its strong count.
use ferros.Prelude.{ℕ, Bool, Option, none, some, List, [], ◌∷◌}
use ferros.Prelude.{Bytes}
use ferros.Sched.Table.{Scheduler}
use ferros.User.{Space}
use ferros.Console.{Console}
use ferros.Files.{slash}

-- `content` is the field `data`.
pub record OpenFile : Type 0 where
  pub name : Bytes
  pub content : Bytes
  pub offset : ℕ
  pub writable : Bool
  pub dirty : Bool
  pub is_dir : Bool

pub data SockKind : Type 0 where
  udp tcp : SockKind

-- An end of a pipe has the number of the pipe; a socket the number of its `Arc`, and its handle.
pub data Fd : Type 0 where
  console vga serial : Fd
  file : OpenFile → Fd
  pipe_read : ℕ → Fd
  pipe_write : ℕ → Fd
  socket : ℕ → ℕ → SockKind → Fd

-- `queue` is the field `data`.
pub record PipeBuf : Type 0 where
  pub queue : Bytes
  pub readers : ℕ
  pub writers : ℕ

pub record ProcState : Type 0 where
  pub fds : List (Option Fd)
  pub cwd : Bytes
  pub brk : ℕ

abbrev pub user_heap_base : ℕ
user_heap_base = 0x7F80_2000_0000

-- `ProcState::default()`
abbrev pub fresh_proc : ProcState
fresh_proc = record {
  fds = some console ∷ some vga ∷ some serial ∷ [];
  cwd = slash ∷ [];
  brk = user_heap_base;
}

-- The statics LAST_WRITE_*.
pub record LastWrite : Type 0 where
  pub fd : ℕ
  pub len : ℕ
  pub sum : ℕ
  pub user_rsp : ℕ

-- What the calls read and change. `key` is `current_key()`; `closed` lists the handles that were
-- given to `close_socket`; `next_pipe` and `next_arc` are numbers not yet in use; `screen` and
-- `serial_line` are the bytes that the two devices were given.
pub record Kernel (Dev : Type 0) : Type 0 where
  pub procs : List (ℕ × ProcState)
  pub pipes : ℕ → PipeBuf
  pub next_pipe : ℕ
  pub arcs : ℕ → ℕ
  pub next_arc : ℕ
  pub closed : List ℕ
  pub sched : Scheduler
  pub keyboard : Console
  pub screen : Bytes
  pub serial_line : Bytes
  pub last_write : LastWrite
  pub space : Space
  pub dev : Dev
  pub key : ℕ

-- `or_default`
abbrev pub or_default : Option ProcState → ProcState
or_default none = fresh_proc
or_default (some p) = p
