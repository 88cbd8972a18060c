-- ===== src/Files/Counts.antt =====
-- src/syscall/files.rs: the counts of the ends of pipes and of the owners of sockets, against the
-- descriptors that stand in the tables of all processes.
pub mod Ends
pub mod Tables
pub mod Calls
pub mod Pipes
pub mod Processes
pub mod Writes
pub mod Reads
pub mod Opened
pub mod Others
pub mod Wires
pub mod Vectors
pub mod Reachable
mod Tests
use ferros.Prelude.{
  ℕ, zero, suc, ◌+◌, ◌-◌, ◌≤◌, ◌≡◌, refl, Bool, true, false, ◌&&◌, not, Option, none, some, List,
  [], ◌∷◌, ◌++◌, arith,
}
use ferros.Prelude.{if◌then◌else◌, leb, ◌==◌, length, set, replicate, get_elem?, Option-cases}
use ferros.Files.Kernel.{
  Fd, console, vga, serial, file, pipe_read, pipe_write, socket, ProcState, fresh_proc, PipeBuf,
  Kernel, get_proc, insert_proc, remove_proc, slot, clone_fd, drop_fd, clone_entries, drop_entries,
  current_proc, set_fds,
}

-- What descriptors share: the two sides of a pipe, and the `Arc` of a socket.
pub data Shared : Type 0 where
  reader writer arc : ℕ → Shared

-- 1 if the descriptor is one of those that share it.
abbrev pub use_of : Shared → Fd → ℕ
use_of r console = 0
use_of r vga = 0
use_of r serial = 0
use_of r (file f) = 0
use_of (reader p) (pipe_read q) = if q == p then 1 else 0
use_of (writer p) (pipe_read q) = 0
use_of (arc a) (pipe_read q) = 0
use_of (reader p) (pipe_write q) = 0
use_of (writer p) (pipe_write q) = if q == p then 1 else 0
use_of (arc a) (pipe_write q) = 0
use_of (reader p) (socket b handle kind) = 0
use_of (writer p) (socket b handle kind) = 0
use_of (arc a) (socket b handle kind) = if b == a then 1 else 0

abbrev pub use_entry : Shared → Option Fd → ℕ
use_entry r none = 0
use_entry r (some fd) = use_of r fd

abbrev pub uses : Shared → List (Option Fd) → ℕ
uses r [] = 0
uses r (o ∷ os) = use_entry r o + uses r os

abbrev pub uses_proc : Shared → Option ProcState → ℕ
uses_proc r none = 0
uses_proc r (some p) = uses r p.fds

-- The descriptors of all processes that share it.
abbrev pub uses_all : Shared → List (ℕ × ProcState) → ℕ
uses_all r [] = 0
uses_all r ((key, p) ∷ procs) = uses r p.fds + uses_all r procs

module _ {Dev : Type 0} where
  -- The count that the kernel keeps.
  abbrev pub counter : Shared → Kernel Dev → ℕ
  counter (reader p) k = (k.pipes p).readers
  counter (writer p) k = (k.pipes p).writers
  counter (arc a) k = k.arcs a

  abbrev pub is_new : Shared → Kernel Dev → Bool
  is_new (reader p) k = leb k.next_pipe p
  is_new (writer p) k = leb k.next_pipe p
  is_new (arc a) k = leb k.next_arc a

  -- Each count is the number of descriptors that share it, those in hand included, and numbers not
  -- yet in use count none.
  abbrev pub Balanced : (Shared → ℕ) → Kernel Dev → Type 0
  Balanced held k =
      (r : Shared)
      → (counter r k ≡ uses_all r k.procs + held r)
        × ((is_new r k && not (counter r k == 0)) ≡ false)

  abbrev pub IsCounted : Kernel Dev → Type 0
  IsCounted k = Balanced (λ r. 0) k

  pub counter-clone_fd :
      (r : Shared) (fd : Fd) (k : Kernel Dev)
      → counter r (clone_fd fd k) ≡ counter r k + use_of r fd
  counter-clone_fd r console k = omega arith
  counter-clone_fd r vga k = omega arith
  counter-clone_fd r serial k = omega arith
  counter-clone_fd r (file f) k = omega arith
  counter-clone_fd (reader q) (pipe_read p) k = ground arith
  counter-clone_fd (reader q) (pipe_write p) k = ground arith
  counter-clone_fd (reader q) (socket p handle kind) k = ground arith
  counter-clone_fd (writer q) (pipe_read p) k = ground arith
  counter-clone_fd (writer q) (pipe_write p) k = ground arith
  counter-clone_fd (writer q) (socket p handle kind) k = ground arith
  counter-clone_fd (arc q) (pipe_read p) k = ground arith
  counter-clone_fd (arc q) (pipe_write p) k = ground arith
  counter-clone_fd (arc q) (socket p handle kind) k = ground arith

  pub counter-drop_fd :
      (r : Shared) (fd : Fd) (k : Kernel Dev) → counter r (drop_fd fd k) ≡ counter r k - use_of r fd
  counter-drop_fd r console k = omega arith
  counter-drop_fd r vga k = omega arith
  counter-drop_fd r serial k = omega arith
  counter-drop_fd r (file f) k = omega arith
  counter-drop_fd (reader q) (pipe_read p) k = ground arith
  counter-drop_fd (reader q) (pipe_write p) k = ground arith
  counter-drop_fd (reader q) (socket p handle kind) k = ground arith
  counter-drop_fd (writer q) (pipe_read p) k = ground arith
  counter-drop_fd (writer q) (pipe_write p) k = ground arith
  counter-drop_fd (writer q) (socket p handle kind) k = ground arith
  counter-drop_fd (arc q) (pipe_read p) k = ground arith
  counter-drop_fd (arc q) (pipe_write p) k = ground arith
  counter-drop_fd (arc q) (socket p handle kind) k = ground arith

pub uses_all-insert_proc :
    (r : Shared) (key : ℕ) (p : ProcState) (procs : List (ℕ × ProcState))
    → uses_all r (insert_proc key p procs) + uses_proc r (get_proc key procs)
      ≡ uses_all r procs + uses r p.fds
uses_all-insert_proc r key p [] = ground arith
uses_all-insert_proc r key p ((q, old) ∷ procs) = ground (arith, uses_all-insert_proc r key p procs)

pub uses_all-remove_proc :
    (r : Shared) (key : ℕ) (procs : List (ℕ × ProcState))
    → uses_all r (remove_proc key procs) + uses_proc r (get_proc key procs) ≡ uses_all r procs
uses_all-remove_proc r key [] = ground arith
uses_all-remove_proc r key ((q, old) ∷ procs) = ground (arith, uses_all-remove_proc r key procs)

pub uses_proc-le :
    (r : Shared) (key : ℕ) (procs : List (ℕ × ProcState))
    → uses_proc r (get_proc key procs) ≤ uses_all r procs
uses_proc-le r key procs = omega (arith, uses_all-remove_proc r key procs)

pub get_proc-insert_proc :
    (key : ℕ) (p : ProcState) (procs : List (ℕ × ProcState))
    → get_proc key (insert_proc key p procs) ≡ some p
get_proc-insert_proc key p [] = ground arith
get_proc-insert_proc key p ((q, old) ∷ procs) = ground (arith, get_proc-insert_proc key p procs)
