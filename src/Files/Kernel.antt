-- ===== src/Files/Kernel.antt =====
-- src/syscall/files.rs: the tables of the processes, and what `Clone` and `Drop` of a descriptor do
-- to the pipes and sockets that descriptors share.
mod State
pub use State.*
use ferros.Prelude.{
  ℕ, zero, suc, ◌+◌, ◌-◌, Bool, true, false, ◌&&◌, not, Option, none, some, List, [], ◌∷◌, ◌++◌,
  Result, ok, err, M,
}
use ferros.Prelude.{if◌then◌else◌, ltb, leb, ◌==◌, length, get_elem?, set, replicate, Bytes}
use ferros.Sched.Table.{Scheduler}
use ferros.Sched.Calls.{wake_pipe_waiters}
use ferros.Block.{BlockDevice}
use ferros.Fat.Volume.{
  FatError, block, unsupported_sector_size, not_fat32, not_found, no_space, dir_full,
  not_a_directory, is_a_directory, already_exists, not_empty,
}
use ferros.User.{Space, copy_to_user}
use ferros.Console.{Console}
use ferros.Files.{slash, alloc_fd}
use ferros.Vfs

-- The map PROCESSES: the first entry of a key counts.
abbrev pub get_proc : ℕ → List (ℕ × ProcState) → Option ProcState
get_proc key [] = none
get_proc key ((k, p) ∷ procs) = if k == key then some p else get_proc key procs

abbrev pub insert_proc : ℕ → ProcState → List (ℕ × ProcState) → List (ℕ × ProcState)
insert_proc key new [] = (key, new) ∷ []
insert_proc key new ((k, p) ∷ procs) =
    let rest = (k, p) ∷ insert_proc key new procs in if k == key then (key, new) ∷ procs else rest

abbrev pub remove_proc : ℕ → List (ℕ × ProcState) → List (ℕ × ProcState)
remove_proc key [] = []
remove_proc key ((k, p) ∷ procs) =
    let rest = (k, p) ∷ remove_proc key procs in if k == key then procs else rest

-- `fds.get(fd).and_then(|s| s.as_ref())`
abbrev pub slot : List (Option Fd) → ℕ → Option Fd
slot fds fd = elim (get_elem? fds fd) [ none ↦ none | some o ↦ o ]

abbrev pub change {ℓ} : {A : Type ℓ} → (ℕ → A) → ℕ → A → ℕ → A
change f i v j = if i == j then v else f j

module _ {Dev : Type 0} where
  -- `impl Clone` of the three kinds of ends.
  abbrev pub clone_reader : ℕ → Kernel Dev → Kernel Dev
  clone_reader p k =
      let b = k.pipes p in
      record k { pipes = change k.pipes p (record b { readers = b.readers + 1 }) }

  abbrev pub clone_writer : ℕ → Kernel Dev → Kernel Dev
  clone_writer p k =
      let b = k.pipes p in
      record k { pipes = change k.pipes p (record b { writers = b.writers + 1 }) }

  abbrev pub clone_socket : ℕ → Kernel Dev → Kernel Dev
  clone_socket a k = record k { arcs = change k.arcs a (k.arcs a + 1) }

  -- `impl Drop`: the last end of its kind wakes those who wait for a pipe, the last socket is closed.
  abbrev pub drop_reader : ℕ → Kernel Dev → Kernel Dev
  drop_reader p k =
      let b = k.pipes p in
      record k {
        pipes = change k.pipes p (record b { readers = b.readers - 1 });
        sched = if b.readers - 1 == 0 then wake_pipe_waiters k.sched else k.sched;
      }

  abbrev pub drop_writer : ℕ → Kernel Dev → Kernel Dev
  drop_writer p k =
      let b = k.pipes p in
      record k {
        pipes = change k.pipes p (record b { writers = b.writers - 1 });
        sched = if b.writers - 1 == 0 then wake_pipe_waiters k.sched else k.sched;
      }

  abbrev pub drop_socket : ℕ → ℕ → Kernel Dev → Kernel Dev
  drop_socket a handle k = record k {
    arcs = change k.arcs a (k.arcs a - 1);
    closed = if k.arcs a == 1 then handle ∷ k.closed else k.closed;
  }

  abbrev pub clone_fd : Fd → Kernel Dev → Kernel Dev
  clone_fd console k = k
  clone_fd vga k = k
  clone_fd serial k = k
  clone_fd (file f) k = k
  clone_fd (pipe_read p) k = clone_reader p k
  clone_fd (pipe_write p) k = clone_writer p k
  clone_fd (socket a handle kind) k = clone_socket a k

  abbrev pub drop_fd : Fd → Kernel Dev → Kernel Dev
  drop_fd console k = k
  drop_fd vga k = k
  drop_fd serial k = k
  drop_fd (file f) k = k
  drop_fd (pipe_read p) k = drop_reader p k
  drop_fd (pipe_write p) k = drop_writer p k
  drop_fd (socket a handle kind) k = drop_socket a handle k

  abbrev pub clone_entry : Option Fd → Kernel Dev → Kernel Dev
  clone_entry none k = k
  clone_entry (some fd) k = clone_fd fd k

  abbrev pub drop_entry : Option Fd → Kernel Dev → Kernel Dev
  drop_entry none k = k
  drop_entry (some fd) k = drop_fd fd k

  unfoldable pub clone_entries : List (Option Fd) → Kernel Dev → Kernel Dev
  clone_entries [] k = k
  clone_entries (o ∷ os) k = clone_entries os (clone_entry o k)

  unfoldable pub drop_entries : List (Option Fd) → Kernel Dev → Kernel Dev
  drop_entries [] k = k
  drop_entries (o ∷ os) k = drop_entries os (drop_entry o k)

  -- A state that `insert` returns is dropped.
  abbrev pub drop_proc : Option ProcState → Kernel Dev → Kernel Dev
  drop_proc none k = k
  drop_proc (some p) k = drop_entries p.fds k

  -- `entry(key).or_default()`
  abbrev pub current_proc : Kernel Dev → ProcState
  current_proc k = or_default (get_proc k.key k.procs)

  abbrev pub set_proc : ProcState → Kernel Dev → Kernel Dev
  set_proc p k = record k { procs = insert_proc k.key p k.procs }

  abbrev pub set_fds : List (Option Fd) → Kernel Dev → Kernel Dev
  set_fds fds k = set_proc (record (current_proc k) { fds = fds }) k

abbrev pub fat_errno : FatError → ℕ
fat_errno not_found = 2
fat_errno is_a_directory = 21
fat_errno not_a_directory = 20
fat_errno already_exists = 17
fat_errno not_empty = 39
fat_errno no_space = 28
fat_errno dir_full = 28
fat_errno (block e) = 5
fat_errno unsupported_sector_size = 5
fat_errno not_fat32 = 5

-- A call on the file system, from the kernel's state. An errno is the number that the system call
-- returns negated.
abbrev pub lift_result :
    {A Dev : Type 0} → Result FatError A × Dev → Kernel Dev → Result ℕ A × Kernel Dev
lift_result (ok a, s) k = (ok a, record k { dev = s })
lift_result (err e, s) k = (err (fat_errno e), record k { dev = s })

abbrev pub on_volume : {A Dev : Type 0} → M Dev FatError A → M (Kernel Dev) ℕ A
on_volume m k = lift_result (m k.dev) k

module _ {Dev : Type 0} where
  -- `with_current_proc` puts the default state in place if there is none.
  abbrev pub touch : Kernel Dev → Kernel Dev
  touch k = set_proc (current_proc k) k

  abbrev pub fd_at : ℕ → Kernel Dev → Option Fd
  fd_at fd k = slot (current_proc k).fds fd

  abbrev pub set_fd : ℕ → Option Fd → Kernel Dev → Kernel Dev
  set_fd fd o k = set_fds (set (current_proc k).fds fd o) k

  abbrev pub placed : Fd → Result ℕ ℕ × List (Option Fd) → Kernel Dev → Result ℕ ℕ × Kernel Dev
  placed entry (ok i, fds) k = (ok i, set_fds fds k)
  placed entry (err e, fds) k = (err e, drop_fd entry (set_fds fds k))

  -- `alloc_fd` on the table of the current process; an entry without a place is dropped.
  unfoldable pub place : Fd → M (Kernel Dev) ℕ ℕ
  unfolding alloc_fd
  place entry k = placed entry (alloc_fd (current_proc k).fds entry) k

  abbrev pub copy_out : ℕ → Bytes → M (Kernel Dev) ℕ (Unit {0})
  copy_out dst src k = let (r, s) = copy_to_user dst src k.space in (r, record k { space = s })

module _ (d : BlockDevice) where
  -- What `close` and `exit` do for a file: the content is written back if it was changed.
  abbrev pub flush : Fd → M (Kernel d.Dev) ℕ (Unit {0})
  flush (file f) k =
      if f.writable && f.dirty then on_volume (Vfs.write_file d f.name f.content) k else (ok tt, k)
  flush console k = (ok tt, k)
  flush vga k = (ok tt, k)
  flush serial k = (ok tt, k)
  flush (pipe_read p) k = (ok tt, k)
  flush (pipe_write p) k = (ok tt, k)
  flush (socket a handle kind) k = (ok tt, k)
