-- ===== src/Files/Process.antt =====
-- src/syscall/files.rs: the state of a process under `fork`, `execve`, `exit` and reaping.
use ferros.Prelude.{ℕ, Option, none, some, List, [], ◌∷◌}
use ferros.Block.{BlockDevice}
use ferros.Files.Kernel.{
  Fd, user_heap_base, Kernel, get_proc, insert_proc, remove_proc, clone_entries, drop_entry,
  drop_entries, drop_proc, flush,
}

module _ {Dev : Type 0} where
  unfoldable pub forget_process : ℕ → Kernel Dev → Kernel Dev
  forget_process cr3 k = elim (get_proc cr3 k.procs) [
    | none ↦ k
    | some p ↦ drop_entries p.fds (record k { procs = remove_proc cr3 k.procs })
  ]

  unfoldable pub rekey_process : ℕ → ℕ → Kernel Dev → Kernel Dev
  rekey_process old_cr3 new_cr3 k = elim (get_proc old_cr3 k.procs) [
    | none ↦ k
    | some p ↦
        let procs = remove_proc old_cr3 k.procs in
        let moved = record p { brk = user_heap_base } in
        drop_proc (get_proc new_cr3 procs) (record k { procs = insert_proc new_cr3 moved procs })
  ]

  unfoldable pub fork_fds : ℕ → ℕ → Kernel Dev → Kernel Dev
  fork_fds parent_cr3 child_cr3 k = elim (get_proc parent_cr3 k.procs) [
    | none ↦ k
    | some p ↦
        let k' = clone_entries p.fds k in
        drop_proc (get_proc child_cr3 k.procs)
          (record k' { procs = insert_proc child_cr3 p k'.procs })
  ]

module _ (d : BlockDevice) where
  -- The loop of `release_current_process_fds`; a failed write is passed over.
  abbrev pub flush_entry : Option Fd → Kernel d.Dev → Kernel d.Dev
  flush_entry none k = k
  flush_entry (some fd) k = (flush d fd k).1

  unfoldable pub release_entries : List (Option Fd) → Kernel d.Dev → Kernel d.Dev
  release_entries [] k = k
  release_entries (o ∷ os) k = release_entries os (drop_entry o (flush_entry o k))

  unfoldable pub release_current_process_fds : Kernel d.Dev → Kernel d.Dev
  release_current_process_fds k = elim (get_proc k.key k.procs) [
    | none ↦ k
    | some p ↦
        release_entries p.fds
          (record k { procs = insert_proc k.key (record p { fds = [] }) k.procs })
  ]
