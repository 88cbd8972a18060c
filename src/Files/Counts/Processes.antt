-- ===== src/Files/Counts/Processes.antt =====
-- src/syscall/files.rs: fork, execve, exit and reaping, against the counts.
use ferros.Prelude.{ℕ, ◌+◌, ap, Option, none, some, List, [], ◌∷◌, inl, inr, arith}
use ferros.Prelude.{Option-cases}
use ferros.Block.{BlockDevice}
use ferros.Files.Kernel.{
  Fd, user_heap_base, Kernel, get_proc, insert_proc, remove_proc, clone_entries, drop_entry,
}
use ferros.Files.Process.{
  forget_process, rekey_process, fork_fds, flush_entry, release_entries,
  release_current_process_fds,
}
use ferros.Files.Counts.{
  Shared, uses, uses_proc, Balanced, IsCounted, uses_proc-le, uses_all-insert_proc,
  uses_all-remove_proc,
}
use ferros.Files.Counts.Ends.{
  Balanced-drop_entry, Balanced-drop_entries, Balanced-drop_proc, Balanced-clone_entries,
  Balanced-procs,
}
use ferros.Files.Counts.Pipes.{Balanced-flush}

module _ {Dev : Type 0} where
  pub IsCounted-forget_process :
      (cr3 : ℕ) (k : Kernel Dev) → IsCounted k → IsCounted (forget_process cr3 k)
  unfolding forget_process
  IsCounted-forget_process cr3 k bal = elim (Option-cases (get_proc cr3 k.procs)) [
    | inl e ↦ rw (e, forget_process) bal
    | inr (p, e) ↦
        rw (e, forget_process)
          (Balanced-drop_entries (λ r. 0) p.fds (record k { procs = remove_proc cr3 k.procs })
            (Balanced-procs (λ r. 0) (λ r. uses r p.fds + 0) (remove_proc cr3 k.procs) k
              (λ r. omega (arith, uses_all-remove_proc r cr3 k.procs, ap (uses_proc r) e)) bal))
  ]

  pub IsCounted-rekey_process :
      (old_cr3 new_cr3 : ℕ) (k : Kernel Dev)
      → IsCounted k
      → IsCounted (rekey_process old_cr3 new_cr3 k)
  unfolding rekey_process
  IsCounted-rekey_process old_cr3 new_cr3 k bal = elim (Option-cases (get_proc old_cr3 k.procs)) [
    | inl e ↦ rw (e, rekey_process) bal
    | inr (p, e) ↦
        let procs = remove_proc old_cr3 k.procs in
        let moved = record p { brk = user_heap_base } in
        let procs' = insert_proc new_cr3 moved procs in
        rw (e, rekey_process)
          (Balanced-drop_proc (get_proc new_cr3 procs) (record k { procs = procs' })
            (Balanced-procs (λ r. 0) (λ r. uses_proc r (get_proc new_cr3 procs)) procs' k
              (λ r. omega (
                arith,
                uses_all-remove_proc r old_cr3 k.procs,
                ap (uses_proc r) e,
                uses_all-insert_proc r new_cr3 moved procs,
              ))
              bal))
  ]

  pub IsCounted-fork_fds :
      (parent_cr3 child_cr3 : ℕ) (k : Kernel Dev)
      → IsCounted k
      → IsCounted (fork_fds parent_cr3 child_cr3 k)
  unfolding fork_fds
  IsCounted-fork_fds parent_cr3 child_cr3 k bal =
      elim (Option-cases (get_proc parent_cr3 k.procs)) [
        | inl e ↦ rw (e, fork_fds) bal
        | inr (p, e) ↦
            let k' = clone_entries p.fds k in
            let (copied, (_, same_procs, _, _)) =
              Balanced-clone_entries (λ r. 0) p.fds k bal
                (λ r. omega (arith, ap (uses_proc r) e, uses_proc-le r parent_cr3 k.procs)) in
            let procs' = insert_proc child_cr3 p k'.procs in
            rw (e, fork_fds)
              (Balanced-drop_proc (get_proc child_cr3 k.procs) (record k' { procs = procs' })
                (Balanced-procs (λ r. uses r p.fds + 0)
                  (λ r. uses_proc r (get_proc child_cr3 k.procs)) procs' k'
                  (λ r. omega (
                    arith,
                    uses_all-insert_proc r child_cr3 p k'.procs,
                    ap (λ procs. uses_proc r (get_proc child_cr3 procs)) same_procs,
                  ))
                  copied))
      ]

module _ (d : BlockDevice) where
  Balanced-flush_entry :
      (held : Shared → ℕ) (o : Option Fd) (k : Kernel d.Dev)
      → Balanced held k
      → Balanced held (flush_entry d o k)
  Balanced-flush_entry held none k bal = bal
  Balanced-flush_entry held (some fd) k bal = Balanced-flush d held fd k bal

  Balanced-release_entries :
      (os : List (Option Fd)) (k : Kernel d.Dev)
      → Balanced (λ r. uses r os) k
      → IsCounted (release_entries d os k)
  unfolding release_entries
  Balanced-release_entries [] k bal = bal
  Balanced-release_entries (o ∷ os) k bal =
      Balanced-release_entries os (drop_entry o (flush_entry d o k)) (
        Balanced-drop_entry (λ r. uses r os) o (flush_entry d o k)
          (Balanced-flush_entry (λ r. uses r (o ∷ os)) o k bal))

  pub IsCounted-release_current_process_fds :
      (k : Kernel d.Dev) → IsCounted k → IsCounted (release_current_process_fds d k)
  unfolding release_current_process_fds
  IsCounted-release_current_process_fds k bal = elim (Option-cases (get_proc k.key k.procs)) [
    | inl e ↦ rw (e, release_current_process_fds) bal
    | inr (p, e) ↦
        let emptied = record p { fds = [] } in
        let procs' = insert_proc k.key emptied k.procs in
        rw (e, release_current_process_fds)
          (Balanced-release_entries p.fds (record k { procs = procs' })
            (Balanced-procs (λ r. 0) (λ r. uses r p.fds) procs' k
              (λ r. omega (arith, uses_all-insert_proc r k.key emptied k.procs, ap (uses_proc r) e))
              bal))
  ]
