-- ===== src/Files/Counts/Ends.antt =====
-- src/syscall/files.rs: how the counts change when descriptors are copied, dropped, and put into
-- tables.
use ferros.Prelude.{ℕ, ◌+◌, ◌≤◌, ◌≡◌, refl, ap, ◌∙◌, Option, none, some, List, [], ◌∷◌, arith}
use ferros.Prelude.{leb}
use ferros.Files.Kernel.{
  Fd, console, vga, serial, file, pipe_read, pipe_write, socket, ProcState, Kernel, get_proc,
  clone_fd, drop_fd, clone_entry, drop_entry, clone_entries, drop_entries, or_default, current_proc,
  set_fds, drop_proc,
}
use ferros.Files.Counts.{
  Shared, reader, writer, arc, use_of, use_entry, uses, uses_proc, uses_all, counter, is_new,
  Balanced, counter-clone_fd, counter-drop_fd, uses_all-insert_proc,
}

module _ {Dev : Type 0} where
  -- The tables, and the numbers in use, are the same.
  abbrev pub Kept : Kernel Dev → Kernel Dev → Type 0
  Kept k k' =
      (k'.key ≡ k.key)
      × (k'.procs ≡ k.procs)
      × (k'.next_pipe ≡ k.next_pipe)
      × (k'.next_arc ≡ k.next_arc)

  abbrev pub Same : Kernel Dev → Kernel Dev → Type 0
  Same k k' = Kept k k' × ((r : Shared) → counter r k' ≡ counter r k)

  -- The counts are read off the pipes and the `Arc`s.
  pub Same-fields :
      (k k' : Kernel Dev) → Kept k k' → k'.pipes ≡ k.pipes → k'.arcs ≡ k.arcs → Same k k'
  Same-fields k k' kept pipes arcs = (kept, same)
    where
      same : (r : Shared) → counter r k' ≡ counter r k
      same (reader p) = ap (λ f. (f p).readers) pipes
      same (writer p) = ap (λ f. (f p).writers) pipes
      same (arc a) = ap (λ f. f a) arcs

  is_new-Kept : (r : Shared) (k k' : Kernel Dev) → Kept k k' → is_new r k' ≡ is_new r k
  is_new-Kept (reader p) k k' (_, _, e, _) = ap (λ n. leb n p) e
  is_new-Kept (writer p) k k' (_, _, e, _) = ap (λ n. leb n p) e
  is_new-Kept (arc a) k k' (_, _, _, e) = ap (λ n. leb n a) e

  pub Balanced-Same :
      (held : Shared → ℕ) (k k' : Kernel Dev) → Same k k' → Balanced held k → Balanced held k'
  Balanced-Same held k k' ((same_key, same_procs, same_pipe, same_arc), e) bal r =
      let (b1, b2) = bal r in
      (
        ground (arith, e r, ap (uses_all r) same_procs, b1),
        ground (arith, e r, is_new-Kept r k k' (same_key, same_procs, same_pipe, same_arc), b2),
      )

  pub Balanced-eq :
      (held held' : Shared → ℕ) (k : Kernel Dev)
      → ((r : Shared) → held r ≡ held' r)
      → Balanced held k
      → Balanced held' k
  Balanced-eq held held' k e bal r = let (b1, b2) = bal r in (ground (arith, e r, b1), b2)

  pub clone_fd-Kept : (fd : Fd) (k : Kernel Dev) → Kept k (clone_fd fd k)
  clone_fd-Kept console k = (refl, refl, refl, refl)
  clone_fd-Kept vga k = (refl, refl, refl, refl)
  clone_fd-Kept serial k = (refl, refl, refl, refl)
  clone_fd-Kept (file f) k = (refl, refl, refl, refl)
  clone_fd-Kept (pipe_read p) k = (refl, refl, refl, refl)
  clone_fd-Kept (pipe_write p) k = (refl, refl, refl, refl)
  clone_fd-Kept (socket a handle kind) k = (refl, refl, refl, refl)

  pub drop_fd-Kept : (fd : Fd) (k : Kernel Dev) → Kept k (drop_fd fd k)
  drop_fd-Kept console k = (refl, refl, refl, refl)
  drop_fd-Kept vga k = (refl, refl, refl, refl)
  drop_fd-Kept serial k = (refl, refl, refl, refl)
  drop_fd-Kept (file f) k = (refl, refl, refl, refl)
  drop_fd-Kept (pipe_read p) k = (refl, refl, refl, refl)
  drop_fd-Kept (pipe_write p) k = (refl, refl, refl, refl)
  drop_fd-Kept (socket a handle kind) k = (refl, refl, refl, refl)

  pub Balanced-drop_fd :
      (held : Shared → ℕ) (fd : Fd) (k : Kernel Dev)
      → Balanced (λ r. use_of r fd + held r) k
      → Balanced held (drop_fd fd k)
  Balanced-drop_fd held fd k bal r =
      let (b1, b2) = bal r in
      let (same_key, same_procs, same_pipe, same_arc) = drop_fd-Kept fd k in
      (
        ground (arith, counter-drop_fd r fd k, ap (uses_all r) same_procs, b1),
        ground (
          arith,
          counter-drop_fd r fd k,
          is_new-Kept r k (drop_fd fd k) (same_key, same_procs, same_pipe, same_arc),
          b2,
        ),
      )

  -- What is copied is in some table, or in hand.
  pub Balanced-clone_fd :
      (held : Shared → ℕ) (fd : Fd) (k : Kernel Dev)
      → Balanced held k
      → ((r : Shared) → use_of r fd ≤ uses_all r k.procs + held r)
      → Balanced (λ r. use_of r fd + held r) (clone_fd fd k)
  Balanced-clone_fd held fd k bal small r =
      let (b1, b2) = bal r in
      let (same_key, same_procs, same_pipe, same_arc) = clone_fd-Kept fd k in
      (
        ground (arith, counter-clone_fd r fd k, ap (uses_all r) same_procs, b1),
        ground (
          arith,
          counter-clone_fd r fd k,
          is_new-Kept r k (clone_fd fd k) (same_key, same_procs, same_pipe, same_arc),
          b1,
          b2,
          small r,
        ),
      )

  pub Balanced-drop_entry :
      (held : Shared → ℕ) (o : Option Fd) (k : Kernel Dev)
      → Balanced (λ r. use_entry r o + held r) k
      → Balanced held (drop_entry o k)
  Balanced-drop_entry held none k bal = Balanced-eq (λ r. 0 + held r) held k (λ r. omega arith) bal
  Balanced-drop_entry held (some fd) k bal = Balanced-drop_fd held fd k bal

  pub Balanced-drop_entries :
      (held : Shared → ℕ) (os : List (Option Fd)) (k : Kernel Dev)
      → Balanced (λ r. uses r os + held r) k
      → Balanced held (drop_entries os k)
  unfolding drop_entries
  Balanced-drop_entries held [] k bal = Balanced-eq (λ r. 0 + held r) held k (λ r. omega arith) bal
  Balanced-drop_entries held (o ∷ os) k bal = Balanced-drop_entries held os (drop_entry o k) (
      Balanced-drop_entry (λ r. uses r os + held r) o k
        (Balanced-eq (λ r. uses r (o ∷ os) + held r) (λ r. use_entry r o + (uses r os + held r)) k
          (λ r. omega arith) bal))

  pub Balanced-drop_proc :
      (o : Option ProcState) (k : Kernel Dev)
      → Balanced (λ r. uses_proc r o) k
      → Balanced (λ r. 0) (drop_proc o k)
  Balanced-drop_proc none k bal = bal
  Balanced-drop_proc (some p) k bal =
      Balanced-drop_entries (λ r. 0) p.fds k
        (Balanced-eq (λ r. uses r p.fds) (λ r. uses r p.fds + 0) k (λ r. omega arith) bal)

  clone_entry-Kept : (o : Option Fd) (k : Kernel Dev) → Kept k (clone_entry o k)
  clone_entry-Kept none k = (refl, refl, refl, refl)
  clone_entry-Kept (some fd) k = clone_fd-Kept fd k

  -- Descriptors that stand in a table, copied one after another.
  pub Balanced-clone_entries :
      (held : Shared → ℕ) (os : List (Option Fd)) (k : Kernel Dev)
      → Balanced held k
      → ((r : Shared) → uses r os ≤ uses_all r k.procs)
      → Balanced (λ r. uses r os + held r) (clone_entries os k) × Kept k (clone_entries os k)
  unfolding clone_entries
  Balanced-clone_entries held [] k bal small =
      (Balanced-eq held (λ r. 0 + held r) k (λ r. omega arith) bal, (refl, refl, refl, refl))
  Balanced-clone_entries held (none ∷ os) k bal small =
      let (rest, kept) = Balanced-clone_entries held os k bal (λ r. omega (arith, small r)) in
      (
        Balanced-eq (λ r. uses r os + held r) (λ r. uses r (none ∷ os) + held r)
            (clone_entries os k) (λ r. omega arith) rest,
        kept,
      )
  Balanced-clone_entries held (some fd ∷ os) k bal small =
      let (e1, e2, e3, e4) = clone_fd-Kept fd k in
      let k' = clone_fd fd k in
      let (rest, (f1, f2, f3, f4)) =
        Balanced-clone_entries (λ r. use_of r fd + held r) os k'
          (Balanced-clone_fd held fd k bal (λ r. ground (arith, small r)))
          (λ r. ground (arith, small r, ap (uses_all r) e2)) in
      (
        Balanced-eq (λ r. uses r os + (use_of r fd + held r)) (λ r. uses r (some fd ∷ os) + held r)
            (clone_entries os k') (λ r. omega arith) rest,
        (f1 ∙ e1, f2 ∙ e2, f3 ∙ e3, f4 ∙ e4),
      )

  -- The tables of the processes may be exchanged, if what they share and what is in hand agree.
  pub Balanced-procs :
      (held held' : Shared → ℕ) (procs : List (ℕ × ProcState)) (k : Kernel Dev)
      → ((r : Shared) → uses_all r procs + held' r ≡ uses_all r k.procs + held r)
      → Balanced held k
      → Balanced held' (record k { procs = procs })
  Balanced-procs held held' procs k e bal (reader p) =
      let (b1, b2) = bal (reader p) in (omega (arith, e (reader p), b1), b2)
  Balanced-procs held held' procs k e bal (writer p) =
      let (b1, b2) = bal (writer p) in (omega (arith, e (writer p), b1), b2)
  Balanced-procs held held' procs k e bal (arc a) =
      let (b1, b2) = bal (arc a) in (omega (arith, e (arc a), b1), b2)

  pub uses-current_proc :
      (r : Shared) (k : Kernel Dev)
      → uses_proc r (get_proc k.key k.procs) ≡ uses r (current_proc k).fds
  uses-current_proc r k = or_fresh (get_proc k.key k.procs)
    where
      or_fresh : (o : Option ProcState) → uses_proc r o ≡ uses r (or_default o).fds
      or_fresh none = omega arith
      or_fresh (some p) = refl

  pub Balanced-set_fds :
      (held held' : Shared → ℕ) (fds : List (Option Fd)) (k : Kernel Dev)
      → ((r : Shared) → uses r fds + held' r ≡ uses r (current_proc k).fds + held r)
      → Balanced held k
      → Balanced held' (set_fds fds k)
  Balanced-set_fds held held' fds k e bal =
      Balanced-procs held held' (set_fds fds k).procs k
        (λ r. omega (
          arith,
          uses_all-insert_proc r k.key (record (current_proc k) { fds = fds }) k.procs,
          uses-current_proc r k,
          e r,
        ))
        bal
