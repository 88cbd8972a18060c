-- ===== src/Files/Counts/Pipes.antt =====
-- src/syscall/files.rs: a new pipe, and the end of a descriptor, against the counts.
use ferros.Prelude.{
  ℕ, ◌+◌, ◌≡◌, refl, ap, ◌∙◌, ◌&&◌, Option, none, some, List, ◌++◌, inl, inr, Result, ok, err, pure,
  after, ◌>>◌, arith,
}
use ferros.Prelude.{set, to_le, Option-cases, Bool-cases}
use ferros.Fat.Volume.{FatError}
use ferros.Block.{BlockDevice}
use ferros.Files.{alloc_fd}
use ferros.Files.Kernel.{
  Fd, console, vga, serial, file, pipe_read, pipe_write, socket, Kernel, current_proc, set_fds,
  set_fd, fd_at, placed, place, copy_out, lift_result, on_volume, flush,
}
use ferros.Files.Table.{new_pipe, keep_both, place_write_end, place_ends, sys_pipe, sys_close}
use ferros.Files.Counts.{
  Shared, reader, writer, arc, use_of, use_entry, Balanced, IsCounted, get_proc-insert_proc,
}
use ferros.Files.Counts.Tables.{uses-set, slot-some-lt, Stored, alloc_fd-Stored}
use ferros.Files.Counts.Ends.{
  Same, Same-fields, Balanced-Same, Balanced-drop_fd, Balanced-set_fds, drop_fd-Kept,
}
use ferros.Vfs
use ferros.Files.Counts.Calls.{Balanced-touch, Balanced-place, Same-copy_out}

module _ {Dev : Type 0} where
  Balanced-new_pipe :
      (k : Kernel Dev)
      → IsCounted k
      → Balanced
          (λ r. use_of r (pipe_read k.next_pipe) + (use_of r (pipe_write k.next_pipe) + 0))
          (new_pipe k)
  Balanced-new_pipe k bal (reader p) =
      let (b1, b2) = bal (reader p) in (ground (arith, b1, b2), ground (arith, b1, b2))
  Balanced-new_pipe k bal (writer p) =
      let (b1, b2) = bal (writer p) in (ground (arith, b1, b2), ground (arith, b1, b2))
  Balanced-new_pipe k bal (arc a) =
      let (b1, b2) = bal (arc a) in (ground (arith, b1, b2), ground (arith, b1, b2))

  pub fds-set_fds :
      (fds : List (Option Fd)) (k : Kernel Dev) → (current_proc (set_fds fds k)).fds ≡ fds
  fds-set_fds fds k =
      rw (get_proc-insert_proc k.key (record (current_proc k) { fds = fds }) k.procs) refl

  -- Where `place` puts a descriptor; an error leaves the table.
  abbrev Put : Fd → Kernel Dev → Result ℕ ℕ × Kernel Dev → Type 0
  Put fd k (ok i, k') = fd_at i k' ≡ some fd
  Put fd k (err e, k') = (current_proc k').fds ≡ (current_proc k).fds

  placed-Put :
      (fd : Fd) (x : Result ℕ ℕ × List (Option Fd)) (k : Kernel Dev)
      → Stored fd (current_proc k).fds x
      → Put fd k (placed fd x k)
  placed-Put fd (ok i, fds) k e = rw (fds-set_fds fds k) e
  placed-Put fd (err errno, fds) k e =
      let (same_key, same_procs, same_pipe, same_arc) = drop_fd-Kept fd (set_fds fds k) in
      rw (same_key, same_procs) (fds-set_fds fds k ∙ e)

  place-Put : (fd : Fd) (k : Kernel Dev) → Put fd k (place fd k)
  unfolding place
  place-Put fd k =
      placed-Put fd (alloc_fd (current_proc k).fds fd) k (alloc_fd-Stored (current_proc k).fds fd)

  -- The end that found a place leaves it again if the other end finds none.
  IsCounted-keep_both :
      (p i : ℕ) (k : Kernel Dev) (x : Result ℕ ℕ × Kernel Dev)
      → fd_at i k ≡ some (pipe_read p)
      → Put (pipe_write p) k x
      → IsCounted x.1
      → IsCounted (keep_both p i x).1
  IsCounted-keep_both p i k (ok w, k') here put bal = bal
  IsCounted-keep_both p i k (err e, k') here put bal =
      let now : fd_at i k' ≡ some (pipe_read p) = rw (put) here in
      Balanced-drop_fd (λ r. 0) (pipe_read p) (set_fd i none k')
        (Balanced-set_fds (λ r. 0) (λ r. use_of r (pipe_read p) + 0)
          (set (current_proc k').fds i none) k'
          (λ r. omega (
            arith,
            ap (use_entry r) now,
            uses-set r (current_proc k').fds i none (slot-some-lt (current_proc k').fds i now),
          ))
          bal)

  IsCounted-place_write_end :
      (p : ℕ) (k : Kernel Dev) (x : Result ℕ ℕ × Kernel Dev)
      → Put (pipe_read p) k x
      → Balanced (λ r. use_of r (pipe_write p) + 0) x.1
      → IsCounted (place_write_end p x).1
  IsCounted-place_write_end p k (err e, k') put bal =
      Balanced-drop_fd (λ r. 0) (pipe_write p) k' bal
  IsCounted-place_write_end p k (ok i, k') put bal =
      IsCounted-keep_both p i k' (place (pipe_write p) k') put (place-Put (pipe_write p) k')
        (Balanced-place (λ r. 0) (pipe_write p) k' bal)

  IsCounted-place_ends :
      (k : Kernel Dev) → IsCounted k → IsCounted (place_ends k.next_pipe (new_pipe k)).1
  IsCounted-place_ends k bal =
      let k' = new_pipe k in
      IsCounted-place_write_end k.next_pipe k' (place (pipe_read k.next_pipe) k')
        (place-Put (pipe_read k.next_pipe) k')
        (Balanced-place (λ r. use_of r (pipe_write k.next_pipe) + 0) (pipe_read k.next_pipe) k'
          (Balanced-new_pipe k bal))

  -- An answer that is put in does not change the state.
  pub after-pure :
      (x : Result ℕ (Unit {0}) × Kernel Dev) (a : ℕ) → (after x.0 x.1 (λ _. pure a)).1 ≡ x.1
  after-pure (ok _, k) a = refl
  after-pure (err e, k) a = refl

  abbrev answer_ends : ℕ → Result ℕ (ℕ × ℕ) × Kernel Dev → Result ℕ ℕ × Kernel Dev
  answer_ends fds_ptr x =
      after x.0 x.1 (λ (r, w). copy_out fds_ptr (to_le 4 r ++ to_le 4 w) >> pure 0)

  -- What follows the closure: only the user's memory changes.
  IsCounted-answered :
      (fds_ptr : ℕ) (x : Result ℕ (ℕ × ℕ) × Kernel Dev)
      → IsCounted x.1
      → IsCounted (answer_ends fds_ptr x).1
  IsCounted-answered fds_ptr (err e, k) bal = bal
  IsCounted-answered fds_ptr (ok (r, w), k) bal =
      let out = to_le 4 r ++ to_le 4 w in
      rw (after-pure (copy_out fds_ptr out k) 0)
        (Balanced-Same (λ r. 0) k (copy_out fds_ptr out k).1 (Same-copy_out fds_ptr out k) bal)

  pub IsCounted-sys_pipe :
      (fds_ptr : ℕ) (k : Kernel Dev) → IsCounted k → IsCounted (sys_pipe fds_ptr k).1
  unfolding sys_pipe
  IsCounted-sys_pipe fds_ptr k bal =
      IsCounted-answered fds_ptr (place_ends k.next_pipe (new_pipe k)) (IsCounted-place_ends k bal)

module _ (d : BlockDevice) where
  pub Same-lift_result :
      {A : Type 0} (x : Result FatError A × d.Dev) (k : Kernel d.Dev) → Same k (lift_result x k).1
  Same-lift_result (ok a, s) k =
      Same-fields k (record k { dev = s }) (refl, refl, refl, refl) refl refl
  Same-lift_result (err e, s) k =
      Same-fields k (record k { dev = s }) (refl, refl, refl, refl) refl refl

  pub Balanced-flush :
      (held : Shared → ℕ) (fd : Fd) (k : Kernel d.Dev)
      → Balanced held k
      → Balanced held (flush d fd k).1
  Balanced-flush held console k bal = bal
  Balanced-flush held vga k bal = bal
  Balanced-flush held serial k bal = bal
  Balanced-flush held (file f) k bal = elim (Bool-cases (f.writable && f.dirty)) [
    | inl e ↦
        rw (e, flush)
          (Balanced-Same held k (on_volume (Vfs.write_file d f.name f.content) k).1
            (Same-lift_result (Vfs.write_file d f.name f.content k.dev) k) bal)
    | inr e ↦ rw (e, flush) bal
  ]
  Balanced-flush held (pipe_read p) k bal = bal
  Balanced-flush held (pipe_write p) k bal = bal
  Balanced-flush held (socket a handle kind) k bal = bal

  pub IsCounted-sys_close :
      (fd : ℕ) (k : Kernel d.Dev) → IsCounted k → IsCounted (sys_close d fd k).1
  unfolding sys_close
  IsCounted-sys_close fd k bal = elim (Option-cases (fd_at fd k)) [
    | inl e ↦ rw (e, sys_close) (Balanced-touch (λ r. 0) k bal)
    | inr (o, e) ↦
        let k' = set_fd fd none k in
        let taken_out =
          Balanced-set_fds (λ r. 0) (λ r. use_of r o + 0) (set (current_proc k).fds fd none) k
            (λ r. omega (
              arith,
              ap (use_entry r) e,
              uses-set r (current_proc k).fds fd none (slot-some-lt (current_proc k).fds fd e),
            ))
            bal in
        rw (e, sys_close, after-pure (flush d o k') 0)
          (Balanced-drop_fd (λ r. 0) o (flush d o k').1
            (Balanced-flush (λ r. use_of r o + 0) o k' taken_out))
  ]
