-- ===== src/Files/Counts/Opened.antt =====
-- src/syscall/files.rs: opening a file, against the counts.
use ferros.Prelude.{
  ℕ, ◌+◌, refl, Bool, ◌&&◌, ◌||◌, not, [], inl, inr, Result, ok, err, M, after, pure, ◌>>◌, arith,
}
use ferros.Prelude.{Bytes, Bool-cases, Result-cases}
use ferros.Abi.{o_trunc, o_creat}
use ferros.Block.{BlockDevice}
use ferros.Fat.Volume.{FatError}
use ferros.Fat.Path.{Node, file, dir}
use ferros.User.{read_user_cstr}
use ferros.Console.{is_nil}
use ferros.Files.Kernel
use ferros.Files.Kernel.{OpenFile, Kernel, touch, place, on_volume}
use ferros.Files.Open.{
  has_flag, is_not_found, is_absolute, path_arg, is_writable, new_file, open_found, sys_open,
}
use ferros.Files.Counts.{use_of, IsCounted}
use ferros.Files.Counts.Ends.{Balanced-Same, Balanced-eq, Same-fields}
use ferros.Files.Counts.Calls.{Balanced-touch, Balanced-place}
use ferros.Files.Counts.Pipes.{Same-lift_result}
use ferros.Vfs

module _ (d : BlockDevice) (utf8 : Bytes → Bool) where
  pub IsCounted-after :
      {A B : Type 0} (x : Result ℕ A × Kernel d.Dev) (f : A → M (Kernel d.Dev) ℕ B)
      → IsCounted x.1
      → ((a : A) (k : Kernel d.Dev) → IsCounted k → IsCounted (f a k).1)
      → IsCounted (after x.0 x.1 f).1
  IsCounted-after (ok a, k) f bal keeps = keeps a k bal
  IsCounted-after (err e, k) f bal keeps = bal

  pub IsCounted-on_volume :
      {A : Type 0} (m : M d.Dev FatError A) (k : Kernel d.Dev)
      → IsCounted k
      → IsCounted (on_volume m k).1
  IsCounted-on_volume m k =
      Balanced-Same (λ r. 0) k (on_volume m k).1 (Same-lift_result d (m k.dev) k)

  pub IsCounted-path_arg :
      (path_ptr : ℕ) (k : Kernel d.Dev) → IsCounted k → IsCounted (path_arg d utf8 path_ptr k).1
  unfolding path_arg
  IsCounted-path_arg path_ptr k bal = elim (Result-cases (read_user_cstr k.space path_ptr)) [
    | inr (errno, e) ↦ rw (e, path_arg) bal
    | inl (path, e) ↦ elim (Bool-cases (not (utf8 path) || is_nil path)) [
      | inl f ↦ rw (e, f, path_arg) bal
      | inr f ↦ elim (Bool-cases (is_absolute path)) [
        | inl g ↦ rw (e, f, g, path_arg) bal
        | inr g ↦ rw (e, f, g, path_arg) (Balanced-touch (λ r. 0) k bal)
      ]
    ]
  ]

  -- A file that is cut to nothing, or made, on disk.
  IsCounted-emptied :
      (path : Bytes) (f : OpenFile) (k : Kernel d.Dev)
      → IsCounted k
      → IsCounted ((on_volume (Vfs.write_file d path []) >> pure f) k).1
  IsCounted-emptied path f k bal =
      IsCounted-after (on_volume (Vfs.write_file d path []) k) (λ _. pure f)
        (IsCounted-on_volume (Vfs.write_file d path []) k bal) (λ a k' bal'. bal')

  IsCounted-open_found :
      (path : Bytes) (flags : ℕ) (x : Result FatError Node) (k : Kernel d.Dev)
      → IsCounted k
      → IsCounted (open_found d utf8 path flags x k).1
  IsCounted-open_found path flags (ok (file existing)) k bal =
      elim (Bool-cases (has_flag flags o_trunc)) [
        | inl e ↦
            rw (e, open_found)
              (IsCounted-emptied path (new_file path [] 0 (is_writable flags)) k bal)
        | inr e ↦ rw (e, open_found) bal
      ]
  IsCounted-open_found path flags (ok (dir items)) k bal = elim (Bool-cases (is_writable flags)) [
    | inl e ↦ rw (e, open_found) bal
    | inr e ↦ rw (e, open_found) bal
  ]
  IsCounted-open_found path flags (err x) k bal =
      elim (Bool-cases (is_not_found x && has_flag flags o_creat)) [
        | inl e ↦
            rw (e, open_found)
              (IsCounted-emptied path (new_file path [] 0 (is_writable flags)) k bal)
        | inr e ↦ rw (e, open_found) bal
      ]

  pub IsCounted-sys_open :
      (path_ptr flags : ℕ) (k : Kernel d.Dev)
      → IsCounted k
      → IsCounted (sys_open d utf8 path_ptr flags k).1
  unfolding sys_open
  IsCounted-sys_open path_ptr flags k bal =
      IsCounted-after (path_arg d utf8 path_ptr k) _ (IsCounted-path_arg path_ptr k bal)
        (λ path k1 bal1.
          IsCounted-after
            (open_found d utf8 path flags (Vfs.lookup d path k1.dev).0
              (record k1 { dev = (Vfs.lookup d path k1.dev).1 }))
            (λ f. place (Kernel.Fd.file f))
            (IsCounted-open_found path flags (Vfs.lookup d path k1.dev).0
              (record k1 { dev = (Vfs.lookup d path k1.dev).1 })
              (Balanced-Same (λ r. 0) k1 (record k1 { dev = (Vfs.lookup d path k1.dev).1 })
                (Same-fields k1 (record k1 { dev = (Vfs.lookup d path k1.dev).1 })
                  (refl, refl, refl, refl) refl refl)
                bal1))
            (λ f k2 bal2.
              Balanced-place (λ r. 0) (Kernel.Fd.file f) k2
                (Balanced-eq (λ r. 0) (λ r. use_of r (Kernel.Fd.file f) + 0) k2 (λ r. omega arith)
                  bal2)))
