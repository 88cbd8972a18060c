-- ===== src/Files/Counts/Vectors.antt =====
-- src/syscall/files.rs: `readv`, against the counts.
use ferros.Prelude.{ℕ, zero, suc, ◌+◌, inl, inr, Bool, true, false, ok, err}
use ferros.Prelude.{if◌then◌else◌, ltb, ◌==◌, Bool-cases, Result-cases}
use ferros.User.{einval}
use ferros.Files.Kernel.{Kernel}
use ferros.Files.Transfer.{Progress, returns, waits, sys_read}
use ferros.Files.Vector.{
  Readv, done, read_iovec, iov_max, after_read, readv_loop, sys_readv, resume_readv,
}
use ferros.Files.Counts.{IsCounted}
use ferros.Files.Counts.Reads.{IsCounted-sys_read}

module _ {Dev : Type 0} where
  IsCounted-if_readv :
      (b : Bool) (x y : Readv × Kernel Dev)
      → IsCounted x.1
      → IsCounted y.1
      → IsCounted (if b then x else y).1
  IsCounted-if_readv true x y h h' = h
  IsCounted-if_readv false x y h h' = h'

  IsCounted-after_read :
      (left i total base len : ℕ) (r : Progress × Kernel Dev)
      (more : ℕ → Kernel Dev → Readv × Kernel Dev)
      → IsCounted r.1
      → ((n : ℕ) (k : Kernel Dev) → IsCounted k → IsCounted (more n k).1)
      → IsCounted (after_read left i total base len r more).1
  IsCounted-after_read left i total base len (waits, k) more bal keeps = bal
  IsCounted-after_read left i total base len (returns (err e), k) more bal keeps = bal
  IsCounted-after_read left i total base len (returns (ok got), k) more bal keeps =
      IsCounted-if_readv (ltb got len) (done (ok (total + got)), k) (more (total + got) k) bal
        (keeps (total + got) k bal)

  IsCounted-readv_loop :
      (left i fd iov total : ℕ) (k : Kernel Dev)
      → IsCounted k
      → IsCounted (readv_loop left i fd iov total k).1
  unfolding readv_loop
  IsCounted-readv_loop zero i fd iov total k bal = bal
  IsCounted-readv_loop (suc left) i fd iov total k bal =
      elim (Result-cases (read_iovec k.space iov i)) [
        | inr (errno, e) ↦ rw (e, readv_loop) bal
        | inl (v, e) ↦ elim (Bool-cases (v.1 == 0)) [
          | inl f ↦ rw (e, f, readv_loop) (IsCounted-readv_loop left (i + 1) fd iov total k bal)
          | inr f ↦
              rw (e, f, readv_loop)
                (IsCounted-after_read left i total v.0 v.1 (sys_read fd v.0 v.1 k)
                  (λ n. readv_loop left (i + 1) fd iov n) (IsCounted-sys_read fd v.0 v.1 k bal)
                  (λ n k' bal'. IsCounted-readv_loop left (i + 1) fd iov n k' bal'))
        ]
      ]

  pub IsCounted-sys_readv :
      (fd iov iovcnt : ℕ) (k : Kernel Dev) → IsCounted k → IsCounted (sys_readv fd iov iovcnt k).1
  unfolding sys_readv
  IsCounted-sys_readv fd iov iovcnt k bal =
      IsCounted-if_readv (ltb iov_max iovcnt) (done (err einval), k)
        (readv_loop iovcnt 0 fd iov 0 k) bal (IsCounted-readv_loop iovcnt 0 fd iov 0 k bal)

  pub IsCounted-resume_readv :
      (left i total base len fd iov : ℕ) (k : Kernel Dev)
      → IsCounted k
      → IsCounted (resume_readv left i total base len fd iov k).1
  unfolding resume_readv
  IsCounted-resume_readv left i total base len fd iov k bal =
      IsCounted-after_read left i total base len (sys_read fd base len k)
        (λ n. readv_loop left (i + 1) fd iov n) (IsCounted-sys_read fd base len k bal)
        (λ n k' bal'. IsCounted-readv_loop left (i + 1) fd iov n k' bal')
