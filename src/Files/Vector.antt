-- ===== src/Files/Vector.antt =====
-- src/syscall/files.rs: `writev` and `readv`, one `write` or `read` for each buffer of an array in the
-- user's memory.
use ferros.Prelude.{ℕ, zero, suc, ◌+◌, ◌*◌, none, some, Result, ok, err, M, true, false}
use ferros.Prelude.{if◌then◌else◌, ltb, ◌==◌, take, drop, checked_add, from_le}
use ferros.User.{Space, efault, einval, user_bytes}
use ferros.Files.Kernel.{Kernel}
use ferros.Files.Transfer.{Progress, returns, waits, sys_write, sys_read}

abbrev pub iov_max : ℕ
iov_max = 1024

-- The base and the length of the buffer with this index.
unfoldable pub read_iovec : Space → ℕ → ℕ → Result ℕ (ℕ × ℕ)
read_iovec s iov index = elim (checked_add iov (index * 16)) [
  | none ↦ err efault
  | some entry ↦ elim (user_bytes s entry 16) [
    | err e ↦ err e
    | ok b ↦ ok (from_le (take 8 b), from_le (drop 8 b))
  ]
]

-- An error counts only if nothing was written before.
abbrev pub total_or : ℕ → ℕ → Result ℕ ℕ
total_or total e = if total == 0 then err e else ok total

-- A call of `readv` ends, or its read of `len` bytes to `base` waits; `left` buffers follow number
-- `i`, and `total` bytes came before.
pub data Readv : Type 0 where
  done : Result ℕ ℕ → Readv
  waiting : (left i total base len : ℕ) → Readv

module _ {Dev : Type 0} where
  -- The loop from buffer `i` on, with `left` buffers to go.
  unfoldable pub writev_loop : ℕ → ℕ → ℕ → ℕ → ℕ → ℕ → M (Kernel Dev) ℕ ℕ
  writev_loop zero i fd iov user_rsp total k = (ok total, k)
  writev_loop (suc left) i fd iov user_rsp total k = elim (read_iovec k.space iov i) [
    | err e ↦ (total_or total e, k)
    | ok v ↦
        let (base, len) = v in
        elim (len == 0) [
          | true ↦ writev_loop left (i + 1) fd iov user_rsp total k
          | false ↦
              let (r, k') = sys_write fd base len user_rsp k in
              elim r [
                | err e ↦ (total_or total e, k')
                | ok written ↦ elim (ltb written len) [
                  | true ↦ (ok (total + written), k')
                  | false ↦ writev_loop left (i + 1) fd iov user_rsp (total + written) k'
                ]
              ]
        ]
  ]

  unfoldable pub sys_writev : ℕ → ℕ → ℕ → ℕ → M (Kernel Dev) ℕ ℕ
  sys_writev fd iov iovcnt user_rsp k =
      if ltb iov_max iovcnt then (err einval, k) else writev_loop iovcnt 0 fd iov user_rsp 0 k

  -- What follows a read into one buffer. A read that waits is made again when the thread is woken.
  abbrev pub after_read :
      ℕ
      → ℕ
      → ℕ
      → ℕ
      → ℕ
      → Progress × Kernel Dev
      → (ℕ → Kernel Dev → Readv × Kernel Dev)
      → Readv × Kernel Dev
  after_read left i total base len (waits, k) more = (waiting left i total base len, k)
  after_read left i total base len (returns (err e), k) more = (done (total_or total e), k)
  after_read left i total base len (returns (ok got), k) more =
      if ltb got len then (done (ok (total + got)), k) else more (total + got) k

  unfoldable pub readv_loop : ℕ → ℕ → ℕ → ℕ → ℕ → Kernel Dev → Readv × Kernel Dev
  readv_loop zero i fd iov total k = (done (ok total), k)
  readv_loop (suc left) i fd iov total k = elim (read_iovec k.space iov i) [
    | err e ↦ (done (total_or total e), k)
    | ok v ↦
        let (base, len) = v in
        elim (len == 0) [
          | true ↦ readv_loop left (i + 1) fd iov total k
          | false ↦
              after_read left i total base len (sys_read fd base len k)
                (λ total'. readv_loop left (i + 1) fd iov total')
        ]
  ]

  unfoldable pub sys_readv : ℕ → ℕ → ℕ → Kernel Dev → Readv × Kernel Dev
  unfolding readv_loop
  sys_readv fd iov iovcnt k =
      if ltb iov_max iovcnt then (done (err einval), k) else readv_loop iovcnt 0 fd iov 0 k

  -- The rest of a call that waited: the read is made again, and the loop goes on behind it.
  unfoldable pub resume_readv : ℕ → ℕ → ℕ → ℕ → ℕ → ℕ → ℕ → Kernel Dev → Readv × Kernel Dev
  unfolding readv_loop
  resume_readv left i total base len fd iov k =
      after_read left i total base len (sys_read fd base len k)
        (λ total'. readv_loop left (i + 1) fd iov total')
