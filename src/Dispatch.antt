-- ===== src/Dispatch.antt =====
-- src/syscall/mod.rs: `kill` and `wait4`, between the scheduler and the memory of the caller.
pub mod Kill
pub mod Status
pub mod Clock
pub mod Uname
mod Tests
use ferros.Prelude.{
  ℕ, zero, suc, ◌+◌, ◌*◌, ◌/◌, ◌%◌, ◌^◌, Bool, true, false, Option, none, some, List, [], ◌∷◌,
  Result, ok, err, pure, ◌>>◌,
}
use ferros.Prelude.{if◌then◌else◌, ltb, ◌==◌, to_le, ℤ, pos, negsuc, Bytes}
use ferros.Abi.{esrch, echild, sig_max}
use ferros.Sched.Table.{Scheduler}
use ferros.Sched.Calls.{
  SignalOutcome, signal, WaitResult, collected, would_block, no_children, try_collect_or_block,
}
use ferros.User.{einval}
use ferros.Files.Kernel.{Kernel, copy_out}

-- A signal that ends its sender does not return.
pub data Killed : Type 0 where
  replies : Result ℕ ℕ → Killed
  ends : Killed

-- `pid as u32`
abbrev pub as_u32 : ℕ → ℕ
as_u32 pid = pid % 2 ^ 32

module _ {Dev : Type 0} where
  abbrev pub delivery : Scheduler × SignalOutcome × Bool → Kernel Dev → Killed × Kernel Dev
  delivery (s, SignalOutcome.delivered, true) k = (ends, record k { sched = s })
  delivery (s, SignalOutcome.delivered, false) k = (replies (ok 0), record k { sched = s })
  delivery (s, SignalOutcome.no_such_process, self) k =
      (replies (err esrch), record k { sched = s })

  -- `none` is the panic of an index out of range.
  abbrev pub send : ℕ → ℕ → Kernel Dev → Option (Killed × Kernel Dev)
  send pid sig k = elim (signal k.sched pid sig) [ none ↦ none | some o ↦ some (delivery o k) ]

  abbrev pub kill_pid : ℤ → ℕ → Kernel Dev → Option (Killed × Kernel Dev)
  kill_pid (negsuc n) sig k = some (replies (err esrch), k)
  kill_pid (pos pid) sig k =
      if pid == 0 then some (replies (err esrch), k) else send (as_u32 pid) sig k

  unfoldable pub sys_kill : ℤ → ℕ → Kernel Dev → Option (Killed × Kernel Dev)
  sys_kill pid sig k =
      if ltb sig_max sig then some (replies (err einval), k) else kill_pid pid sig k

-- The status word, of 32 bits: the number of the signal, or the low byte of the code above 8 bits.
unfoldable pub encode_status : ℕ → Option ℕ → ℕ
encode_status code (some sig) = sig
encode_status code none = code % 256 * 256

-- `some (want_pid as u32)` for a positive number.
abbrev pub wanted : ℤ → Option ℕ
wanted (pos pid) = if pid == 0 then none else some (as_u32 pid)
wanted (negsuc n) = none

-- A round of the loop of `wait_current`: it waits, or what it found is written and returned.
pub data Waited : Type 0 where
  returns : Result ℕ ℕ → Waited
  waits : Waited

module _ {Dev : Type 0} where
  abbrev pub answered : Result ℕ ℕ × Kernel Dev → Waited × Kernel Dev
  answered (r, k) = (returns r, k)

  abbrev pub report : ℕ → WaitResult → Kernel Dev → Waited × Kernel Dev
  report status_ptr (collected pid code sig) k =
      if status_ptr == 0
      then (returns (ok pid), k)
      else answered ((copy_out status_ptr (to_le 4 (encode_status code sig)) >> pure pid) k)
  report status_ptr would_block k = (waits, k)
  report status_ptr no_children k = (returns (err echild), k)

  unfoldable pub sys_wait4 : ℤ → ℕ → Kernel Dev → Option (Waited × Kernel Dev)
  sys_wait4 pid status_ptr k = elim (try_collect_or_block k.sched (wanted pid)) [
    | none ↦ none
    | some o ↦
        let (sched, result) = o in some (report status_ptr result (record k { sched = sched }))
  ]
