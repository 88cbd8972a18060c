-- ===== src/Sched/Step.antt =====
-- The calls of src/sched/thread.rs as steps between tables, made by the thread that runs.
use ferros.Prelude.{ℕ, ◌+◌, Bool, ◌≡◌, ◌≢◌, true, Option, none, some}
use ferros.Sched.Table.{State, BlockReason, Thread, Scheduler}
use ferros.Sched.Calls.{SignalOutcome, WaitResult}
use ferros.Sched.Turn.{Switch}
use ferros.Sched.Table.{push_thread, num, has_pid, set_current_fs_base, exec_replace_cr3}
use ferros.Sched.Calls.{
  terminate, signal, try_collect_or_block, block_current, wake_stdin_readers, wake_pipe_waiters,
}
use ferros.Sched.Turn.{reap, is_runnable_at, switch_to_next}

-- A thread that is new: it can run, and its pid is not in the table.
pub record IsNew (s : Scheduler) (t : Thread) : Type 0 where
  pub ready : t.state ≡ State.runnable
  pub fresh : num (has_pid t.pid) s.threads ≡ 0

-- Every call that changes the table. Exit, the end by a fault, a new image, a new FS base, waiting
-- and blocking are calls of the current thread, which then can run. An exit goes on by a switch.
pub data Step (s : Scheduler) (s' : Scheduler) : Type 0 where
  spawn : (t : Thread) → IsNew s t → s' ≡ push_thread s t → Step s s'
  exit :
      (status : ℕ)
      → is_runnable_at s.threads s.current ≡ true
      → terminate s s.current status none ≡ some s'
      → Step s s'
  -- `exit_current_killed`, by which a fault in ring 3 ends the process.
  exit_killed :
      (sig : ℕ)
      → is_runnable_at s.threads s.current ≡ true
      → terminate s s.current (128 + sig) (some sig) ≡ some s'
      → Step s s'
  exec :
      (new old : ℕ)
      → is_runnable_at s.threads s.current ≡ true
      → exec_replace_cr3 s new ≡ some (old, s')
      → Step s s'
  set_fs_base :
      (fs_base : ℕ)
      → is_runnable_at s.threads s.current ≡ true
      → s' ≡ set_current_fs_base s fs_base
      → Step s s'
  kill :
      (pid sig : ℕ) (o : SignalOutcome) (self : Bool)
      → signal s pid sig ≡ some (s', o, self)
      → Step s s'
  wait :
      (want : Option ℕ) (r : WaitResult)
      → is_runnable_at s.threads s.current ≡ true
      → try_collect_or_block s want ≡ some (s', r)
      → Step s s'
  block :
      (why : BlockReason)
      → why ≢ BlockReason.child
      → is_runnable_at s.threads s.current ≡ true
      → s' ≡ block_current s why
      → Step s s'
  wake_stdin : s' ≡ wake_stdin_readers s → Step s s'
  wake_pipe : s' ≡ wake_pipe_waiters s → Step s s'
  bury_all : s' ≡ (reap s).0 → Step s s'
  switch : (w : Switch) → switch_to_next s ≡ (w, s') → Step s s'

pub data Reach (s : Scheduler) : Scheduler → Type 0 where
  here : Reach s s
  next : {t u : Scheduler} → Reach s t → Step t u → Reach s u
