-- ===== src/Sched/Calls.antt =====
-- src/sched/thread.rs: exit, signals, waiting for a child, blocking and waking.
use Prim.Native.Nat.{bit_or}
use ferros.Prelude.{
  ℕ, ◌+◌, ◌-◌, ◌^◌, Bool, false, ◌&&◌, ◌||◌, not, Option, none, some, List, [], ◌∷◌, map,
}
use ferros.Prelude.{if◌then◌else◌, leb, ◌==◌, get_elem?}
use ferros.Sched.Table.{
  State, BlockReason, Thread, Scheduler, is_blocked, is_zombie, is_alive, is_some, is_child,
  is_stdin, is_pipe, modify, position, any, current_thread,
}

-- The second part of `terminate`: the children of the thread go to PID 0.
abbrev pub orphan : ℕ → Thread → Thread
orphan pid t = if t.parent == pid then record t { parent = 0 } else t

abbrev pub waits_for_child : ℕ → Thread → Bool
waits_for_child pid t = (t.pid == pid) && (is_blocked t.state && is_child t.blocked_on)

-- The third part: the first thread with this pid that waits for a child runs again.
unfoldable pub wake_parent : ℕ → List Thread → List Thread
wake_parent pid [] = []
wake_parent pid (t ∷ ts) =
    let rest = t ∷ wake_parent pid ts in
    if waits_for_child pid t then record t { state = State.runnable } ∷ ts else rest

abbrev pub become_zombie : ℕ → Option ℕ → Thread → Thread
become_zombie status signal t = record t {
  exit_status = some status;
  term_signal = signal;
  state = State.zombie;
}

-- `none` is the panic of an index out of range. The parent is read after the children are moved.
unfoldable pub terminate : Scheduler → ℕ → ℕ → Option ℕ → Option Scheduler
unfolding wake_parent
terminate s idx status signal = elim (get_elem? s.threads idx) [
  | none ↦ none
  | some t ↦
      let threads = map (orphan t.pid) (modify s.threads idx (become_zombie status signal)) in
      let parent_pid = (orphan t.pid t).parent in
      some
        (record s { threads = if parent_pid == 0 then threads else wake_parent parent_pid threads })
]

-- The signals whose default action does not end the process.
pub default_terminates : ℕ → Bool
default_terminates sig = not ((leb 17 sig && leb sig 23) || (sig == 28))

pub data SignalOutcome : Type 0 where
  delivered no_such_process : SignalOutcome

-- A process that a signal can reach: of this pid, with an address space of its own, and alive.
abbrev pub is_target : ℕ → Thread → Bool
is_target pid t = (t.pid == pid) && (is_some t.cr3 && is_alive t.state)

abbrev pub add_pending : ℕ → Thread → Thread
add_pending sig t = record t { pending_signals = bit_or t.pending_signals (2 ^ (sig - 1)) }

-- What `signal` does under the lock; the flag says that the caller ended itself, and then the code
-- switches away and never returns. `none` is a panic.
unfoldable pub signal : Scheduler → ℕ → ℕ → Option (Scheduler × SignalOutcome × Bool)
unfolding terminate default_terminates
signal s target_pid sig = elim (position (is_target target_pid) s.threads) [
  | none ↦ some (s, SignalOutcome.no_such_process, false)
  | some idx ↦
      let s' = record s { threads = modify s.threads idx (add_pending sig) } in
      let killed : Option (Scheduler × SignalOutcome × Bool) =
        elim (terminate s' idx (128 + sig) (some sig)) [
          | none ↦ none
          | some s'' ↦ some (s'', SignalOutcome.delivered, idx == s.current)
        ] in
      if sig == 0
      then some (s, SignalOutcome.delivered, false)
      else if default_terminates sig
      then killed
      else some (s', SignalOutcome.delivered, false)
]

pub data WaitResult : Type 0 where
  collected : ℕ → ℕ → Option ℕ → WaitResult
  would_block no_children : WaitResult

-- `none` waits for any child; `some p` for the child of pid `p`.
abbrev pub is_mine : ℕ → Option ℕ → Thread → Bool
is_mine cur_pid none t = t.parent == cur_pid
is_mine cur_pid (some p) t = (t.parent == cur_pid) && (t.pid == p)

abbrev pub unwrap_or_zero : Option ℕ → ℕ
unwrap_or_zero none = 0
unwrap_or_zero (some v) = v

abbrev pub collect : Thread → Thread
collect t = record t { state = State.dead }

abbrev pub block_on : BlockReason → Thread → Thread
block_on why t = record t { state = State.blocked; blocked_on = why }

abbrev pub my_zombie : ℕ → Option ℕ → Thread → Bool
my_zombie cur_pid want t = is_mine cur_pid want t && is_zombie t.state

abbrev pub my_alive : ℕ → Option ℕ → Thread → Bool
my_alive cur_pid want t = is_mine cur_pid want t && is_alive t.state

-- `want` is `some (want_pid as u32)` for a positive `want_pid`, else `none`. The outer `none` is
-- the panic of an index out of range.
unfoldable pub try_collect_or_block : Scheduler → Option ℕ → Option (Scheduler × WaitResult)
try_collect_or_block s want = elim (current_thread s) [
  | none ↦ none
  | some me ↦ elim (position (my_zombie me.pid want) s.threads) [
    | some i ↦ elim (get_elem? s.threads i) [
      | none ↦ none
      | some z ↦ some (
        record s { threads = modify s.threads i collect },
        collected z.pid (unwrap_or_zero z.exit_status) z.term_signal,
      )
    ]
    | none ↦ some (
        if any (my_alive me.pid want) s.threads
        then (
          record s { threads = modify s.threads s.current (block_on BlockReason.child) },
          would_block,
        )
        else (s, no_children))
  ]
]

unfoldable pub block_current : Scheduler → BlockReason → Scheduler
block_current s why = record s { threads = modify s.threads s.current (block_on why) }

abbrev pub wake_stdin : Thread → Thread
wake_stdin t =
    if is_blocked t.state && is_stdin t.blocked_on then record t { state = State.runnable } else t

unfoldable pub wake_stdin_readers : Scheduler → Scheduler
wake_stdin_readers s = record s { threads = map wake_stdin s.threads }

abbrev pub wake_pipe : Thread → Thread
wake_pipe t =
    if is_blocked t.state && is_pipe t.blocked_on then record t { state = State.runnable } else t

unfoldable pub wake_pipe_waiters : Scheduler → Scheduler
wake_pipe_waiters s = record s { threads = map wake_pipe s.threads }
