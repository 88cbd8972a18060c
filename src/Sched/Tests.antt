-- ===== src/Sched/Tests.antt =====
-- Runs of the scheduler, and the theorems on a table of two threads.
use ferros.Prelude.{ℕ, ◌<◌, ◌≡◌, refl, none, some, [], ◌∷◌, arith}
use ferros.Sched.Table.{
  State, BlockReason, Thread, Scheduler, init, push_thread, num, has_pid, is_alive_child,
}
use ferros.Sched.Calls.{terminate, try_collect_or_block, would_block}
use ferros.Sched.Turn.{to, switch_to_next}
use ferros.Sched.Rotation.{Switches, switch_to_next-Switches, distance, switch_to_next_nearer}
use ferros.Sched.Step.{Reach, spawn, wait, switch, here, next}
use ferros.Sched.Reachable.{Reach-awaited}
use ferros.Sched.Lifecycle.{Evolves}
use ferros.Sched.History.{Reach-Evolves}

abbrev task : ℕ → ℕ → State → BlockReason → Thread
task pid parent state why = record {
  pid = pid;
  parent = parent;
  exit_status = none;
  term_signal = none;
  pending_signals = 0;
  rsp = 0;
  stack = some 1;
  cr3 = some pid;
  kernel_stack_top = 0;
  fs_base = 0;
  state = state;
  blocked_on = why;
}

abbrev kernel : Thread
kernel = record (task 0 0 State.runnable BlockReason.nothing) { stack = none; cr3 = none }

-- The kernel, a shell and its child; the shell runs.
abbrev family : Scheduler
family = record {
  threads =
      kernel
      ∷ task 1 0 State.runnable BlockReason.nothing
      ∷ task 2 1 State.runnable BlockReason.nothing
      ∷ [];
  current = 1;
  kernel_cr3 = 7;
}

-- The shell waits for its child.
abbrev waiting : Scheduler
waiting = record family {
  threads =
      kernel
      ∷ task 1 0 State.blocked BlockReason.child
      ∷ task 2 1 State.runnable BlockReason.nothing
      ∷ [];
}

wait_blocks : try_collect_or_block family none ≡ some (waiting, would_block)
unfolding try_collect_or_block
wait_blocks = refl

-- The child exits, and the shell, made to run again, collects the status.
exit_wakes :
    terminate waiting 2 5 none
    ≡ some (record waiting {
      threads =
          kernel
          ∷ task 1 0 State.runnable BlockReason.child
          ∷ record (task 2 1 State.zombie BlockReason.nothing) { exit_status = some 5 }
          ∷ [];
    })
unfolding terminate
exit_wakes = refl

switch_to_next-Switches_example : Switches family (switch_to_next family)
switch_to_next-Switches_example = switch_to_next-Switches family (omega arith)

next_after_shell : switch_to_next waiting ≡ (to 2, record waiting { current = 2 })
unfolding switch_to_next
next_after_shell = refl

switch_to_next_nearer_example : distance 3 2 0 < distance 3 1 0
switch_to_next_nearer_example =
    switch_to_next_nearer waiting 0 2 (record waiting { current = 2 }) (omega arith) (omega arith)
      (λ e. absurd (omega (arith, e))) refl next_after_shell

abbrev boot : Scheduler
boot = record { threads = kernel ∷ []; current = 0; kernel_cr3 = 7 }

abbrev with_shell : Scheduler
with_shell = record boot { threads = kernel ∷ task 1 0 State.runnable BlockReason.nothing ∷ [] }

abbrev with_child : Scheduler
with_child = record family { current = 0 }

waiting_reached : Reach (init 7) waiting
unfolding init push_thread switch_to_next
waiting_reached =
    let shell : Reach (init 7) with_shell = next here (
      spawn (task 1 0 State.runnable BlockReason.nothing) (record { ready = refl; fresh = refl })
        refl) in
    let child : Reach (init 7) with_child = next shell (
      spawn (task 2 1 State.runnable BlockReason.nothing) (record { ready = refl; fresh = refl })
        refl) in
    let switched : Reach (init 7) family = next child (switch (to 1) refl) in
    next switched (wait none would_block refl wait_blocks)

Reach-awaited_example :
    (num (has_pid 1) waiting.threads ≡ 1) × (0 < num (is_alive_child 1) waiting.threads)
Reach-awaited_example =
    Reach-awaited 7 1 (task 1 0 State.blocked BlockReason.child) waiting_reached refl
      (λ e. absurd (omega (arith, e))) refl

Reach-Evolves_example : Evolves (init 7).threads waiting.threads
Reach-Evolves_example = Reach-Evolves waiting_reached
