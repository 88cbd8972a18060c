-- ===== src/Sched/History.antt =====
-- Every call of src/sched/thread.rs lets each thread only age.
use ferros.Prelude.{
  ℕ, ◌+◌, ◌≡◌, sym, ap, ◌∙◌, inl, inr, Bool, true, Option, none, some, [], ◌∷◌, arith,
}
use ferros.Prelude.{◌==◌, Bool-cases, Option-cases}
use ferros.Sched.Table.{BlockReason, Thread, Scheduler, modify, position, any}
use ferros.Sched.Calls.{SignalOutcome, WaitResult}
use ferros.Sched.Turn.{is_runnable_at}
use ferros.Sched.Table.{push_thread, set_current_fs_base, exec_replace_cr3}
use ferros.Sched.Calls.{
  terminate, signal, is_target, add_pending, default_terminates, try_collect_or_block, my_zombie,
  my_alive, collect, block_on, block_current, wake_stdin, wake_stdin_readers, wake_pipe,
  wake_pipe_waiters,
}
use ferros.Sched.Turn.{reap}
use ferros.Sched.Step.{
  Step, Reach, spawn, exit, exit_killed, exec, set_fs_base, kill, wait, block, bury_all, switch,
  here, next,
}
use ferros.Sched.Wakeup.Num.{position-some, get_elem?-modify}
use ferros.Sched.Reachable.{runnable_current, threads-switch_to_next}
use ferros.Sched.Lifecycle.{
  Ages, Evolves, Evolves-refl, Evolves-trans, Evolves-modify, Evolves-map, Evolves-append,
  Evolves-reap_loop, terminate-Evolves,
}

signal-Evolves :
    (s s' : Scheduler) (pid sig : ℕ) (o : SignalOutcome) (self : Bool)
    → signal s pid sig ≡ some (s', o, self)
    → Evolves s.threads s'.threads
unfolding signal
signal-Evolves s s' pid sig o self e = elim (Option-cases (position (is_target pid) s.threads)) [
  | inl nobody ↦ let same : s ≡ s' = ground arith in rw (← same) (Evolves-refl s.threads)
  | inr (i, found) ↦
      let (t, at_i, good) = position-some (is_target pid) s.threads i found in
      let pending = Evolves-modify s.threads i (add_pending sig) t at_i (ground arith) in
      let s1 = record s { threads = modify s.threads i (add_pending sig) } in
      elim (Bool-cases (sig == 0)) [
        | inl probe ↦ let same : s ≡ s' = ground arith in rw (← same) (Evolves-refl s.threads)
        | inr real ↦ elim (Bool-cases (default_terminates sig)) [
          | inr ignored ↦ let same : s1 ≡ s' = ground arith in rw (← same) pending
          | inl fatal ↦ elim (Option-cases (terminate s1 i (128 + sig) (some sig))) [
            | inl panics ↦ absurd (ground arith)
            | inr (s2, ended) ↦
                let same : s2 ≡ s' = ground arith in
                rw (← same) (
                  Evolves-trans s.threads s1.threads s2.threads pending (
                    terminate-Evolves s1 s2 i (128 + sig) (some sig) (add_pending sig t)
                      (get_elem?-modify s.threads i (add_pending sig) t at_i) (ground arith) ended))
          ]
        ]
      ]
]

wait-Evolves :
    (s s' : Scheduler) (want : Option ℕ) (r : WaitResult)
    → is_runnable_at s.threads s.current ≡ true
    → try_collect_or_block s want ≡ some (s', r)
    → Evolves s.threads s'.threads
unfolding try_collect_or_block
wait-Evolves s s' want r can e =
    let (me, inside, runs) = runnable_current s can in
    elim (Option-cases (position (my_zombie me.pid want) s.threads)) [
      | inr (i, found) ↦
          let (z, at_i, good) = position-some (my_zombie me.pid want) s.threads i found in
          let same : record s { threads = modify s.threads i collect } ≡ s' = ground arith in
          rw (← same) (Evolves-modify s.threads i collect z at_i (collected me.pid want z good))
      | inl none_found ↦ elim (Bool-cases (any (my_alive me.pid want) s.threads)) [
        | inl some_alive ↦
            let same : record s {
              threads = modify s.threads s.current (block_on BlockReason.child);
            }
                ≡ s' =
              ground arith in
            rw (← same) (
              Evolves-modify s.threads s.current (block_on BlockReason.child) me inside
                (ground arith))
        | inr none_alive ↦ let same : s ≡ s' = ground arith in rw (← same) (Evolves-refl s.threads)
      ]
    ]
  where
    collected :
        (p : ℕ) (want : Option ℕ) (z : Thread) → my_zombie p want z ≡ true → Ages z (collect z)
    collected p none z h = ground arith
    collected p (some q) z h = ground arith

exec-Evolves :
    (s s' : Scheduler) (new old : ℕ)
    → is_runnable_at s.threads s.current ≡ true
    → exec_replace_cr3 s new ≡ some (old, s')
    → Evolves s.threads s'.threads
unfolding exec_replace_cr3
exec-Evolves s s' new old can e =
    let (t, inside, runs) = runnable_current s can in
    let same : s'.threads
        ≡ modify s.threads s.current (λ u. record u { cr3 = some new; fs_base = 0 }) =
      ground arith in
    rw same (
      Evolves-modify s.threads s.current (λ u. record u { cr3 = some new; fs_base = 0 }) t inside
        (ground arith))

Step-Evolves : {s s' : Scheduler} → Step s s' → Evolves s.threads s'.threads
unfolding push_thread block_current wake_stdin_readers wake_pipe_waiters reap set_current_fs_base
Step-Evolves {s} (spawn t new e) = rw e (Evolves-append s.threads (t ∷ []))
Step-Evolves {s} {s'} (exit status can e) =
    let (t, inside, runs) = runnable_current s can in
    terminate-Evolves s s' s.current status none t inside (ground arith) e
Step-Evolves {s} {s'} (exit_killed sig can e) =
    let (t, inside, runs) = runnable_current s can in
    terminate-Evolves s s' s.current (128 + sig) (some sig) t inside (ground arith) e
Step-Evolves {s} {s'} (exec new old can e) = exec-Evolves s s' new old can e
Step-Evolves {s} (set_fs_base fs_base can e) =
    let (t, inside, runs) = runnable_current s can in
    rw e (
      Evolves-modify s.threads s.current (λ u. record u { fs_base = fs_base }) t inside
        (ground arith))
Step-Evolves {s} {s'} (kill pid sig o self e) = signal-Evolves s s' pid sig o self e
Step-Evolves {s} {s'} (wait want r can e) = wait-Evolves s s' want r can e
Step-Evolves {s} (block why other can e) =
    let (t, inside, runs) = runnable_current s can in
    rw e (Evolves-modify s.threads s.current (block_on why) t inside (ground arith))
Step-Evolves {s} (Step.wake_stdin e) = rw e (Evolves-map s.threads wake_stdin (λ t. ground arith))
Step-Evolves {s} (Step.wake_pipe e) = rw e (Evolves-map s.threads wake_pipe (λ t. ground arith))
Step-Evolves {s} (bury_all e) = rw e (Evolves-reap_loop s.current 0 s.threads)
Step-Evolves {s} {s'} (switch w e) =
    rw (sym (ap (λ r. r.1.threads) e) ∙ threads-switch_to_next s) (Evolves-refl s.threads)

-- New threads can run and have a pid that is not in the table; a thread that exits, faults, changes
-- its image or FS base, waits or blocks can run. Then after any calls that change the table each
-- thread stands where it stood, under its pid; its life
-- has run down or is the same (running or blocked, zombie, dead, reaped), so none that ended runs
-- again; its parent is the same or PID 0; and if it had ended, its exit status and signal are what
-- they were.
pub Reach-Evolves : {s s' : Scheduler} → Reach s s' → Evolves s.threads s'.threads
Reach-Evolves {s} here = Evolves-refl s.threads
Reach-Evolves {s} {s'} (next {t = m} r st) =
    Evolves-trans s.threads m.threads s'.threads (Reach-Evolves r) (Step-Evolves st)
