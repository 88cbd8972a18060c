-- ===== src/Sched/Reachable.antt =====
-- The invariant on waiting parents, kept by every call of src/sched/thread.rs.
use ferros.Prelude.{
  ℕ, ◌+◌, ◌<◌, ◌≡◌, ◌≢◌, refl, sym, ap, ◌∙◌, inl, inr, Bool, true, Option, none, some, List, [],
  ◌∷◌, map, arith,
}
use ferros.Prelude.{◌==◌, Bool-cases, Option-cases, get_elem?}
use native.Mathlib.Decide.{ℕ_discrete}
use ferros.Sched.Table.{
  BlockReason, Thread, Scheduler, is_runnable, is_child, is_zombie, num, has_pid, is_alive_child,
  modify, position, any,
}
use ferros.Sched.Calls.{SignalOutcome, WaitResult, waits_for_child}
use ferros.Sched.Turn.{is_runnable_at}
use ferros.Sched.Table.{init, push_thread, set_current_fs_base, exec_replace_cr3}
use ferros.Sched.Calls.{
  terminate, signal, is_target, add_pending, default_terminates, try_collect_or_block, my_zombie,
  my_alive, collect, block_on, block_current, wake_stdin, wake_stdin_readers, wake_pipe,
  wake_pipe_waiters,
}
use ferros.Sched.Turn.{reap, switch_to_next}
use ferros.Sched.Step.{
  IsNew, Step, Reach, spawn, exit, exit_killed, exec, set_fs_base, kill, wait, block, bury_all,
  switch, here, next,
}
use ferros.Sched.Wakeup.{Inv, terminate-Inv}
use ferros.Sched.Wakeup.Num.{
  weight, num-mem, num-modify, num-map, num-append, num-reap_loop, num-pos_of_any, position-some,
}

-- A change of one thread that keeps its pid, does not make it wait, and keeps it alive if it was.
Inv-modify :
    (ts : List Thread) (i : ℕ) (f : Thread → Thread) (t : Thread)
    → Inv ts
    → get_elem? ts i ≡ some t
    → (f t).pid ≡ t.pid
    → ((p : ℕ) → waits_for_child p (f t) ≡ true → waits_for_child p t ≡ true)
    → ((p : ℕ) → is_alive_child p (f t) ≡ is_alive_child p t)
    → Inv (modify ts i f)
Inv-modify ts i f t v h same_pid less_waits same_alive = record {
  unique = λ p. ground (arith, v.unique p, num-modify (has_pid p) ts i f t h);
  awaited = λ p nz pos. ground (
    arith,
    v.awaited p nz,
    less_waits p,
    same_alive p,
    num-modify (waits_for_child p) ts i f t h,
    num-modify (is_alive_child p) ts i f t h,
  );
}

Inv-map :
    (ts : List Thread) (f : Thread → Thread)
    → Inv ts
    → ((p : ℕ) (t : Thread) → has_pid p (f t) ≡ has_pid p t)
    → ((p : ℕ) (t : Thread) → waits_for_child p (f t) ≡ waits_for_child p t)
    → ((p : ℕ) (t : Thread) → is_alive_child p (f t) ≡ is_alive_child p t)
    → Inv (map f ts)
Inv-map ts f v same_pid same_waits same_alive = record {
  unique = λ p. omega (arith, v.unique p, num-map (has_pid p) (has_pid p) f ts (same_pid p));
  awaited = λ p nz pos. omega (
    arith,
    v.awaited p nz
        (omega (arith, num-map (waits_for_child p) (waits_for_child p) f ts (same_waits p))),
    num-map (is_alive_child p) (is_alive_child p) f ts (same_alive p),
  );
}

push_thread-Inv :
    (s : Scheduler) (t : Thread) → Inv s.threads → IsNew s t → Inv (push_thread s t).threads
unfolding push_thread
push_thread-Inv s t v new = record {
  unique = λ p. elim (ℕ_discrete t.pid p) [
    | yes e ↦ ground (
      arith,
      num-append (has_pid p) s.threads (t ∷ []),
      new.fresh,
      ap (λ k. num (has_pid k) s.threads) e,
    )
    | no ne ↦ ground (arith, num-append (has_pid p) s.threads (t ∷ []), v.unique p)
  ];
  awaited = λ p nz pos. ground (
    arith,
    new.ready,
    num-append (waits_for_child p) s.threads (t ∷ []),
    num-append (is_alive_child p) s.threads (t ∷ []),
    v.awaited p nz,
  );
}

signal-Inv :
    (s s' : Scheduler) (pid sig : ℕ) (o : SignalOutcome) (self : Bool)
    → Inv s.threads
    → signal s pid sig ≡ some (s', o, self)
    → Inv s'.threads
unfolding signal
signal-Inv s s' pid sig o self v e = elim (Option-cases (position (is_target pid) s.threads)) [
  | inl nobody ↦ let same : s ≡ s' = ground arith in rw (← same) v
  | inr (i, found) ↦
      let (t, at_i, good) = position-some (is_target pid) s.threads i found in
      let pending : Inv (modify s.threads i (add_pending sig)) =
        Inv-modify s.threads i (add_pending sig) t v at_i refl (λ p h. h) (λ p. refl) in
      let s1 = record s { threads = modify s.threads i (add_pending sig) } in
      elim (Bool-cases (sig == 0)) [
        | inl probe ↦ let same : s ≡ s' = ground arith in rw (← same) v
        | inr real ↦ elim (Bool-cases (default_terminates sig)) [
          | inr ignored ↦ let same : s1 ≡ s' = ground arith in rw (← same) pending
          | inl fatal ↦ elim (Option-cases (terminate s1 i (128 + sig) (some sig))) [
            | inl panics ↦ absurd (ground arith)
            | inr (s2, ended) ↦
                let same : s2 ≡ s' = ground arith in
                rw (← same) (terminate-Inv s1 s2 i (128 + sig) (some sig) pending ended)
          ]
        ]
      ]
]

-- The current thread, which can run, begins to wait; if it waits for a child, it has one.
block-Inv :
    (ts : List Thread) (cur : ℕ) (why : BlockReason) (t : Thread)
    → Inv ts
    → get_elem? ts cur ≡ some t
    → is_runnable t.state ≡ true
    → ((is_child why ≡ true) → t.pid ≢ 0 → 0 < num (is_alive_child t.pid) ts)
    → Inv (modify ts cur (block_on why))
block-Inv ts cur why t v h can has_child = record {
  unique = λ p. omega (arith, v.unique p, num-modify (has_pid p) ts cur (block_on why) t h);
  awaited = λ p nz pos. elim (Bool-cases (waits_for_child p (block_on why t))) [
    | inl waits ↦
        ground (arith, alive p, num-modify (is_alive_child p) ts cur (block_on why) t h, has_child)
    | inr quiet ↦ omega (
      arith,
      ap weight quiet,
      num-modify (is_alive_child p) ts cur (block_on why) t h,
      ap weight (alive p),
      v.awaited p nz (
          omega (arith, ap weight quiet, num-modify (waits_for_child p) ts cur (block_on why) t h)),
    )
  ];
}
  where
    alive : (p : ℕ) → is_alive_child p (block_on why t) ≡ is_alive_child p t
    alive p = ground arith

pub runnable_current :
    (s : Scheduler)
    → is_runnable_at s.threads s.current ≡ true
    → (t : Thread) × (get_elem? s.threads s.current ≡ some t) × (is_runnable t.state ≡ true)
runnable_current s h = elim (Option-cases (get_elem? s.threads s.current)) [
  | inl outside ↦ absurd (ground arith)
  | inr (t, inside) ↦ (t, inside, rw (inside, is_runnable_at) at h)
]

alive_of_any :
    (s : Scheduler) (me : Thread) (want : Option ℕ)
    → any (my_alive me.pid want) s.threads ≡ true
    → 0 < num (is_alive_child me.pid) s.threads
alive_of_any s me none h =
    num-pos_of_any (my_alive me.pid none) (is_alive_child me.pid) s.threads (λ t k. k) h
alive_of_any s me (some p) h =
    num-pos_of_any (my_alive me.pid (some p)) (is_alive_child me.pid) s.threads
      (λ t k. ground arith) h

wait-Inv :
    (s s' : Scheduler) (want : Option ℕ) (r : WaitResult)
    → Inv s.threads
    → is_runnable_at s.threads s.current ≡ true
    → try_collect_or_block s want ≡ some (s', r)
    → Inv s'.threads
unfolding try_collect_or_block
wait-Inv s s' want r v can e =
    let (me, inside, runs) = runnable_current s can in
    elim (Option-cases (position (my_zombie me.pid want) s.threads)) [
      | inr (i, found) ↦
          let (z, at_i, good) = position-some (my_zombie me.pid want) s.threads i found in
          let same : record s { threads = modify s.threads i collect } ≡ s' = ground arith in
          rw (← same) (
            Inv-modify s.threads i collect z v at_i refl (λ p h. ground arith)
              (λ p. dead_child p z (zombie_of me.pid want z good)))
      | inl none_found ↦ elim (Bool-cases (any (my_alive me.pid want) s.threads)) [
        | inl some_alive ↦
            let same : record s {
              threads = modify s.threads s.current (block_on BlockReason.child);
            }
                ≡ s' =
              ground arith in
            rw (← same) (
              block-Inv s.threads s.current BlockReason.child me v inside runs
                (λ c nz. alive_of_any s me want some_alive))
        | inr none_alive ↦ let same : s ≡ s' = ground arith in rw (← same) v
      ]
    ]
  where
    zombie_of :
        (p : ℕ) (want : Option ℕ) (z : Thread)
        → my_zombie p want z ≡ true
        → is_zombie z.state ≡ true
    zombie_of p none z h = ground arith
    zombie_of p (some q) z h = ground arith

    dead_child :
        (p : ℕ) (z : Thread)
        → is_zombie z.state ≡ true
        → is_alive_child p (collect z) ≡ is_alive_child p z
    dead_child p z h = ground arith

reap-Inv : (s : Scheduler) → Inv s.threads → Inv (reap s).0.threads
unfolding reap
reap-Inv s v = record {
  unique =
      λ p. omega (arith, v.unique p, num-reap_loop (has_pid p) s.current 0 s.threads (λ t h. refl));
  awaited = λ p nz pos. omega (
    arith,
    v.awaited p nz (
        omega
          (arith, num-reap_loop (waits_for_child p) s.current 0 s.threads (λ t h. ground arith))),
    num-reap_loop (is_alive_child p) s.current 0 s.threads (λ t h. ground arith),
  );
}

pub threads-switch_to_next : (s : Scheduler) → (switch_to_next s).1.threads ≡ s.threads
unfolding switch_to_next
threads-switch_to_next s = ground arith

-- A new address space or FS base, which the life of the thread does not show.
exec-Inv :
    (s s' : Scheduler) (new old : ℕ)
    → Inv s.threads
    → is_runnable_at s.threads s.current ≡ true
    → exec_replace_cr3 s new ≡ some (old, s')
    → Inv s'.threads
unfolding exec_replace_cr3
exec-Inv s s' new old v can e =
    let (t, inside, runs) = runnable_current s can in
    let same : s'.threads
        ≡ modify s.threads s.current (λ u. record u { cr3 = some new; fs_base = 0 }) =
      ground arith in
    rw same (
      Inv-modify s.threads s.current (λ u. record u { cr3 = some new; fs_base = 0 }) t v inside refl
        (λ p h. h) (λ p. refl))

set_fs_base-Inv :
    (s : Scheduler) (fs_base : ℕ)
    → Inv s.threads
    → is_runnable_at s.threads s.current ≡ true
    → Inv (set_current_fs_base s fs_base).threads
unfolding set_current_fs_base
set_fs_base-Inv s fs_base v can =
    let (t, inside, runs) = runnable_current s can in
    Inv-modify s.threads s.current (λ u. record u { fs_base = fs_base }) t v inside refl (λ p h. h)
      (λ p. refl)

Step-Inv : {s s' : Scheduler} → Step s s' → Inv s.threads → Inv s'.threads
unfolding block_current wake_stdin_readers wake_pipe_waiters
Step-Inv {s} (spawn t new e) v = rw e (push_thread-Inv s t v new)
Step-Inv {s} {s'} (exit status can e) v = terminate-Inv s s' s.current status none v e
Step-Inv {s} {s'} (exit_killed sig can e) v =
    terminate-Inv s s' s.current (128 + sig) (some sig) v e
Step-Inv {s} {s'} (exec new old can e) v = exec-Inv s s' new old v can e
Step-Inv {s} (set_fs_base fs_base can e) v = rw e (set_fs_base-Inv s fs_base v can)
Step-Inv {s} {s'} (kill pid sig o self e) v = signal-Inv s s' pid sig o self v e
Step-Inv {s} {s'} (wait want r can e) v = wait-Inv s s' want r v can e
Step-Inv {s} (block why other can e) v =
    let (t, inside, runs) = runnable_current s can in rw e (block-lem why other t inside runs)
  where
    block-lem :
        (why : BlockReason)
        → why ≢ BlockReason.child
        → (t : Thread) → get_elem? s.threads s.current ≡ some t
        → is_runnable t.state ≡ true
        → Inv (block_current s why).threads
    block-lem why other t inside runs =
        block-Inv s.threads s.current why t v inside runs (λ c nz. absurd (ground arith))
Step-Inv {s} (Step.wake_stdin e) v = rw e (
    Inv-map s.threads wake_stdin v (λ p t. ground arith) (λ p t. ground arith)
      (λ p t. ground arith))
Step-Inv {s} (Step.wake_pipe e) v = rw e (
    Inv-map s.threads wake_pipe v (λ p t. ground arith) (λ p t. ground arith) (λ p t. ground arith))
Step-Inv {s} (bury_all e) v = rw e (reap-Inv s v)
Step-Inv {s} {s'} (switch w e) v = rw (sym (ap (λ r. r.1.threads) e) ∙ threads-switch_to_next s) v

Reach-Inv : {s s' : Scheduler} → Reach s s' → Inv s.threads → Inv s'.threads
Reach-Inv here v = v
Reach-Inv (next r st) v = Step-Inv st (Reach-Inv r v)

init-Inv : (kernel_cr3 : ℕ) → Inv (init kernel_cr3).threads
unfolding init
init-Inv kernel_cr3 = record {
  unique = λ p. ground arith;
  awaited = λ p nz pos. absurd (ground arith);
}

-- New threads can run and have a pid that is not in the table; a thread that exits, faults, changes
-- its image or FS base, waits or blocks can run. Then from the table at boot, after any calls that
-- change the table, a process that is blocked waiting for a
-- child (PID 0 excepted) shares its pid with no other thread, and has a child that can still run or
-- is blocked.
pub Reach-awaited :
    (kernel_cr3 : ℕ) {s : Scheduler} (i : ℕ) (t : Thread)
    → Reach (init kernel_cr3) s
    → get_elem? s.threads i ≡ some t
    → t.pid ≢ 0
    → waits_for_child t.pid t ≡ true
    → (num (has_pid t.pid) s.threads ≡ 1) × (0 < num (is_alive_child t.pid) s.threads)
Reach-awaited kernel_cr3 {s} i t r h nz waits =
    let v = Reach-Inv r (init-Inv kernel_cr3) in
    (
      ground (arith, v.unique t.pid, num-mem (has_pid t.pid) s.threads i t h),
      v.awaited t.pid nz (ground (arith, num-mem (waits_for_child t.pid) s.threads i t h)),
    )
