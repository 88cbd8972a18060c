-- ===== src/Sched/Turn.antt =====
-- src/sched/thread.rs: reaping, and the choice of the next thread.
use ferros.Prelude.{
  ℕ, zero, suc, ◌+◌, ◌-◌, ◌%◌, Bool, false, ◌&&◌, ◌||◌, not, Option, none, some, List, [], ◌∷◌,
}
use ferros.Prelude.{if◌then◌else◌, ◌==◌, length, get_elem?}
use ferros.Sched.Table.{State, Thread, Scheduler, is_runnable, is_zombie, is_dead}

-- Dead, or a zombie that nobody can wait for.
abbrev pub is_collectable : Thread → Bool
is_collectable t = is_dead t.state || (is_zombie t.state && (t.parent == 0))

-- The page table and the stack of a thread, which `reap` gives back after the lock is released.
abbrev pub Corpse : Type 0
Corpse = Option ℕ × Option ℕ

abbrev pub bury : Thread → Thread
bury t = record t { cr3 = none; stack = none; state = State.reaped }

-- The loop of `reap` over the table, from index `i` on.
unfoldable pub reap_loop : ℕ → ℕ → List Thread → List Thread × List Corpse
reap_loop cur i [] = ([], [])
reap_loop cur i (t ∷ ts) =
    let (rest, corpses) = reap_loop cur (i + 1) ts in
    if not (i == cur) && is_collectable t
    then (bury t ∷ rest, (t.cr3, t.stack) ∷ corpses)
    else (t ∷ rest, corpses)

-- With the frame allocator installed; without it the call does nothing.
unfoldable pub reap : Scheduler → Scheduler × List Corpse
unfolding reap_loop
reap s =
    let (threads, corpses) = reap_loop s.current 0 s.threads in
    (record s { threads = threads }, corpses)

abbrev pub is_runnable_at : List Thread → ℕ → Bool
is_runnable_at ts i = elim (get_elem? ts i) [ none ↦ false | some t ↦ is_runnable t.state ]

-- The search of `switch_to_next`: `left` candidates from `(cur + i) % len` on.
unfoldable pub next_runnable : List Thread → ℕ → ℕ → ℕ → Option ℕ
next_runnable ts cur zero i = none
next_runnable ts cur (suc left) i =
    let c = (cur + i) % length ts in
    let rest = next_runnable ts cur left (i + 1) in if is_runnable_at ts c then some c else rest

pub data Switch : Type 0 where
  to : ℕ → Switch
  stay panic : Switch

-- The choice of `switch_to_next`; `panic` is its failed assertion.
unfoldable pub switch_to_next : Scheduler → Switch × Scheduler
unfolding next_runnable
switch_to_next s = elim (next_runnable s.threads s.current (length s.threads - 1) 1) [
  | some n ↦ (to n, record s { current = n })
  | none ↦ (if is_runnable_at s.threads s.current then stay else panic, s)
]
