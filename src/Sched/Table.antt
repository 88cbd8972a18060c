-- ===== src/Sched/Table.antt =====
-- src/sched/thread.rs: threads, the table of them, and the calls that read or change one entry.
use ferros.Prelude.{
  ℕ, zero, suc, ◌+◌, ◌%◌, ◌^◌, Bool, true, false, ◌&&◌, ◌||◌, Option, none, some, List, [], ◌∷◌,
  ◌++◌,
}
use ferros.Prelude.{if◌then◌else◌, ◌==◌, get_elem?}

pub data State : Type 0 where
  runnable blocked zombie dead reaped : State

pub data BlockReason : Type 0 where
  nothing child stdin pipe : BlockReason

-- `exit_status` holds the 32-bit pattern of the status.
pub record Thread : Type 0 where
  pub pid : ℕ
  pub parent : ℕ
  pub exit_status : Option ℕ
  pub term_signal : Option ℕ
  pub pending_signals : ℕ
  pub rsp : ℕ
  pub stack : Option ℕ
  pub cr3 : Option ℕ
  pub kernel_stack_top : ℕ
  pub fs_base : ℕ
  pub state : State
  pub blocked_on : BlockReason

pub record Scheduler : Type 0 where
  pub threads : List Thread
  pub current : ℕ
  pub kernel_cr3 : ℕ

abbrev pub is_runnable : State → Bool
is_runnable State.runnable = true
is_runnable _ = false

abbrev pub is_blocked : State → Bool
is_blocked State.blocked = true
is_blocked _ = false

abbrev pub is_zombie : State → Bool
is_zombie State.zombie = true
is_zombie _ = false

abbrev pub is_dead : State → Bool
is_dead State.dead = true
is_dead _ = false

-- `matches!(state, State::Runnable | State::Blocked)`
abbrev pub is_alive : State → Bool
is_alive State.runnable = true
is_alive State.blocked = true
is_alive _ = false

abbrev pub is_some {ℓ} : {A : Type ℓ} → Option A → Bool
is_some none = false
is_some (some a) = true

abbrev pub is_child : BlockReason → Bool
is_child BlockReason.child = true
is_child _ = false

abbrev pub is_stdin : BlockReason → Bool
is_stdin BlockReason.stdin = true
is_stdin _ = false

abbrev pub is_pipe : BlockReason → Bool
is_pipe BlockReason.pipe = true
is_pipe _ = false

-- `threads[i]` changed in place; the callers index within the table.
abbrev pub modify {ℓ} : {A : Type ℓ} → List A → ℕ → (A → A) → List A
modify [] i f = []
modify (t ∷ ts) zero f = f t ∷ ts
modify (t ∷ ts) (suc i) f = t ∷ modify ts i f

-- `iter().position(p)`
abbrev pub position {ℓ} : {A : Type ℓ} → (A → Bool) → List A → Option ℕ
position p [] = none
position p (t ∷ ts) =
    let rest = position p ts in
    if p t then some 0 else elim rest [ none ↦ none | some i ↦ some (suc i) ]

-- `iter().any(p)`
abbrev pub any {ℓ} : {A : Type ℓ} → (A → Bool) → List A → Bool
any p [] = false
any p (t ∷ ts) = p t || any p ts

-- The table with the kernel's own thread, PID 0, alone.
unfoldable pub init : ℕ → Scheduler
init kernel_cr3 = record {
  threads =
      record {
        pid = 0;
        parent = 0;
        exit_status = none;
        term_signal = none;
        pending_signals = 0;
        rsp = 0;
        stack = none;
        cr3 = none;
        kernel_stack_top = 0;
        fs_base = 0;
        state = State.runnable;
        blocked_on = BlockReason.nothing;
      }
      ∷ [];
  current = 0;
  kernel_cr3 = kernel_cr3;
}

abbrev pub current_thread : Scheduler → Option Thread
current_thread s = get_elem? s.threads s.current

pub current_pid : Scheduler → ℕ
current_pid s = elim (current_thread s) [ none ↦ 0 | some t ↦ t.pid ]

pub current_ppid : Scheduler → ℕ
current_ppid s = elim (current_thread s) [ none ↦ 0 | some t ↦ t.parent ]

unfoldable pub push_thread : Scheduler → Thread → Scheduler
push_thread s t = record s { threads = s.threads ++ (t ∷ []) }

-- `next_pid` is the counter NEXT_PID, which the call moves on; a pid has 32 bits.
pub add_user_task : Scheduler → ℕ → ℕ → ℕ → ℕ → ℕ → ℕ → Scheduler × ℕ
unfolding push_thread current_pid
add_user_task s next_pid rsp cr3 kernel_stack_top kstack fs_base = (
  push_thread s (record {
    pid = next_pid;
    parent = current_pid s;
    exit_status = none;
    term_signal = none;
    pending_signals = 0;
    rsp = rsp;
    stack = some kstack;
    cr3 = some cr3;
    kernel_stack_top = kernel_stack_top;
    fs_base = fs_base;
    state = State.runnable;
    blocked_on = BlockReason.nothing;
  }),
  (next_pid + 1) % 2 ^ 32,
)

unfoldable pub set_current_fs_base : Scheduler → ℕ → Scheduler
set_current_fs_base s fs_base = record s {
  threads = modify s.threads s.current (λ t. record t { fs_base = fs_base });
}

-- `none` is the panic of a thread that has no address space.
unfoldable pub exec_replace_cr3 : Scheduler → ℕ → Option (ℕ × Scheduler)
exec_replace_cr3 s new = elim (current_thread s) [
  | none ↦ none
  | some t ↦ elim t.cr3 [
    | none ↦ none
    | some old ↦ some (
      old,
      record s {
        threads = modify s.threads s.current (λ u. record u { cr3 = some new; fs_base = 0 });
      },
    )
  ]
]

-- How many threads pass a test; a way to speak of the table.
abbrev pub num : (Thread → Bool) → List Thread → ℕ
num p [] = 0
num p (t ∷ ts) = (if p t then 1 else 0) + num p ts

abbrev pub has_pid : ℕ → Thread → Bool
has_pid p t = t.pid == p

-- A live child of the process `p`.
abbrev pub is_alive_child : ℕ → Thread → Bool
is_alive_child p t = (t.parent == p) && is_alive t.state
