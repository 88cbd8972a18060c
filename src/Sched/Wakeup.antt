-- ===== src/Sched/Wakeup.antt =====
-- No thread of src/sched/thread.rs waits for a child that is gone: an invariant of the table.
pub mod Num
use ferros.Prelude.{
  ℕ, zero, suc, ◌+◌, ◌-◌, ◌≤◌, ◌<◌, ◌≡◌, ◌≢◌, refl, sym, ap, ◌∙◌, ◌⊎◌, inl, inr, Bool, true, false,
  ◌&&◌, ◌||◌, Option, none, some, List, [], ◌∷◌, ◌++◌, map, arith,
}
use ferros.Prelude.{if◌then◌else◌, leb, ◌==◌, Bool-cases, Option-cases, length, get_elem?}
use ferros.Sched.Table.{
  State, BlockReason, Thread, Scheduler, is_alive, num, has_pid, is_alive_child, modify, position,
  any,
}
use ferros.Sched.Calls.{waits_for_child}
use ferros.Sched.Turn.{is_runnable_at}
use ferros.Sched.Calls.{orphan, become_zombie, wake_parent, terminate, wake_stdin, wake_pipe}
use ferros.Sched.Turn.{bury, reap_loop, is_collectable}
use native.Mathlib.Decide.{ℕ_discrete}
use Num.{
  weight, num-modify, num-map, num-mem, num-split, idle, num-wake_parent, num-wake_parent_self,
}

-- Pids are not shared, and whoever waits for a child (PID 0 excepted) has one that is alive.
pub record Inv (ts : List Thread) : Type 0 where
  pub unique : (p : ℕ) → num (has_pid p) ts ≤ 1
  pub awaited : (p : ℕ) → p ≢ 0 → 0 < num (waits_for_child p) ts → 0 < num (is_alive_child p) ts

module _ (ts : List Thread) (v : Inv ts) (idx : ℕ) (t : Thread) (at_idx : get_elem? ts idx ≡ some t)
    (status : ℕ) (signal : Option ℕ) where
  abbrev ended : List Thread
  ended = modify ts idx (become_zombie status signal)

  abbrev orphaned : List Thread
  orphaned = map (orphan t.pid) ended

  has_pid-orphaned : (p : ℕ) → num (has_pid p) orphaned ≡ num (has_pid p) ts
  has_pid-orphaned p = omega (
    arith,
    num-map (has_pid p) (has_pid p) (orphan t.pid) ended (λ u. ground arith),
    num-modify (has_pid p) ts idx (become_zombie status signal) t at_idx,
  )

  waits-orphaned :
      (p : ℕ)
      → num (waits_for_child p) orphaned + weight (waits_for_child p t) ≡ num (waits_for_child p) ts
  waits-orphaned p = omega (
    arith,
    num-map (waits_for_child p) (waits_for_child p) (orphan t.pid) ended (λ u. ground arith),
    num-modify (waits_for_child p) ts idx (become_zombie status signal) t at_idx,
    not_waiting p,
  )
    where
      not_waiting : (p : ℕ) → weight (waits_for_child p (become_zombie status signal t)) ≡ 0
      not_waiting p = ground arith

  -- The thread that ended waits no more, and nobody shares its pid.
  waits-orphaned_self : num (waits_for_child t.pid) orphaned ≡ 0
  waits-orphaned_self = ground (
    arith,
    waits-orphaned t.pid,
    num-split t.pid ts,
    v.unique t.pid,
    num-mem (idle t.pid) ts idx t at_idx,
  )

  alive-orphaned :
      (p : ℕ)
      → p ≢ 0
      → p ≢ t.pid
      → p ≢ (orphan t.pid t).parent
      → num (is_alive_child p) orphaned ≡ num (is_alive_child p) ts
  alive-orphaned p nz other not_parent =
      let kept : num (is_alive_child p) orphaned ≡ num (is_alive_child p) ended =
        num-map (is_alive_child p) (is_alive_child p) (orphan t.pid) ended (λ u. ground arith) in
      let not_child : weight (is_alive_child p t) ≡ 0 = ground arith in
      let gone : weight (is_alive_child p (become_zombie status signal t)) ≡ 0 = ground arith in
      omega (
        arith,
        kept,
        num-modify (is_alive_child p) ts idx (become_zombie status signal) t at_idx,
        not_child,
        gone,
      )

  abbrev parent_pid : ℕ
  parent_pid = (orphan t.pid t).parent

  Inv-orphaned : parent_pid ≡ 0 → Inv orphaned
  Inv-orphaned e = record {
    unique = λ p. omega (arith, has_pid-orphaned p, v.unique p);
    awaited = λ p nz pos. elim (ℕ_discrete p t.pid) [
      | yes self ↦
          absurd
            (omega (arith, waits-orphaned_self, ap (λ k. num (waits_for_child k) orphaned) self))
      | no other ↦ omega (
        arith,
        alive-orphaned p nz other (omega arith),
        waits-orphaned p,
        v.awaited p nz (omega (arith, waits-orphaned p)),
      )
    ];
  }

  Inv-woken : parent_pid ≢ 0 → Inv (wake_parent parent_pid orphaned)
  Inv-woken ne = record {
    unique = λ p. omega (arith, same_pid p, has_pid-orphaned p, v.unique p);
    awaited = λ p nz pos. elim (ℕ_discrete p parent_pid) [
      | yes e ↦ absurd (
          omega
            (arith, awake, ap (λ k. num (waits_for_child k) (wake_parent parent_pid orphaned)) e))
      | no apart ↦ elim (ℕ_discrete p t.pid) [
        | yes self ↦ absurd (
            omega (
              arith,
              same_waits p apart,
              waits-orphaned_self,
              ap (λ k. num (waits_for_child k) orphaned) self,
            ))
        | no other ↦ omega (
          arith,
          same_alive p,
          same_waits p apart,
          alive-orphaned p nz other apart,
          waits-orphaned p,
          v.awaited p nz (omega (arith, waits-orphaned p, same_waits p apart)),
        )
      ]
    ];
  }
    where
      same_pid :
          (p : ℕ) → num (has_pid p) (wake_parent parent_pid orphaned) ≡ num (has_pid p) orphaned
      same_pid p = num-wake_parent (has_pid p) parent_pid orphaned (λ u h. refl)

      same_alive :
          (p : ℕ)
          → num (is_alive_child p) (wake_parent parent_pid orphaned)
            ≡ num (is_alive_child p) orphaned
      same_alive p = num-wake_parent (is_alive_child p) parent_pid orphaned (λ u h. ground arith)

      same_waits :
          (p : ℕ)
          → p ≢ parent_pid
          → num (waits_for_child p) (wake_parent parent_pid orphaned)
            ≡ num (waits_for_child p) orphaned
      same_waits p apart =
          num-wake_parent (waits_for_child p) parent_pid orphaned (λ u h. ground arith)

      awake : num (waits_for_child parent_pid) (wake_parent parent_pid orphaned) ≡ 0
      awake = omega (
        arith,
        num-wake_parent_self parent_pid orphaned,
        num-split parent_pid orphaned,
        has_pid-orphaned parent_pid,
        v.unique parent_pid,
      )

pub terminate-Inv :
    (s s' : Scheduler) (idx status : ℕ) (signal : Option ℕ)
    → Inv s.threads
    → terminate s idx status signal ≡ some s'
    → Inv s'.threads
unfolding terminate
terminate-Inv s s' idx status signal v e = elim (Option-cases (get_elem? s.threads idx)) [
  | inl outside ↦ absurd (ground arith)
  | inr (t, inside) ↦ elim (ℕ_discrete (orphan t.pid t).parent 0) [
    | yes root ↦
        let same : s'.threads
            ≡ map (orphan t.pid) (modify s.threads idx (become_zombie status signal)) =
          ground arith in
        rw same (Inv-orphaned s.threads v idx t inside status signal root)
    | no other ↦
        let same : s'.threads
            ≡ wake_parent (orphan t.pid t).parent
                (map (orphan t.pid) (modify s.threads idx (become_zombie status signal))) =
          ground arith in
        rw same (Inv-woken s.threads v idx t inside status signal other)
  ]
]
