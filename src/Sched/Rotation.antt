-- ===== src/Sched/Rotation.antt =====
-- `switch_to_next` of src/sched/thread.rs: which thread runs next.
use ferros.Prelude.{
  ℕ, zero, suc, ◌+◌, ◌-◌, ◌%◌, ◌≤◌, ◌<◌, ◌≡◌, ◌≢◌, refl, sym, subst, inl, inr, true, false, Option,
  none, some, List, arith,
}
use ferros.Prelude.{if◌then◌else◌, ltb, leb, Bool-cases, Option-cases, length}
use native.Mathlib.Decide.{dec_lt, ℕ_discrete}
use native.Mathlib.Nat.{mod-eq_of_lt, mod-eq-sub-mod}
use ferros.Sched.Table.{Thread, Scheduler}
use ferros.Sched.Turn.{Switch, to, stay, panic, is_runnable_at, next_runnable, switch_to_next}

-- The candidates number `from` up to `upto`, counted from the current thread, cannot run.
abbrev pub NoneBetween : List Thread → ℕ → ℕ → ℕ → Type 0
NoneBetween ts cur from upto =
    (j : ℕ) → from ≤ j → j < upto → is_runnable_at ts ((cur + j) % length ts) ≡ false

-- Thread `n` is the first that can run after the current one, going round the table.
abbrev pub IsFirst : List Thread → ℕ → ℕ → ℕ → ℕ → Type 0
IsFirst ts cur from upto n =
    (i : ℕ) × (from ≤ i)
    × (i < upto)
    × (n ≡ (cur + i) % length ts)
    × (is_runnable_at ts n ≡ true)
    × NoneBetween ts cur from i

abbrev Search : List Thread → ℕ → ℕ → ℕ → Option ℕ → Type 0
Search ts cur from upto none = NoneBetween ts cur from upto
Search ts cur from upto (some n) = IsFirst ts cur from upto n

NoneBetween-cons :
    (ts : List Thread) (cur from upto : ℕ)
    → is_runnable_at ts ((cur + from) % length ts) ≡ false
    → NoneBetween ts cur (from + 1) upto
    → NoneBetween ts cur from upto
NoneBetween-cons ts cur from upto first rest j h k = elim (ℕ_discrete from j) [
  | yes e ↦ subst (λ m. is_runnable_at ts ((cur + m) % length ts) ≡ false) e first
  | no ne ↦ rest j (omega arith) k
]

next_runnable-Search :
    (ts : List Thread) (cur left from upto : ℕ)
    → from + left ≡ upto
    → Search ts cur from upto (next_runnable ts cur left from)
unfolding next_runnable
next_runnable-Search ts cur zero from upto e = λ j h k. absurd (omega arith)
next_runnable-Search ts cur (suc left) from upto e =
    elim (Bool-cases (is_runnable_at ts ((cur + from) % length ts))) [
      | inl can ↦ rw can (from, omega arith, omega arith, refl, can, λ j h k. absurd (omega arith))
      | inr cannot ↦ rw cannot (
          later (next_runnable ts cur left (from + 1)) cannot
            (next_runnable-Search ts cur left (from + 1) upto (omega arith)))
    ]
  where
    later :
        (o : Option ℕ)
        → is_runnable_at ts ((cur + from) % length ts) ≡ false
        → Search ts cur (from + 1) upto o
        → Search ts cur from upto o
    later none cannot s = NoneBetween-cons ts cur from upto cannot s
    later (some n) cannot (i, lo, hi, place, can, before) =
        (i, omega arith, hi, place, can, NoneBetween-cons ts cur from i cannot before)

-- Each index of the table other than the current one is one of the candidates.
abbrev pub distance : ℕ → ℕ → ℕ → ℕ
distance len cur k = if leb cur k then k - cur else k + len - cur

mod_wrap : (len a : ℕ) → a < len + len → a % len ≡ (if ltb a len then a else a - len)
mod_wrap len a h = elim (dec_lt a len) [
  | yes p ↦ ground (arith, mod-eq_of_lt p)
  | no p ↦ ground (
    arith,
    mod-eq-sub-mod {n = a} {m = len} (omega arith),
    mod-eq_of_lt {n = a - len} {m = len} (omega arith),
  )
]

add-distance : (len cur k : ℕ) → cur < len → k < len → (cur + distance len cur k) % len ≡ k
add-distance len cur k p q = ground (arith, mod_wrap len (cur + distance len cur k))

distance-add :
    (len cur k i : ℕ)
    → cur < len
    → k < len
    → 1 ≤ i
    → i ≤ distance len cur k
    → distance len ((cur + i) % len) k < distance len cur k
distance-add len cur k i p q h le = ground (arith, mod_wrap len (cur + i))

-- What `switch_to_next` does, on each of its ways out.
abbrev pub Switches : Scheduler → Switch × Scheduler → Type 0
Switches s (to n, s') =
    IsFirst s.threads s.current 1 (length s.threads) n × (s' ≡ record s { current = n })
Switches s (stay, s') =
    ((k : ℕ) → k < length s.threads → k ≢ s.current → is_runnable_at s.threads k ≡ false)
    × (is_runnable_at s.threads s.current ≡ true)
    × (s' ≡ s)
Switches s (panic, s') = (k : ℕ) → k < length s.threads → is_runnable_at s.threads k ≡ false

-- If the current index is in the table, the next thread is the first that can run behind the
-- current one, going round the table. The current one stays if it alone can run, and the assertion
-- fails only if none can.
pub switch_to_next-Switches :
    (s : Scheduler) → s.current < length s.threads → Switches s (switch_to_next s)
unfolding switch_to_next
switch_to_next-Switches s h = elim (Option-cases (next_runnable ts cur (length ts - 1) 1)) [
  | inr (n, found) ↦ rw (found, switch_to_next) (rw found at searched, refl)
  | inl fails ↦ elim (Bool-cases (is_runnable_at ts cur)) [
    | inl can ↦ rw (fails, can, switch_to_next) (others (rw fails at searched), can, refl)
    | inr cannot ↦
        rw (fails, cannot, switch_to_next)
          (λ k hk. elim (ℕ_discrete k cur) [
            | yes e ↦ subst (λ m. is_runnable_at ts m ≡ false) (sym e) cannot
            | no ne ↦ others (rw fails at searched) k hk ne
          ])
  ]
]
  where
    ts : List Thread
    ts = s.threads

    cur : ℕ
    cur = s.current

    searched : Search ts cur 1 (length ts) (next_runnable ts cur (length ts - 1) 1)
    searched = next_runnable-Search ts cur (length ts - 1) 1 (length ts) (omega arith)

    others :
        NoneBetween ts cur 1 (length ts)
        → (k : ℕ) → k < length ts
        → k ≢ cur
        → is_runnable_at ts k ≡ false
    others none_can k hk ne =
        subst (λ m. is_runnable_at ts m ≡ false) (add-distance (length ts) cur k h hk)
          (none_can (distance (length ts) cur k) (ground arith) (ground arith))

-- If the current index is in the table, each switch to another thread brings a thread of the table
-- that can run, and is not the current one, strictly nearer to its turn, or gives it the turn.
pub switch_to_next_nearer :
    (s : Scheduler) (k n : ℕ) (s' : Scheduler)
    → s.current < length s.threads
    → k < length s.threads
    → k ≢ s.current
    → is_runnable_at s.threads k ≡ true
    → switch_to_next s ≡ (to n, s')
    → distance (length s.threads) n k < distance (length s.threads) s.current k
switch_to_next_nearer s k n s' h hk ne can e =
    let switched : Switches s (to n, s') = rw e at (switch_to_next-Switches s h) in
    let (i, lo, hi, place, runs, before) = switched.0 in
    elim (dec_lt (distance len s.current k) i) [
      | yes early ↦
          let cannot : is_runnable_at s.threads k ≡ false =
            subst (λ m. is_runnable_at s.threads m ≡ false) (add-distance len s.current k h hk)
              (before (distance len s.current k) (ground arith) early) in
          absurd (ground arith)
      | no late ↦ rw place (distance-add len s.current k i h hk lo (omega arith))
    ]
  where
    len : ℕ
    len = length s.threads
