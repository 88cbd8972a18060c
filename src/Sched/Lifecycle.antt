-- ===== src/Sched/Lifecycle.antt =====
-- The life of a thread in src/sched/thread.rs: alive, zombie, dead, reaped, and never back.
use ferros.Prelude.{
  ℕ, zero, suc, ◌+◌, ◌≤◌, ◌≡◌, refl, ◌∙◌, ◌⊎◌, inl, inr, true, ◌&&◌, not, Option, some, List, [],
  ◌∷◌, ◌++◌, map, arith,
}
use ferros.Prelude.{◌==◌, Bool-cases, get_elem?}
use native.Mathlib.Decide.{ℕ_discrete}
use ferros.Sched.Table.{State, Thread, Scheduler, is_alive, modify}
use ferros.Sched.Calls.{waits_for_child}
use ferros.Sched.Calls.{orphan, become_zombie, wake_parent, terminate, signal}
use ferros.Sched.Turn.{is_collectable, bury, reap_loop}

abbrev pub rank : State → ℕ
rank State.runnable = 0
rank State.blocked = 0
rank State.zombie = 1
rank State.dead = 2
rank State.reaped = 3

-- How a thread may change: its pid stays, its life only runs down, its parent stays or becomes
-- PID 0, and how it ended is fixed from the moment when it ended.
pub record Ages (t u : Thread) : Type 0 where
  pub pid : u.pid ≡ t.pid
  pub life : rank t.state ≤ rank u.state
  pub parent : (u.parent ≡ t.parent) ⊎ (u.parent ≡ 0)
  pub ending :
      (rank t.state ≡ 0) ⊎ (u.exit_status ≡ t.exit_status) × (u.term_signal ≡ t.term_signal)

-- Each thread of the first table stands at its place in the second.
abbrev pub Evolves : List Thread → List Thread → Type 0
Evolves ts us =
    (i : ℕ) (t : Thread)
    → get_elem? ts i ≡ some t
    → (u : Thread) × (get_elem? us i ≡ some u) × Ages t u

pub Ages-refl : (t : Thread) → Ages t t
Ages-refl t = record {
  pid = refl;
  life = omega arith;
  parent = inl refl;
  ending = inr (refl, refl);
}

Ages-trans : (t u w : Thread) → Ages t u → Ages u w → Ages t w
Ages-trans t u w a b = record {
  pid = b.pid ∙ a.pid;
  life = omega (arith, a.life, b.life);
  parent = ground (arith, a.parent, b.parent);
  ending = ground (arith, a.ending, b.ending, a.life);
}

pub Evolves-refl : (ts : List Thread) → Evolves ts ts
Evolves-refl ts i t h = (t, h, Ages-refl t)

pub Evolves-trans : (ts us ws : List Thread) → Evolves ts us → Evolves us ws → Evolves ts ws
Evolves-trans ts us ws a b i t h =
    let (u, hu, au) = a i t h in let (w, hw, aw) = b i u hu in (w, hw, Ages-trans t u w au aw)

Evolves-cons :
    (t u : Thread) (ts us : List Thread) → Ages t u → Evolves ts us → Evolves (t ∷ ts) (u ∷ us)
Evolves-cons t u ts us a e zero x h = let same : t ≡ x = ground arith in (u, refl, rw (← same) a)
Evolves-cons t u ts us a e (suc i) x h = e i x h

pub Evolves-modify :
    (ts : List Thread) (i : ℕ) (f : Thread → Thread) (t : Thread)
    → get_elem? ts i ≡ some t
    → Ages t (f t)
    → Evolves ts (modify ts i f)
Evolves-modify [] i f t h a = Evolves-refl []
Evolves-modify (x ∷ xs) zero f t h a =
    let same : x ≡ t = ground arith in Evolves-cons x (f x) xs xs (rw same a) (Evolves-refl xs)
Evolves-modify (x ∷ xs) (suc i) f t h a =
    Evolves-cons x x xs (modify xs i f) (Ages-refl x) (Evolves-modify xs i f t h a)

pub Evolves-map :
    (ts : List Thread) (f : Thread → Thread) → ((t : Thread) → Ages t (f t)) → Evolves ts (map f ts)
Evolves-map [] f a = Evolves-refl []
Evolves-map (t ∷ ts) f a = Evolves-cons t (f t) ts (map f ts) (a t) (Evolves-map ts f a)

pub Evolves-append : (ts us : List Thread) → Evolves ts (ts ++ us)
Evolves-append [] us = λ i t h. absurd (ground arith)
Evolves-append (t ∷ ts) us = Evolves-cons t t ts (ts ++ us) (Ages-refl t) (Evolves-append ts us)

Evolves-wake_parent : (p : ℕ) (ts : List Thread) → Evolves ts (wake_parent p ts)
unfolding wake_parent
Evolves-wake_parent p [] = Evolves-refl []
Evolves-wake_parent p (t ∷ ts) = elim (Bool-cases (waits_for_child p t)) [
  | inl waits ↦
      rw waits
        (Evolves-cons t (record t { state = State.runnable }) ts ts (woken waits) (Evolves-refl ts))
  | inr other ↦
      rw other (Evolves-cons t t ts (wake_parent p ts) (Ages-refl t) (Evolves-wake_parent p ts))
]
  where
    woken : waits_for_child p t ≡ true → Ages t (record t { state = State.runnable })
    woken waits = ground arith

pub Evolves-reap_loop : (cur i : ℕ) (ts : List Thread) → Evolves ts (reap_loop cur i ts).0
unfolding reap_loop
Evolves-reap_loop cur i [] = Evolves-refl []
Evolves-reap_loop cur i (t ∷ ts) = elim (Bool-cases (not (i == cur) && is_collectable t)) [
  | inl gone ↦ rw gone (
      Evolves-cons t (bury t) ts (reap_loop cur (i + 1) ts).0 (buried gone)
        (Evolves-reap_loop cur (i + 1) ts))
  | inr stays ↦ rw stays (
      Evolves-cons t t ts (reap_loop cur (i + 1) ts).0 (Ages-refl t)
        (Evolves-reap_loop cur (i + 1) ts))
]
  where
    buried : (not (i == cur) && is_collectable t) ≡ true → Ages t (bury t)
    buried gone = ground arith

pub terminate-Evolves :
    (s s' : Scheduler) (idx status : ℕ) (signal : Option ℕ) (t : Thread)
    → get_elem? s.threads idx ≡ some t
    → is_alive t.state ≡ true
    → terminate s idx status signal ≡ some s'
    → Evolves s.threads s'.threads
unfolding terminate
terminate-Evolves s s' idx status signal t inside alive e =
    elim (ℕ_discrete (orphan t.pid t).parent 0) [
      | yes root ↦ let same : s'.threads ≡ orphaned = ground arith in rw same ends
      | no other ↦
          let same : s'.threads ≡ wake_parent (orphan t.pid t).parent orphaned = ground arith in
          rw same (
            Evolves-trans s.threads orphaned (wake_parent (orphan t.pid t).parent orphaned) ends
              (Evolves-wake_parent (orphan t.pid t).parent orphaned))
    ]
  where
    ended : List Thread
    ended = modify s.threads idx (become_zombie status signal)

    orphaned : List Thread
    orphaned = map (orphan t.pid) ended

    zombie_ages : Ages t (become_zombie status signal t)
    zombie_ages = ground arith

    ends : Evolves s.threads orphaned
    ends =
        Evolves-trans s.threads ended orphaned
          (Evolves-modify s.threads idx (become_zombie status signal) t inside zombie_ages)
          (Evolves-map ended (orphan t.pid) (λ u. ground arith))
