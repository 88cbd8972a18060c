-- ===== src/Sched/Wakeup/Num.antt =====
-- How the operations of src/sched/thread.rs change the number of threads that pass a test.
use ferros.Prelude.{
  ℕ, zero, suc, ◌+◌, ◌-◌, ◌≤◌, ◌<◌, ◌≡◌, refl, ap, inl, inr, Bool, true, ◌&&◌, not, Option, some,
  List, [], ◌∷◌, ◌++◌, map, arith,
}
use mathlib.Core.Option
use ferros.Prelude.{if◌then◌else◌, ◌==◌, Bool-cases, Option-cases, get_elem?}
use ferros.Sched.Table.{State, Thread, num, has_pid, modify, position, any}
use ferros.Sched.Calls.{waits_for_child, wake_parent}
use ferros.Sched.Turn.{is_collectable, bury, reap_loop}

abbrev pub weight : Bool → ℕ
weight b = if b then 1 else 0

pub num-modify :
    (p : Thread → Bool) (ts : List Thread) (i : ℕ) (f : Thread → Thread) (t : Thread)
    → get_elem? ts i ≡ some t
    → num p (modify ts i f) + weight (p t) ≡ num p ts + weight (p (f t))
num-modify p [] i f t h = absurd (ground arith)
num-modify p (x ∷ xs) zero f t h = let e : x ≡ t = ground arith in rw e (omega arith)
num-modify p (x ∷ xs) (suc i) f t h = omega (arith, num-modify p xs i f t h)

pub num-append : (p : Thread → Bool) (ts us : List Thread) → num p (ts ++ us) ≡ num p ts + num p us
num-append p [] us = omega arith
num-append p (t ∷ ts) us = omega (arith, num-append p ts us)

pub num-map :
    (p q : Thread → Bool) (f : Thread → Thread) (ts : List Thread)
    → ((t : Thread) → p (f t) ≡ q t)
    → num p (map f ts) ≡ num q ts
num-map p q f [] h = refl
num-map p q f (t ∷ ts) h = rw (h t) (omega (arith, num-map p q f ts h))

pub num-map-le :
    (p q : Thread → Bool) (f : Thread → Thread) (ts : List Thread)
    → ((t : Thread) → p (f t) ≡ true → q t ≡ true)
    → num p (map f ts) ≤ num q ts
num-map-le p q f [] h = omega arith
num-map-le p q f (t ∷ ts) h = ground (arith, h t, num-map-le p q f ts h)

pub num-wake_parent_self :
    (p : ℕ) (ts : List Thread)
    → num (waits_for_child p) (wake_parent p ts) ≡ num (waits_for_child p) ts - 1
unfolding wake_parent
num-wake_parent_self p [] = refl
num-wake_parent_self p (t ∷ ts) = ground (arith, num-wake_parent_self p ts)

-- A test that waking a waiting thread does not change.
pub num-wake_parent :
    (p : Thread → Bool) (q : ℕ) (ts : List Thread)
    → ((t : Thread) → waits_for_child q t ≡ true → p (record t { state = State.runnable }) ≡ p t)
    → num p (wake_parent q ts) ≡ num p ts
unfolding wake_parent
num-wake_parent p q [] h = refl
num-wake_parent p q (t ∷ ts) h = ground (arith, h t, num-wake_parent p q ts h)

pub num-reap_loop :
    (p : Thread → Bool) (cur i : ℕ) (ts : List Thread)
    → ((t : Thread) → is_collectable t ≡ true → p (bury t) ≡ p t)
    → num p (reap_loop cur i ts).0 ≡ num p ts
unfolding reap_loop
num-reap_loop p cur i [] h = refl
num-reap_loop p cur i (t ∷ ts) h = ground (arith, h t, num-reap_loop p cur (i + 1) ts h)

pub num-pos_of_any :
    (p q : Thread → Bool) (ts : List Thread)
    → ((t : Thread) → p t ≡ true → q t ≡ true)
    → any p ts ≡ true
    → 0 < num q ts
num-pos_of_any p q [] h e = absurd (ground arith)
num-pos_of_any p q (t ∷ ts) h e = ground (arith, h t, num-pos_of_any p q ts h)

-- What `position` finds.
pub position-some :
    (p : Thread → Bool) (ts : List Thread) (i : ℕ)
    → position p ts ≡ some i
    → (t : Thread) × (get_elem? ts i ≡ some t) × (p t ≡ true)
position-some p [] i h = absurd (ground arith)
position-some p (x ∷ xs) i h = elim (Bool-cases (p x)) [
  | inl good ↦ at_head i (rw good at h) good
  | inr bad ↦ elim (Option-cases (position p xs)) [
    | inl nowhere ↦ absurd (ground arith)
    | inr (j, found) ↦
        let at_j = position-some p xs j found in let e : i ≡ suc j = ground arith in rw e at_j
  ]
]
  where
    at_head :
        (i : ℕ)
        → ◌≡◌ {A = Option ℕ} (some 0) (some i)
        → p x ≡ true
        → (t : Thread) × (get_elem? (x ∷ xs) i ≡ some t) × (p t ≡ true)
    at_head zero e good = (x, refl, good)
    at_head (suc i) e good = absurd (ground arith)

pub num-mem :
    (p : Thread → Bool) (ts : List Thread) (i : ℕ) (t : Thread)
    → get_elem? ts i ≡ some t
    → weight (p t) ≤ num p ts
num-mem p [] i t h = absurd (ground arith)
num-mem p (x ∷ xs) zero t h = let e : x ≡ t = ground arith in rw e (omega arith)
num-mem p (x ∷ xs) (suc i) t h = omega (arith, num-mem p xs i t h)

abbrev pub idle : ℕ → Thread → Bool
idle p t = (t.pid == p) && not (waits_for_child p t)

-- The threads of a pid wait for a child or do not.
pub num-split :
    (p : ℕ) (ts : List Thread) → num (waits_for_child p) ts + num (idle p) ts ≡ num (has_pid p) ts
num-split p [] = omega arith
num-split p (t ∷ ts) = ground (arith, num-split p ts)

pub get_elem?-modify :
    (ts : List Thread) (i : ℕ) (f : Thread → Thread) (t : Thread)
    → get_elem? ts i ≡ some t
    → get_elem? (modify ts i f) i ≡ some (f t)
get_elem?-modify [] i f t h = absurd (ground arith)
get_elem?-modify (x ∷ xs) zero f t h = ap (λ o. Option.map f o) h
get_elem?-modify (x ∷ xs) (suc i) f t h = get_elem?-modify xs i f t h
