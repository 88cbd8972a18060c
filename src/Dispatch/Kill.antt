-- ===== src/Dispatch/Kill.antt =====
-- src/syscall/mod.rs: what `kill` answers.
use ferros.Prelude.{
  map, ℕ, List, [], ◌∷◌, ◌+◌, ◌≡◌, refl, ap, ◌⊎◌, inl, inr, Bool, true, false, ◌&&◌, not, Option,
  none, some, Result, ok, err, arith,
}
use ferros.Prelude.{if◌then◌else◌, ltb, ◌==◌, get_elem?, Option-cases, Bool-cases, ℤ, pos, negsuc}
use ferros.Abi.{esrch, sig_max}
use ferros.Sched.Table.{Scheduler, Thread, modify, position, any}
use ferros.Sched.Calls.{
  orphan, become_zombie, wake_parent, SignalOutcome, signal, terminate, is_target, add_pending,
  default_terminates,
}
use ferros.Sched.Wakeup.Num.{position-some, get_elem?-modify}
use ferros.User.{einval}
use ferros.Files.Kernel.{Kernel}
use ferros.Dispatch.{Killed, replies, ends, as_u32, delivery, send, kill_pid, sys_kill}

any-position-none : (p : Thread → Bool) (ts : List Thread) → position p ts ≡ none → any p ts ≡ false
any-position-none p [] e = refl
any-position-none p (t ∷ ts) e = elim (Bool-cases (p t)) [
  | inl f ↦ absurd (ground (arith, e, f))
  | inr f ↦ elim (Option-cases (position p ts)) [
    | inl g ↦ rw (f) (any-position-none p ts g)
    | inr (j, g) ↦ absurd (ground (arith, e, f, g))
  ]
]

any-position-some :
    (p : Thread → Bool) (ts : List Thread) (i : ℕ) → position p ts ≡ some i → any p ts ≡ true
any-position-some p [] i e = absurd (ground arith)
any-position-some p (t ∷ ts) i e = elim (Bool-cases (p t)) [
  | inl f ↦ rw (f) refl
  | inr f ↦ elim (Option-cases (position p ts)) [
    | inl g ↦ absurd (ground (arith, e, f, g))
    | inr (j, g) ↦ rw (f) (any-position-some p ts j g)
  ]
]

-- A signal reaches a process if there is one that it can reach, and never panics.
abbrev outcome : Bool → SignalOutcome
outcome true = SignalOutcome.delivered
outcome false = SignalOutcome.no_such_process

terminate-total :
    (s : Scheduler) (idx status : ℕ) (sig : Option ℕ) (t : Thread)
    → get_elem? s.threads idx ≡ some t
    → (s' : Scheduler) × (terminate s idx status sig ≡ some s')
unfolding terminate
terminate-total s idx status sig t e =
    let threads = map (orphan t.pid) (modify s.threads idx (become_zombie status sig)) in
    let parent_pid = (orphan t.pid t).parent in
    (
      record s { threads = if parent_pid == 0 then threads else wake_parent parent_pid threads },
      rw (e, terminate) refl,
    )

signal-outcome :
    (s : Scheduler) (pid sig : ℕ)
    → (s' : Scheduler) × (self : Bool) × (signal s pid sig
        ≡ some (s', outcome (any (is_target pid) s.threads), self))
unfolding signal
signal-outcome s pid sig = elim (Option-cases (position (is_target pid) s.threads)) [
  | inl e ↦ (s, false, rw (e, any-position-none (is_target pid) s.threads e, signal) refl)
  | inr (i, e) ↦
      let here = any-position-some (is_target pid) s.threads i e in
      let s1 = record s { threads = modify s.threads i (add_pending sig) } in
      let (t, at_i, good) = position-some (is_target pid) s.threads i e in
      let (s2, done) =
        terminate-total s1 i (128 + sig) (some sig) (add_pending sig t)
          (get_elem?-modify s.threads i (add_pending sig) t at_i) in
      elim (Bool-cases (sig == 0)) [
        | inl f ↦ (s, false, rw (e, here, f, signal) refl)
        | inr f ↦ elim (Bool-cases (default_terminates sig)) [
          | inl g ↦ (s2, i == s.current, rw (e, here, f, g, done, signal) refl)
          | inr g ↦ (s1, false, rw (e, here, f, g, signal) refl)
        ]
      ]
]

-- Whether there is a process with this number, cut to 32 bits, that a signal can reach.
abbrev pub is_there : ℤ → Scheduler → Bool
is_there (negsuc n) s = false
is_there (pos pid) s = not (pid == 0) && any (is_target (as_u32 pid)) s.threads

abbrev pub found : Bool → Result ℕ ℕ
found b = if b then ok 0 else err esrch

abbrev pub verdict : ℤ → ℕ → Scheduler → Result ℕ ℕ
verdict pid sig s = if ltb sig_max sig then err einval else found (is_there pid s)

abbrev pub Answers : ℤ → ℕ → Scheduler → Killed → Type 0
Answers pid sig s r = (r ≡ replies (verdict pid sig s)) ⊎ ((r ≡ ends) × (verdict pid sig s ≡ ok 0))

verdict_of :
    (b : Bool) (r : Killed)
    → (r ≡ replies (found b)) ⊎ ((r ≡ ends) × (b ≡ true))
    → (r ≡ replies (found b)) ⊎ ((r ≡ ends) × (found b ≡ ok 0))
verdict_of b r (inl e) = inl e
verdict_of b r (inr (e, f)) = inr (e, rw (f) refl)

module _ {Dev : Type 0} where
  delivery-Answers :
      (b self : Bool) (s : Scheduler) (k : Kernel Dev)
      → (r : Killed) × (k' : Kernel Dev) × (delivery (s, outcome b, self) k ≡ (r, k'))
        × ((r ≡ replies (found b)) ⊎ ((r ≡ ends) × (b ≡ true)))
  delivery-Answers true true s k = (ends, record k { sched = s }, refl, inr (refl, refl))
  delivery-Answers true false s k = (replies (ok 0), record k { sched = s }, refl, inl refl)
  delivery-Answers false self s k = (replies (err esrch), record k { sched = s }, refl, inl refl)

  send-Answers :
      (pid sig : ℕ) (k : Kernel Dev)
      → (r : Killed) × (k' : Kernel Dev) × (send pid sig k ≡ some (r, k'))
        × ((r ≡ replies (found (any (is_target pid) k.sched.threads)))
            ⊎ ((r ≡ ends) × (any (is_target pid) k.sched.threads ≡ true)))
  send-Answers pid sig k =
      let (s', self, e) = signal-outcome k.sched pid sig in
      let (r, k', eq, reply) = delivery-Answers (any (is_target pid) k.sched.threads) self s' k in
      (r, k', rw (e, send) (ap some eq), reply)

  kill_pid-Answers :
      (pid : ℤ) (sig : ℕ) (k : Kernel Dev)
      → ltb sig_max sig ≡ false
      → (r : Killed) × (k' : Kernel Dev) × (kill_pid pid sig k ≡ some (r, k'))
        × Answers pid sig k.sched r
  kill_pid-Answers (negsuc n) sig k e = (replies (err esrch), k, refl, inl (rw (e) refl))
  kill_pid-Answers (pos pid) sig k e = elim (Bool-cases (pid == 0)) [
    | inl f ↦ (replies (err esrch), k, rw (f, kill_pid) refl, inl (rw (e, f) refl))
    | inr f ↦
        let (r, k', eq, reply) = send-Answers (as_u32 pid) sig k in
        (
          r,
          k',
          rw (f, kill_pid) eq,
          rw (e, f) (verdict_of (any (is_target (as_u32 pid)) k.sched.threads) r reply),
        )
  ]

  -- `sys_kill` never panics: it answers EINVAL for a signal above 64, whatever the number of the
  -- process is, and otherwise 0 if there is a live process with this number, of which the low 32
  -- bits count, and ESRCH if there is none or the number is not positive; only in place of the
  -- answer 0 may it end the caller and not return.
  pub sys_kill-Answers :
      (pid : ℤ) (sig : ℕ) (k : Kernel Dev)
      → (r : Killed) × (k' : Kernel Dev) × (sys_kill pid sig k ≡ some (r, k'))
        × Answers pid sig k.sched r
  unfolding sys_kill
  sys_kill-Answers pid sig k = elim (Bool-cases (ltb sig_max sig)) [
    | inl e ↦ (replies (err einval), k, rw (e, sys_kill) refl, inl (rw (e) refl))
    | inr e ↦
        let (r, k', eq, reply) = kill_pid-Answers pid sig k e in (r, k', rw (e, sys_kill) eq, reply)
  ]
