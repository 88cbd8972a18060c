-- ===== src/Files/Counts/Tables.antt =====
-- src/syscall/files.rs: what the descriptors of one table share, when an entry changes.
use ferros.Prelude.{
  ℕ, zero, suc, ◌+◌, ◌-◌, ◌≤◌, ◌<◌, ◌≡◌, refl, ap, Option, none, some, List, [], ◌∷◌, ◌++◌, inl,
  inr, Result, ok, err, arith,
}
use ferros.Prelude.{
  ltb, length, set, replicate, length-append, length-replicate, Option-cases, Bool-cases,
}
use ferros.Files.{max_fds, first_none, alloc_fd}
use ferros.Files.Kernel.{Fd, slot}
use ferros.Files.Table.{grow}
use ferros.Files.Counts.{Shared, use_of, use_entry, uses}

pub uses-set :
    (r : Shared) (fds : List (Option Fd)) (i : ℕ) (o : Option Fd)
    → i < length fds
    → uses r (set fds i o) + use_entry r (slot fds i) ≡ uses r fds + use_entry r o
uses-set r [] i o h = absurd (omega arith)
uses-set r (x ∷ fds) zero o h = omega arith
uses-set r (x ∷ fds) (suc i) o h = omega (arith, uses-set r fds i o (omega arith))

pub slot-some-lt :
    (fds : List (Option Fd)) (i : ℕ) {fd : Fd} → slot fds i ≡ some fd → i < length fds
slot-some-lt [] i e = absurd (ground arith)
slot-some-lt (x ∷ fds) zero e = omega arith
slot-some-lt (x ∷ fds) (suc i) e = omega (arith, slot-some-lt fds i e)

pub use_of-le-uses :
    (r : Shared) (fds : List (Option Fd)) (i : ℕ) {fd : Fd}
    → slot fds i ≡ some fd
    → use_of r fd ≤ uses r fds
use_of-le-uses r [] i e = absurd (ground arith)
use_of-le-uses r (x ∷ fds) zero e = omega (arith, ap (use_entry r) e)
use_of-le-uses r (x ∷ fds) (suc i) e = omega (arith, use_of-le-uses r fds i e)

uses-append : (r : Shared) (xs ys : List (Option Fd)) → uses r (xs ++ ys) ≡ uses r xs + uses r ys
uses-append r [] ys = omega arith
uses-append r (x ∷ xs) ys = omega (arith, uses-append r xs ys)

uses-replicate : (r : Shared) (n : ℕ) → uses r (replicate n none) ≡ 0
uses-replicate r zero = refl
uses-replicate r (suc n) = omega (arith, uses-replicate r n)

slot-replicate : (n i : ℕ) → slot (replicate n none) i ≡ none
slot-replicate zero i = refl
slot-replicate (suc n) zero = refl
slot-replicate (suc n) (suc i) = slot-replicate n i

slot-append_replicate :
    (fds : List (Option Fd)) (n i : ℕ) → slot (fds ++ replicate n none) i ≡ slot fds i
slot-append_replicate [] n i = slot-replicate n i
slot-append_replicate (x ∷ fds) n zero = refl
slot-append_replicate (x ∷ fds) n (suc i) = slot-append_replicate fds n i

-- A table that is made long enough, and then takes an entry.
pub uses-set-grow :
    (r : Shared) (fds : List (Option Fd)) (i : ℕ) (o : Option Fd)
    → uses r (set (grow fds i) i o) + use_entry r (slot fds i) ≡ uses r fds + use_entry r o
uses-set-grow r fds i o =
    let nothing : Option Fd = none in
    omega (
      arith,
      uses-set r (grow fds i) i o (
          omega (
            arith,
            length-append fds (replicate (i + 1 - length fds) none),
            length-replicate (i + 1 - length fds) nothing,
          )),
      ap (use_entry r) (slot-append_replicate fds (i + 1 - length fds) i),
      uses-append r fds (replicate (i + 1 - length fds) none),
      uses-replicate r (i + 1 - length fds),
    )

uses-first_none :
    (r : Shared) (fds : List (Option Fd)) (fd : Fd) (i : ℕ)
    → first_none fds ≡ some i
    → uses r (set fds i (some fd)) ≡ use_of r fd + uses r fds
uses-first_none r [] fd i e = absurd (ground arith)
uses-first_none r (none ∷ fds) fd zero e = omega arith
uses-first_none r (none ∷ fds) fd (suc i) e = absurd (ground arith)
uses-first_none r (some x ∷ fds) fd i e = elim (Option-cases (first_none fds)) [
  | inl f ↦ absurd (ground (arith, e, f))
  | inr (j, f) ↦
      let at : i ≡ suc j = ground (arith, e, f) in
      rw (at) (omega (arith, uses-first_none r fds fd j f))
]

-- The table that `alloc_fd` leaves: the new entry stands in it, unless there was an error.
abbrev pub taken : Result ℕ ℕ → Shared → Fd → ℕ
taken (ok i) r fd = use_of r fd
taken (err e) r fd = 0

pub uses-alloc_fd :
    (r : Shared) (fds : List (Option Fd)) (fd : Fd)
    → uses r (alloc_fd fds fd).1 ≡ taken (alloc_fd fds fd).0 r fd + uses r fds
unfolding alloc_fd
uses-alloc_fd r fds fd = elim (Option-cases (first_none fds)) [
  | inr (i, e) ↦ rw (e, alloc_fd) (uses-first_none r fds fd i e)
  | inl e ↦ elim (Bool-cases (ltb (length fds) max_fds)) [
    | inl f ↦ rw (e, f, alloc_fd) (omega (arith, uses-append r fds (some fd ∷ [])))
    | inr f ↦ rw (e, f, alloc_fd) (omega arith)
  ]
]

-- Where `alloc_fd` puts the entry; an error leaves the table.
abbrev pub Stored : Fd → List (Option Fd) → Result ℕ ℕ × List (Option Fd) → Type 0
Stored fd fds (ok i, fds') = slot fds' i ≡ some fd
Stored fd fds (err e, fds') = fds' ≡ fds

slot-first_none :
    (fds : List (Option Fd)) (fd : Fd) (i : ℕ)
    → first_none fds ≡ some i
    → slot (set fds i (some fd)) i ≡ some fd
slot-first_none [] fd i e = absurd (ground arith)
slot-first_none (none ∷ fds) fd zero e = refl
slot-first_none (none ∷ fds) fd (suc i) e = absurd (ground arith)
slot-first_none (some x ∷ fds) fd i e = elim (Option-cases (first_none fds)) [
  | inl f ↦ absurd (ground (arith, e, f))
  | inr (j, f) ↦ let at : i ≡ suc j = ground (arith, e, f) in rw (at) (slot-first_none fds fd j f)
]

slot-append_last :
    (fds : List (Option Fd)) (fd : Fd) → slot (fds ++ (some fd ∷ [])) (length fds) ≡ some fd
slot-append_last [] fd = refl
slot-append_last (x ∷ fds) fd = slot-append_last fds fd

pub alloc_fd-Stored : (fds : List (Option Fd)) (fd : Fd) → Stored fd fds (alloc_fd fds fd)
unfolding alloc_fd
alloc_fd-Stored fds fd = elim (Option-cases (first_none fds)) [
  | inr (i, e) ↦ rw (e, alloc_fd) (slot-first_none fds fd i e)
  | inl e ↦ elim (Bool-cases (ltb (length fds) max_fds)) [
    | inl f ↦ rw (e, f, alloc_fd) (slot-append_last fds fd)
    | inr f ↦ rw (e, f, alloc_fd) refl
  ]
]
