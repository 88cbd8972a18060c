-- ===== src/Files/Descriptors.antt =====
-- `alloc_fd` of src/syscall/files.rs takes the lowest descriptor that is free.
use ferros.Prelude.{
  ℕ, zero, suc, ◌≤◌, ◌<◌, ◌≡◌, ◌≢◌, refl, sym, ap, ◌⊎◌, inl, inr, Option, none, some, List, [], ◌∷◌,
  ◌++◌, Result, ok, err, arith,
}
use ferros.Prelude.{
  ltb, Bool-cases, Option-cases, length, get_elem?, get_elem?-some-lt, get_elem?-set_self,
  get_elem?-set_ne,
}
use ferros.Files.{max_fds, emfile, first_none, alloc_fd}

-- Descriptor `i` is open.
abbrev pub IsOpen : {A : Type 0} → List (Option A) → ℕ → Type 0
IsOpen {A = A} fds i = (a : A) × (get_elem? fds i ≡ some (some a))

abbrev Searched : {A : Type 0} → List (Option A) → Option ℕ → Type 0
Searched fds none = (j : ℕ) → j < length fds → IsOpen fds j
Searched fds (some i) = (get_elem? fds i ≡ some none) × ((j : ℕ) → j < i → IsOpen fds j)

IsOpen-below :
    {A : Type 0} (a : A) (fds : List (Option A)) (n : ℕ)
    → ((j : ℕ) → j < n → IsOpen fds j)
    → (j : ℕ) → j < suc n
    → IsOpen (some a ∷ fds) j
IsOpen-below a fds n h zero k = (a, refl)
IsOpen-below a fds n h (suc j) k = h j (omega arith)

Searched-cons :
    {A : Type 0} (a : A) (fds : List (Option A)) (o : Option ℕ)
    → Searched fds o
    → Searched (some a ∷ fds) (elim o [ none ↦ none | some i ↦ some (suc i) ])
Searched-cons a fds none s = IsOpen-below a fds (length fds) s
Searched-cons a fds (some i) (here, below) = (here, IsOpen-below a fds i below)

first_none-Searched : {A : Type 0} (fds : List (Option A)) → Searched fds (first_none fds)
first_none-Searched [] = λ j h. absurd (omega arith)
first_none-Searched (none ∷ fds) = (refl, λ j h. absurd (omega arith))
first_none-Searched (some a ∷ fds) = Searched-cons a fds (first_none fds) (first_none-Searched fds)

-- What a call of `alloc_fd` has done, on each of its ways out.
abbrev pub Allocated : {A : Type 0} → List (Option A) → A → Result ℕ ℕ × List (Option A) → Type 0
Allocated fds entry (ok n, fds') =
    (n < max_fds)
    × (get_elem? fds n ≡ some none ⊎ n ≡ length fds)
    × ((j : ℕ) → j < n → IsOpen fds j)
    × (get_elem? fds' n ≡ some (some entry))
    × ((j : ℕ) → j ≢ n → get_elem? fds' j ≡ get_elem? fds j)
Allocated fds entry (err e, fds') =
    (e ≡ emfile) × (fds' ≡ fds) × (length fds ≡ max_fds) × ((j : ℕ) → j < length fds → IsOpen fds j)

get_elem?-last :
    {A : Type 0} (xs : List A) (x : A) → get_elem? (xs ++ (x ∷ [])) (length xs) ≡ some x
get_elem?-last [] x = refl
get_elem?-last (y ∷ xs) x = get_elem?-last xs x

get_elem?-append_ne :
    {A : Type 0} (xs : List A) (x : A) (j : ℕ)
    → j ≢ length xs
    → get_elem? (xs ++ (x ∷ [])) j ≡ get_elem? xs j
get_elem?-append_ne [] x zero h = absurd (h refl)
get_elem?-append_ne [] x (suc j) h = refl
get_elem?-append_ne (y ∷ xs) x zero h = refl
get_elem?-append_ne (y ∷ xs) x (suc j) h = get_elem?-append_ne xs x j (λ e. h (ap suc e))

-- In a table of at most 16 descriptors the call opens the lowest one that is free, at the end if
-- all are open, and leaves the others; it fails, and changes nothing, exactly if 16 are open.
pub alloc_fd-Allocated :
    {A : Type 0} (fds : List (Option A)) (entry : A)
    → length fds ≤ max_fds
    → Allocated fds entry (alloc_fd fds entry)
unfolding alloc_fd
alloc_fd-Allocated fds entry h = elim (Option-cases (first_none fds)) [
  | inr (i, found) ↦
      let (here, below) : Searched fds (some i) = rw found at (first_none-Searched fds) in
      let inside = get_elem?-some-lt fds i here in
      rw (found, alloc_fd)
        (
          omega arith,
          inl here,
          below,
          get_elem?-set_self fds i (some entry) inside,
          λ j ne. get_elem?-set_ne fds i j (some entry) (λ e. ne (sym e)),
        )
  | inl full ↦
      let all_open : Searched fds none = rw full at (first_none-Searched fds) in
      elim (Bool-cases (ltb (length fds) max_fds)) [
        | inl room ↦
            rw (full, room, alloc_fd)
              (
                ground arith,
                inr refl,
                all_open,
                get_elem?-last fds (some entry),
                get_elem?-append_ne fds (some entry),
              )
        | inr no_room ↦ rw (full, no_room, alloc_fd) (refl, refl, ground arith, all_open)
      ]
]
