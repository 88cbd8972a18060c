-- ===== src/Files.antt =====
-- src/syscall/files.rs: the paths that a process names, and its table of file descriptors.
pub mod Kernel
pub mod Open
pub mod Table
pub mod Transfer
pub mod Getdents
pub mod Stat
pub mod Vector
pub mod Sockets
pub mod Heap
pub mod Counts
pub mod Content
pub mod Listing
pub mod Example
pub mod Process
pub mod Paths
pub mod Descriptors
mod Tests
use ferros.Prelude.{
  ℕ, zero, suc, ◌+◌, ◌-◌, Bool, true, false, ◌||◌, Option, none, some, List, [], ◌∷◌, ◌++◌, Result,
  ok, err,
}
use ferros.Prelude.{pop, if◌then◌else◌, ltb, ◌==◌, length, set, Bytes, bytes_eq, split}

abbrev pub slash : ℕ
slash = 47

-- `comps.join("/")`
abbrev pub join : List Bytes → Bytes
join [] = []
join (c ∷ []) = c
join (c ∷ d ∷ r) = c ++ (slash ∷ join (d ∷ r))

-- `part == "" || part == "."`
abbrev pub is_nothing : Bytes → Bool
is_nothing part = bytes_eq part [] || bytes_eq part (46 ∷ [])

abbrev pub is_parent : Bytes → Bool
is_parent part = bytes_eq part (46 ∷ 46 ∷ [])

-- One round of the loop of `normalize`.
abbrev pub push_part : List Bytes → Bytes → List Bytes
push_part comps part =
    if is_nothing part then comps else if is_parent part then pop comps else comps ++ (part ∷ [])

abbrev pub push_parts : List Bytes → List Bytes → List Bytes
push_parts comps [] = comps
push_parts comps (part ∷ parts) = push_parts (push_part comps part) parts

unfoldable pub normalize : Bytes → Bytes
normalize path = slash ∷ join (push_parts [] (split slash path))

abbrev pub ends_with_slash : Bytes → Bool
ends_with_slash [] = false
ends_with_slash (x ∷ []) = x == slash
ends_with_slash (x ∷ y ∷ r) = ends_with_slash (y ∷ r)

-- `cwd` is `current_cwd()`.
unfoldable pub resolve_path : Bytes → Bytes → Bytes
unfolding normalize
resolve_path cwd [] = normalize (if ends_with_slash cwd then cwd else cwd ++ (slash ∷ []))
resolve_path cwd (x ∷ path) =
    if x == slash
    then normalize (x ∷ path)
    else normalize ((if ends_with_slash cwd then cwd else cwd ++ (slash ∷ [])) ++ (x ∷ path))

abbrev pub max_fds : ℕ
max_fds = 16

abbrev pub emfile : ℕ
emfile = 24

abbrev pub is_none {ℓ} : {A : Type ℓ} → Option A → Bool
is_none none = true
is_none (some a) = false

-- `(0..fds.len()).find(|&i| fds[i].is_none())`
abbrev pub first_none {ℓ} : {A : Type ℓ} → List (Option A) → Option ℕ
first_none [] = none
first_none (none ∷ fds) = some 0
first_none (some a ∷ fds) = elim (first_none fds) [ none ↦ none | some i ↦ some (suc i) ]

-- What a descriptor points to is a parameter; an error is the number that the call returns negated.
unfoldable pub alloc_fd {ℓ} : {A : Type ℓ} → List (Option A) → A → Result ℕ ℕ × List (Option A)
alloc_fd fds entry = elim (first_none fds) [
  | some i ↦ (ok i, set fds i (some entry))
  | none ↦
      if ltb (length fds) max_fds
      then (ok (length fds), fds ++ (some entry ∷ []))
      else (err emfile, fds)
]
