-- ===== src/User/Copy.antt =====
-- What `copy_to_user` of src/syscall/uaccess.rs has written.
use ferros.Prelude.{
  ℕ, zero, suc, ◌+◌, ◌-◌, ◌/◌, ◌≤◌, ◌<◌, ◌≡◌, refl, ap, ◌∙◌, ◌⊎◌, inl, inr, true, false, ◌&&◌, [],
  ◌∷◌, Result, ok, err, arith,
}
use ferros.Prelude.{leb, ltb, ◌==◌, Bool-cases, Option-cases, length, get_or, Bytes}
use native.Mathlib.Decide.{dec_lt}
use ferros.Prelude.{checked_add}
use ferros.User.{
  Space, user_space_end, efault, validate, pages_accessible, user_range_accessible, user_bytes,
  bytes_at, write_bytes, copy_to_user,
}

-- What may be written may be read.
pages_accessible-read :
    (s : Space) (left n : ℕ)
    → pages_accessible s left n true ≡ true
    → pages_accessible s left n false ≡ true
pages_accessible-read s zero n h = refl
pages_accessible-read s (suc left) n h = ground (arith, pages_accessible-read s left (n + 1))

pages_accessible-mem :
    (s : Space) (mem : ℕ → ℕ) (left n : ℕ)
    → pages_accessible (record s { mem = mem }) left n false ≡ pages_accessible s left n false
pages_accessible-mem s mem zero n = refl
pages_accessible-mem s mem (suc left) n = ground (arith, pages_accessible-mem s mem left (n + 1))

user_range_accessible-read :
    (s : Space) (mem : ℕ → ℕ) (ptr len : ℕ)
    → user_range_accessible s ptr len true ≡ true
    → user_range_accessible (record s { mem = mem }) ptr len false ≡ true
unfolding user_range_accessible
user_range_accessible-read s mem ptr len h = elim (Bool-cases (len == 0)) [
  | inl nothing ↦ rw (nothing, user_range_accessible) refl
  | inr some_bytes ↦ elim (Option-cases (checked_add ptr len)) [
    | inl over ↦ absurd (ground arith)
    | inr (end, adds) ↦
        let writable : pages_accessible s ((end + 4095) / 4096 - ptr / 4096) (ptr / 4096) true
            ≡ true =
          ground arith in
        let readable =
          pages_accessible-read s ((end + 4095) / 4096 - ptr / 4096) (ptr / 4096) writable in
        rw (some_bytes, adds, user_range_accessible)
          (pages_accessible-mem s mem ((end + 4095) / 4096 - ptr / 4096) (ptr / 4096) ∙ readable)
  ]
]

bytes_at-ext :
    (mem mem' : ℕ → ℕ) (ptr len : ℕ)
    → ((k : ℕ) → ptr ≤ k → k < ptr + len → mem k ≡ mem' k)
    → bytes_at mem ptr len ≡ bytes_at mem' ptr len
bytes_at-ext mem mem' ptr zero h = refl
bytes_at-ext mem mem' ptr (suc len) h = cc (
  h ptr (omega arith) (omega arith),
  bytes_at-ext mem mem' (ptr + 1) len (λ k p q. h k (omega arith) (omega arith)),
)

-- Behind the first byte the write is that of the rest.
write_bytes-cons :
    (mem : ℕ → ℕ) (dst x : ℕ) (src : Bytes) (k : ℕ)
    → dst + 1 ≤ k
    → k < dst + 1 + length src
    → write_bytes mem dst (x ∷ src) k ≡ write_bytes mem (dst + 1) src k
write_bytes-cons mem dst x src k h h' =
    let e : k - dst ≡ suc (k - (dst + 1)) = omega arith in
    let first : (leb dst k && ltb k (dst + length (x ∷ src))) ≡ true = ground arith in
    let second : (leb (dst + 1) k && ltb k (dst + 1 + length src)) ≡ true = ground arith in
    rw (first, second) (ap (λ n. get_or (x ∷ src) n 0) e)

bytes_at-write_bytes :
    (mem : ℕ → ℕ) (dst : ℕ) (src : Bytes)
    → bytes_at (write_bytes mem dst src) dst (length src) ≡ src
bytes_at-write_bytes mem dst [] = refl
bytes_at-write_bytes mem dst (x ∷ src) =
    let rest =
      bytes_at-ext (write_bytes mem dst (x ∷ src)) (write_bytes mem (dst + 1) src) (dst + 1)
        (length src) (λ k p q. write_bytes-cons mem dst x src k p q)
      ∙ bytes_at-write_bytes mem (dst + 1) src in
    let here : write_bytes mem dst (x ∷ src) dst ≡ x = first_byte in cc (here, rest)
  where
    first_byte : write_bytes mem dst (x ∷ src) dst ≡ x
    first_byte =
        let e : dst - dst ≡ 0 = omega arith in
        let inside : (leb dst dst && ltb dst (dst + length (x ∷ src))) ≡ true = ground arith in
        rw inside (ap (λ n. get_or (x ∷ src) n 0) e)

-- What a call of `copy_to_user` has done, on each of its ways out.
abbrev pub Copied : ℕ → Bytes → Space → Result ℕ (Unit {0}) × Space → Type 0
Copied dst src s (ok _, s') =
    (dst + length src ≤ user_space_end)
    × (user_bytes s' dst (length src) ≡ ok src)
    × (s'.page ≡ s.page)
    × ((a : ℕ) → a < dst ⊎ dst + length src ≤ a → s'.mem a ≡ s.mem a)
Copied dst src s (err e, s') = (e ≡ efault) × (s' ≡ s)

pub validate-cases :
    (ptr len : ℕ)
    → ((validate ptr len ≡ ok tt) × (ptr + len ≤ user_space_end)) ⊎ (validate ptr len ≡ err efault)
unfolding validate
validate-cases ptr len = elim (dec_lt user_space_end (ptr + len)) [
  | yes over ↦ inr (ground arith)
  | no within ↦ inl (ground arith, omega arith)
]

-- A copy that succeeds ends in the user half, is read back whole, and changes no other byte and no
-- page. One that fails changes nothing, and the error is EFAULT.
pub copy_to_user-Copied :
    (dst : ℕ) (src : Bytes) (s : Space) → Copied dst src s (copy_to_user dst src s)
unfolding copy_to_user user_bytes
copy_to_user-Copied dst src s = elim (validate-cases dst (length src)) [
  | inr refused ↦ rw (refused, copy_to_user) (refl, refl)
  | inl (valid, inside) ↦ elim (Bool-cases (length src == 0)) [
    | inl nothing ↦
        rw (valid, nothing, copy_to_user)
          (inside, read_nothing src valid nothing, refl, λ a h. refl)
    | inr some_bytes ↦ elim (Bool-cases (user_range_accessible s dst (length src) true)) [
      | inr refused ↦ rw (valid, some_bytes, refused, copy_to_user) (refl, refl)
      | inl writable ↦
          rw (valid, some_bytes, writable, copy_to_user)
            (inside, read_back valid some_bytes writable, refl, λ a h. outside a h)
    ]
  ]
]
  where
    read_nothing :
        (src : Bytes)
        → validate dst (length src) ≡ ok tt
        → (length src == 0) ≡ true
        → user_bytes s dst (length src) ≡ ok src
    read_nothing [] valid nothing = rw (valid, user_bytes) refl
    read_nothing (x ∷ xs) valid nothing = absurd (ground arith)

    read_back :
        validate dst (length src) ≡ ok tt
        → (length src == 0) ≡ false
        → user_range_accessible s dst (length src) true ≡ true
        → user_bytes (record s { mem = write_bytes s.mem dst src }) dst (length src) ≡ ok src
    read_back valid some_bytes writable =
        rw
          (
            valid,
            some_bytes,
            user_range_accessible-read s (write_bytes s.mem dst src) dst (length src) writable,
            user_bytes,
          )
          (ap ok (bytes_at-write_bytes s.mem dst src))

    outside : (a : ℕ) → a < dst ⊎ dst + length src ≤ a → write_bytes s.mem dst src a ≡ s.mem a
    outside a h = ground arith
