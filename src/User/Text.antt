-- ===== src/User/Text.antt =====
-- What `read_user_cstr` of src/syscall/uaccess.rs returns.
use ferros.Prelude.{
  ℕ, zero, suc, ◌+◌, ◌-◌, ◌*◌, ◌/◌, ◌≤◌, ◌<◌, ◌≡◌, ◌≢◌, refl, sym, subst, ap, ◌∙◌, inl, inr, Bool,
  true, false, Option, none, some, [], ◌∷◌, ◌++◌, append_assoc, Result, ok, err, arith, min,
}
use ferros.Prelude.{
  if◌then◌else◌, ◌==◌, ==→≡, ==→≢, Bool-cases, Result-cases, length, length-append, Bytes,
}
use native.Mathlib.Decide.{dec_lt, ℕ_discrete}
use ferros.User.{
  PageFlags, Space, user_space_end, path_max, efault, einval, validate, page_accessible,
  pages_accessible, user_range_accessible, user_bytes, bytes_at, until_nul, cstr_loop, ended,
  read_user_cstr,
}

-- Present, and open to user code.
abbrev pub IsOpen : Option PageFlags → Type 0
IsOpen none = ⊥
IsOpen (some f) = f.user ≡ true

-- User code itself could read the byte: it is below the end of the user half, on a page of its own.
abbrev pub IsReadable : Space → ℕ → Type 0
IsReadable s a = (a < user_space_end) × IsOpen (s.page (a / 4096))

-- The text stands in user memory from `a` on, and a zero behind it.
abbrev pub StandsAt : Space → ℕ → Bytes → Type 0
StandsAt s a [] = IsReadable s a × (s.mem a ≡ 0)
StandsAt s a (b ∷ bs) = IsReadable s a × (s.mem a ≡ b) × (b ≢ 0) × StandsAt s (a + 1) bs

-- The bytes stand in user memory from `a` on, none is zero.
abbrev Begins : Space → ℕ → Bytes → Type 0
Begins s a [] = Unit {0}
Begins s a (b ∷ bs) = IsReadable s a × (s.mem a ≡ b) × (b ≢ 0) × Begins s (a + 1) bs

abbrev Scanned : Space → ℕ → ℕ → Bytes × Bool → Type 0
Scanned s a n (pushed, true) = StandsAt s a pushed × (length pushed < n)
Scanned s a n (pushed, false) = Begins s a pushed × (length pushed ≡ n)

pages_accessible-IsOpen :
    (s : Space) (left first n : ℕ)
    → pages_accessible s left first false ≡ true
    → first ≤ n
    → n < first + left
    → IsOpen (s.page n)
pages_accessible-IsOpen s zero first n h lo hi = absurd (omega arith)
pages_accessible-IsOpen s (suc left) first n h lo hi = elim (ℕ_discrete first n) [
  | yes here ↦ subst (λ k. IsOpen (s.page k)) here (open_page (s.page first) (ground arith))
  | no later ↦
      pages_accessible-IsOpen s left (first + 1) n (ground arith) (omega arith) (omega arith)
]
  where
    open_page : (o : Option PageFlags) → page_accessible o false ≡ true → IsOpen o
    open_page none e = ground arith
    open_page (some f) e = ground arith

-- Every byte of a view can be read by user code.
user_bytes-IsReadable :
    (s : Space) (ptr len : ℕ) (b : Bytes) (a : ℕ)
    → user_bytes s ptr len ≡ ok b
    → ptr ≤ a
    → a < ptr + len
    → IsReadable s a
unfolding user_bytes validate user_range_accessible
user_bytes-IsReadable s ptr len b a h lo hi =
    let below : ptr + len ≤ user_space_end = ground arith in
    let some_bytes : (len == 0) ≡ false = ground arith in
    let pages : pages_accessible s ((ptr + len + 4095) / 4096 - ptr / 4096) (ptr / 4096) false
        ≡ true =
      ground arith in
    (
      omega arith,
      pages_accessible-IsOpen s ((ptr + len + 4095) / 4096 - ptr / 4096) (ptr / 4096) (a / 4096)
          pages (omega arith) (omega arith),
    )

pub length-bytes_at : (mem : ℕ → ℕ) (a n : ℕ) → length (bytes_at mem a n) ≡ n
length-bytes_at mem a zero = refl
length-bytes_at mem a (suc n) = ap suc (length-bytes_at mem (a + 1) n)

until_nul-Scanned :
    (s : Space) (a n : ℕ)
    → ((k : ℕ) → a ≤ k → k < a + n → IsReadable s k)
    → Scanned s a n (until_nul (bytes_at s.mem a n))
until_nul-Scanned s a zero readable = (tt, refl)
until_nul-Scanned s a (suc n) readable =
    go (until_nul (bytes_at s.mem (a + 1) n))
      (until_nul-Scanned s (a + 1) n (λ k lo hi. readable k (omega arith) (omega arith)))
      (readable a (omega arith) (omega arith))
  where
    go :
        (r : Bytes × Bool)
        → Scanned s (a + 1) n r
        → IsReadable s a
        → Scanned s a (suc n) (if s.mem a == 0 then ([], true) else (s.mem a ∷ r.0, r.1))
    go (pushed, true) h here = elim (Bool-cases (s.mem a == 0)) [
      | inl nul ↦ rw nul ((here, ==→≡ (s.mem a) 0 nul), omega arith)
      | inr more ↦ rw more ((here, refl, ==→≢ (s.mem a) 0 more, h.0), omega arith)
    ]
    go (pushed, false) h here = elim (Bool-cases (s.mem a == 0)) [
      | inl nul ↦ rw nul ((here, ==→≡ (s.mem a) 0 nul), omega arith)
      | inr more ↦ rw more ((here, refl, ==→≢ (s.mem a) 0 more, h.0), omega arith)
    ]

StandsAt-append :
    (s : Space) (a b : ℕ) (xs ys : Bytes)
    → a + length xs ≡ b
    → Begins s a xs
    → StandsAt s b ys
    → StandsAt s a (xs ++ ys)
StandsAt-append s a b [] ys e h k =
    let same : b ≡ a = omega (arith, e) in subst (λ n. StandsAt s n ys) same k
StandsAt-append s a b (x ∷ xs) ys e h k =
    (h.0, h.1, h.2, StandsAt-append s (a + 1) b xs ys (omega arith) h.3 k)

-- A view has the bytes that stand there.
pub user_bytes-ok :
    (s : Space) (ptr len : ℕ) (b : Bytes) → user_bytes s ptr len ≡ ok b → b ≡ bytes_at s.mem ptr len
unfolding user_bytes
user_bytes-ok s ptr zero b h = ground arith
user_bytes-ok s ptr (suc len) b h = ground arith

abbrev Found : Space → ℕ → Bytes → Bytes → Type 0
Found s addr out r =
    (rest : Bytes) × (r ≡ out ++ rest) × StandsAt s addr rest × (length r < path_max)

cstr_loop-Found :
    (fuel : ℕ) (s : Space) (addr : ℕ) (out r : Bytes)
    → cstr_loop fuel s addr out ≡ some (ok r)
    → Found s addr out r
unfolding cstr_loop
cstr_loop-Found zero s addr out r h = absurd (ground arith)
cstr_loop-Found (suc fuel) s addr out r h = elim (Bool-cases (n == 0)) [
  | inl full ↦ absurd (ground arith)
  | inr some_room ↦ elim (Result-cases (user_bytes s addr n)) [
    | inr (e, refused) ↦ absurd (ground arith)
    | inl (bytes, seen) ↦
        let scanned : Scanned s addr n ((until_nul bytes).0, (until_nul bytes).1) =
          rw (user_bytes-ok s addr n bytes seen) (
            until_nul-Scanned s addr n
              (λ k lo hi. user_bytes-IsReadable s addr n bytes k seen lo hi)) in
        elim (Bool-cases (until_nul bytes).1) [
          | inl hit ↦
              let (stands, short) : Scanned s addr n ((until_nul bytes).0, true) =
                rw hit at scanned in
              let value : out ++ (until_nul bytes).0 ≡ r = ground arith in
              (
                (until_nul bytes).0,
                sym value,
                stands,
                omega (arith, ap length value, length-append out (until_nul bytes).0),
              )
          | inr missed ↦
              let (begins, whole) : Scanned s addr n ((until_nul bytes).0, false) =
                rw missed at scanned in
              let later : cstr_loop fuel s page_end (out ++ (until_nul bytes).0) ≡ some (ok r) =
                ground arith in
              let (rest, value, stands, short) =
                cstr_loop-Found fuel s page_end (out ++ (until_nul bytes).0) r later in
              (
                (until_nul bytes).0 ++ rest,
                value ∙ append_assoc out (until_nul bytes).0 rest,
                StandsAt-append s addr page_end (until_nul bytes).0 rest
                    (omega (
                      arith,
                      ap length value,
                      length-append (out ++ (until_nul bytes).0) rest,
                      length-append out (until_nul bytes).0,
                    ))
                    begins stands,
                short,
              )
        ]
  ]
]
  where
    page_end : ℕ
    page_end = addr / 4096 * 4096 + 4096

    n : ℕ
    n = min (page_end - addr) (path_max - length out)

cstr_loop-ends :
    (fuel : ℕ) (s : Space) (addr : ℕ) (out : Bytes)
    → path_max - length out < fuel
    → (r : Result ℕ Bytes) × (cstr_loop fuel s addr out ≡ some r)
unfolding cstr_loop
cstr_loop-ends zero s addr out h = absurd (omega arith)
cstr_loop-ends (suc fuel) s addr out h = elim (Bool-cases (n == 0)) [
  | inl full ↦ (err einval, ground arith)
  | inr some_room ↦ elim (Result-cases (user_bytes s addr n)) [
    | inr (e, refused) ↦ (err e, ground arith)
    | inl (bytes, seen) ↦
        let scanned : Scanned s addr n ((until_nul bytes).0, (until_nul bytes).1) =
          rw (user_bytes-ok s addr n bytes seen) (
            until_nul-Scanned s addr n
              (λ k lo hi. user_bytes-IsReadable s addr n bytes k seen lo hi)) in
        elim (Bool-cases (until_nul bytes).1) [
          | inl hit ↦ (ok (out ++ (until_nul bytes).0), ground arith)
          | inr missed ↦
              let (begins, whole) : Scanned s addr n ((until_nul bytes).0, false) =
                rw missed at scanned in
              let (r, e) =
                cstr_loop-ends fuel s page_end (out ++ (until_nul bytes).0)
                  (ground (arith, length-append out (until_nul bytes).0)) in
              (r, ground arith)
        ]
  ]
]
  where
    page_end : ℕ
    page_end = addr / 4096 * 4096 + 4096

    n : ℕ
    n = min (page_end - addr) (path_max - length out)

some-ended : (o : Option (Result ℕ Bytes)) (r : Result ℕ Bytes) → o ≡ some r → o ≡ some (ended o)
some-ended o r e = rw e refl

read_user_cstr-loop :
    (s : Space) (ptr : ℕ)
    → ptr < user_space_end
    → read_user_cstr s ptr ≡ ended (cstr_loop (suc path_max) s ptr [])
unfolding read_user_cstr validate
read_user_cstr-loop s ptr h =
    let inside : validate ptr 1 ≡ ok tt = ground arith in rw (inside, read_user_cstr) refl

-- The fuel of `read_user_cstr` is enough: at an address of the user half the result is the one that
-- its loop returns.
pub read_user_cstr-ends :
    (s : Space) (ptr : ℕ)
    → ptr < user_space_end
    → cstr_loop (suc path_max) s ptr [] ≡ some (read_user_cstr s ptr)
read_user_cstr-ends s ptr h =
    let (r, e) = cstr_loop-ends (suc path_max) s ptr [] (omega arith) in
    some-ended (cstr_loop (suc path_max) s ptr []) r e ∙ sym (ap some (read_user_cstr-loop s ptr h))

user_ptr :
    (s : Space) (ptr : ℕ) (text : Bytes) → read_user_cstr s ptr ≡ ok text → ptr < user_space_end
unfolding read_user_cstr validate
user_ptr s ptr text h = elim (dec_lt ptr user_space_end) [
  | yes inside ↦ inside
  | no outside ↦
      let refused : validate ptr 1 ≡ err efault = ground arith in
      let wrong : err efault ≡ ok text = sym (rw (refused, read_user_cstr) refl) ∙ h in absurd (cc)
]

-- A text that `read_user_cstr` returns stands at the address, without a zero in it and with a zero
-- behind it: each of its bytes, and the zero, is below the end of the user half on a page that is
-- present and open to user code. The text has at most 255 bytes.
pub read_user_cstr-StandsAt :
    (s : Space) (ptr : ℕ) (text : Bytes)
    → read_user_cstr s ptr ≡ ok text
    → StandsAt s ptr text × (length text < path_max)
read_user_cstr-StandsAt s ptr text h =
    let inside = user_ptr s ptr text h in
    let (rest, value, stands, short) =
      cstr_loop-Found (suc path_max) s ptr [] text (read_user_cstr-ends s ptr inside ∙ ap some h) in
    (subst (StandsAt s ptr) (sym value) stands, short)
