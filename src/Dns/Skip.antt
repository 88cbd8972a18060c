-- ===== src/Dns/Skip.antt =====
-- `skip_name` of src/net/dns.rs: its loop ends, and it steps over an encoded name.
use ferros.Prelude.{
  ℕ, zero, suc, ◌+◌, ◌-◌, ◌/◌, ◌%◌, ◌≤◌, ◌<◌, ◌≡◌, refl, sym, ap, ◌∙◌, inl, inr, true, false, List,
  [], ◌∷◌, ◌++◌, append_assoc, Option, none, some, arith,
}
use ferros.Prelude.{
  ◌==◌, Bool-cases, Option-cases, length, length-append, get_elem?, get_elem?-some-lt, All, Bytes,
}
use ferros.Prelude.{checked_add}
use ferros.Dns.{skip_name_loop, skip_name}
use ferros.Dns.Query.{IsLabel, wire_labels}

skip_name_loop-ends :
    (fuel : ℕ) (msg : Bytes) (pos : ℕ)
    → length msg - pos < fuel
    → (r : Option ℕ) × (skip_name_loop fuel msg pos ≡ some r)
unfolding skip_name_loop
skip_name_loop-ends zero msg pos h = absurd (omega arith)
skip_name_loop-ends (suc fuel) msg pos h = elim (Option-cases (get_elem? msg pos)) [
  | inl out ↦ rw (out, skip_name_loop) (none, refl)
  | inr (len, here) ↦ elim (Bool-cases (len / 64 % 4 == 3)) [
    | inl pointer ↦ elim (Option-cases (get_elem? msg (pos + 1))) [
      | inl out ↦ (none, ground (arith, here, pointer, out))
      | inr (low, there) ↦ (some (pos + 2), ground (arith, here, pointer, there))
    ]
    | inr label ↦ elim (Bool-cases (len == 0)) [
      | inl root ↦ (some (pos + 1), ground (arith, here, label, root))
      | inr more ↦ elim (Option-cases (checked_add pos (1 + len))) [
        | inl over ↦ (none, ground (arith, here, label, more, over))
        | inr (next, adds) ↦
            let (r, e) =
              skip_name_loop-ends fuel msg next
                (ground (arith, adds, get_elem?-some-lt msg pos here)) in
            (r, ground (arith, here, label, more, adds, e))
      ]
    ]
  ]
]

pub get_elem?-behind : (p q : Bytes) (k : ℕ) → get_elem? (p ++ q) (length p + k) ≡ get_elem? q k
get_elem?-behind [] q k = ap (get_elem? q) (omega arith)
get_elem?-behind (x ∷ p) q k =
    let e : length (x ∷ p) + k ≡ suc (length p + k) = omega arith in
    ap (get_elem? (x ∷ p ++ q)) e ∙ get_elem?-behind p q k

-- The fuel that `skip_name` gives its loop is enough: the result is the one that the loop returns,
-- for any message and position.
pub skip_name-ends :
    (msg : Bytes) (pos : ℕ) → skip_name_loop (suc (length msg)) msg pos ≡ some (skip_name msg pos)
unfolding skip_name
skip_name-ends msg pos =
    let (r, e) = skip_name_loop-ends (suc (length msg)) msg pos (omega arith) in rw e refl

skip_name_loop-wire :
    (fuel : ℕ) (msg pre rest : Bytes) (ls : List Bytes)
    → msg ≡ pre ++ (wire_labels ls ++ (0 ∷ rest))
    → All IsLabel ls
    → length ls < fuel
    → length msg < 18446744073709551616
    → skip_name_loop fuel msg (length pre) ≡ some (some (length pre + length (wire_labels ls) + 1))
unfolding skip_name_loop
skip_name_loop-wire zero msg pre rest ls e good h small = absurd (omega arith)
skip_name_loop-wire (suc fuel) msg pre rest [] e good h small =
    let here : get_elem? msg (length pre) ≡ some 0 =
      ap (λ m. get_elem? m (length pre)) e
      ∙ ap (get_elem? (pre ++ (0 ∷ rest))) (omega arith)
      ∙ get_elem?-behind pre (0 ∷ rest) 0 in
    ground (arith, here)
skip_name_loop-wire (suc fuel) msg pre rest (l ∷ ls) e good h small =
    let tail = l ++ wire_labels ls ++ (0 ∷ rest) in
    let here : get_elem? msg (length pre) ≡ some (length l) =
      ap (λ m. get_elem? m (length pre)) e
      ∙ ap (get_elem? (pre ++ (length l ∷ tail))) (omega arith)
      ∙ get_elem?-behind pre (length l ∷ tail) 0 in
    let split : msg ≡ pre ++ (length l ∷ l) ++ (wire_labels ls ++ (0 ∷ rest)) =
      e
      ∙ ap (λ r. pre ++ (length l ∷ r)) (append_assoc l (wire_labels ls) (0 ∷ rest))
      ∙ sym (append_assoc pre (length l ∷ l) (wire_labels ls ++ (0 ∷ rest))) in
    let size = length-append pre (length l ∷ l) in
    let whole =
      ap length split ∙ length-append (pre ++ (length l ∷ l)) (wire_labels ls ++ (0 ∷ rest)) in
    let rec =
      skip_name_loop-wire fuel msg (pre ++ (length l ∷ l)) rest ls split good.1 (omega arith)
        small in
    let adds : checked_add (length pre) (1 + length l) ≡ some (length (pre ++ (length l ∷ l))) =
      ground (arith, size, whole) in
    let not_pointer : (length l / 64 % 4 == 3) ≡ false = ground (arith, good.0) in
    let not_root : (length l == 0) ≡ false = ground (arith, good.0) in
    rw (here, not_pointer, not_root, adds, rec, skip_name_loop)
      (ap (λ n. some (some n)) (omega (arith, size, length-append l (wire_labels ls))))

-- Labels that DNS allows, encoded in the message behind `pre` and closed by a zero byte, are
-- stepped over to the byte behind the zero.
pub skip_name-wire_labels :
    (msg pre rest : Bytes) (ls : List Bytes)
    → msg ≡ pre ++ (wire_labels ls ++ (0 ∷ rest))
    → All IsLabel ls
    → length msg < 18446744073709551616
    → skip_name msg (length pre) ≡ some (length pre + length (wire_labels ls) + 1)
unfolding skip_name
skip_name-wire_labels msg pre rest ls e good small =
    let fuel : length ls < suc (length msg) = omega (
      arith,
      ap length e,
      length-append pre (wire_labels ls ++ (0 ∷ rest)),
      length-append (wire_labels ls) (0 ∷ rest),
      few ls,
    ) in
    rw (skip_name_loop-wire (suc (length msg)) msg pre rest ls e good fuel small) refl
  where
    few : (ls : List Bytes) → length ls ≤ length (wire_labels ls)
    few [] = omega arith
    few (l ∷ ls) = omega (arith, few ls, length-append l (wire_labels ls))

-- A pointer takes two bytes.
pub skip_name-pointer :
    (msg : Bytes) (pos x y : ℕ)
    → get_elem? msg pos ≡ some x
    → (x / 64 % 4 == 3) ≡ true
    → get_elem? msg (pos + 1) ≡ some y
    → skip_name msg pos ≡ some (pos + 2)
unfolding skip_name skip_name_loop
skip_name-pointer msg pos x y h p h' = ground (arith, h, p, h')
