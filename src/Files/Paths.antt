-- ===== src/Files/Paths.antt =====
-- `normalize` of src/syscall/files.rs gives a path in normal form.
use ferros.Prelude.{ℕ, ◌≡◌, refl, sym, ap, ◌∙◌, inl, inr, false, List, [], ◌∷◌, ◌++◌, append_assoc}
use ferros.Prelude.{◌==◌, Bool-cases, All, Bytes, split, put_first, append-nil}
use ferros.Prelude.{pop}
use ferros.Files.{slash, join, is_nothing, is_parent, push_part, push_parts, normalize}

abbrev pub NoSlash : Bytes → Type 0
NoSlash [] = Unit {0}
NoSlash (x ∷ xs) = ((x == slash) ≡ false) × NoSlash xs

-- A component that stays: not empty, not ".", not "..", and without a slash.
abbrev pub IsName : Bytes → Type 0
IsName c = NoSlash c × (is_nothing c ≡ false) × (is_parent c ≡ false)

put_first-NoSlash :
    (x : ℕ) (ps : List Bytes) → (x == slash) ≡ false → All NoSlash ps → All NoSlash (put_first x ps)
put_first-NoSlash x [] h good = ((h, tt), tt)
put_first-NoSlash x (p ∷ ps) h good = ((h, good.0), good.1)

split-NoSlash : (path : Bytes) → All NoSlash (split slash path)
split-NoSlash [] = (tt, tt)
split-NoSlash (x ∷ xs) = elim (Bool-cases (x == slash)) [
  | inl at_slash ↦ rw at_slash (tt, split-NoSlash xs)
  | inr other ↦ rw other (put_first-NoSlash x (split slash xs) other (split-NoSlash xs))
]

split-last : (c : Bytes) → NoSlash c → split slash c ≡ c ∷ []
split-last [] h = refl
split-last (x ∷ xs) h = rw (h.0, split-last xs h.1) refl

split-front : (c r : Bytes) → NoSlash c → split slash (c ++ (slash ∷ r)) ≡ c ∷ split slash r
split-front [] r h = refl
split-front (x ∷ xs) r h = rw (h.0, split-front xs r h.1) refl

split-join :
    (c : Bytes) (cs : List Bytes) → All IsName (c ∷ cs) → split slash (join (c ∷ cs)) ≡ c ∷ cs
split-join c [] good = split-last c good.0.0
split-join c (d ∷ cs) good =
    split-front c (join (d ∷ cs)) good.0.0 ∙ ap (λ r. c ∷ r) (split-join d cs good.1)

pop-IsName : (cs : List Bytes) → All IsName cs → All IsName (pop cs)
pop-IsName [] good = tt
pop-IsName (c ∷ []) good = tt
pop-IsName (c ∷ d ∷ cs) good = (good.0, pop-IsName (d ∷ cs) good.1)

append-IsName :
    (cs : List Bytes) (c : Bytes) → All IsName cs → IsName c → All IsName (cs ++ (c ∷ []))
append-IsName [] c good h = (h, tt)
append-IsName (d ∷ cs) c good h = (good.0, append-IsName cs c good.1 h)

push_part-IsName :
    (cs : List Bytes) (part : Bytes) → All IsName cs → NoSlash part → All IsName (push_part cs part)
push_part-IsName cs part good h = elim (Bool-cases (is_nothing part)) [
  | inl skip ↦ rw skip good
  | inr kept ↦ elim (Bool-cases (is_parent part)) [
    | inl up ↦ rw (kept, up) (pop-IsName cs good)
    | inr down ↦ rw (kept, down) (append-IsName cs part good (h, kept, down))
  ]
]

push_parts-IsName :
    (cs parts : List Bytes) → All IsName cs → All NoSlash parts → All IsName (push_parts cs parts)
push_parts-IsName cs [] good h = good
push_parts-IsName cs (part ∷ parts) good h =
    push_parts-IsName (push_part cs part) parts (push_part-IsName cs part good h.0) h.1

push_parts-append : (cs ds : List Bytes) → All IsName ds → push_parts cs ds ≡ cs ++ ds
push_parts-append cs [] good = sym (append-nil cs)
push_parts-append cs (d ∷ ds) good =
    let pushed : push_part cs d ≡ cs ++ (d ∷ []) = rw (good.0.1, good.0.2) refl in
    rw pushed (push_parts-append (cs ++ (d ∷ [])) ds good.1 ∙ append_assoc cs (d ∷ []) ds)

push_parts-split-join :
    (cs : List Bytes) → All IsName cs → push_parts [] (split slash (join cs)) ≡ cs
push_parts-split-join [] good = refl
push_parts-split-join (c ∷ cs) good =
    ap (push_parts []) (split-join c cs good) ∙ push_parts-append [] (c ∷ cs) good

-- A path that `normalize` returned is its own normal form.
pub normalize-normalize : (path : Bytes) → normalize (normalize path) ≡ normalize path
unfolding normalize
normalize-normalize path =
    ap (λ cs. slash ∷ join cs)
      (push_parts-split-join (push_parts [] (split slash path))
        (push_parts-IsName [] (split slash path) tt (split-NoSlash path)))
