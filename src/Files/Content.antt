-- ===== src/Files/Content.antt =====
-- src/syscall/files.rs: what a write makes of the content of a file.
use ferros.Prelude.{
  ℕ, zero, suc, ◌+◌, ◌-◌, ◌≤◌, ◌<◌, ◌≡◌, refl, ap, ◌∙◌, max, inl, inr, ◌&&◌, [], ◌∷◌, ◌++◌, arith,
}
use ferros.Prelude.{
  Bool-cases, if◌then◌else◌, leb, ltb, length, take, drop, get_or, replicate, Bytes, length-append,
  length-take, length-drop,
}
use ferros.Files.Transfer.{splice}

get_or-append :
    (xs ys : Bytes) (i : ℕ)
    → get_or (xs ++ ys) i 0
      ≡ (if ltb i (length xs) then get_or xs i 0 else get_or ys (i - length xs) 0)
get_or-append [] ys i = ground arith
get_or-append (x ∷ xs) ys zero = ground arith
get_or-append (x ∷ xs) ys (suc i) = ground (arith, get_or-append xs ys i)

abbrev zeros : ℕ → Bytes
zeros n = replicate n 0

get_or-zeros : (n i : ℕ) → get_or (zeros n) i 0 ≡ 0
get_or-zeros zero i = refl
get_or-zeros (suc n) zero = refl
get_or-zeros (suc n) (suc i) = get_or-zeros n i

length-zeros : (n : ℕ) → length (zeros n) ≡ n
length-zeros zero = refl
length-zeros (suc n) = ap suc (length-zeros n)

get_or-take : (n : ℕ) (xs : Bytes) (i : ℕ) → i < n → get_or (take n xs) i 0 ≡ get_or xs i 0
get_or-take zero xs i h = absurd (omega arith)
get_or-take (suc n) [] i h = refl
get_or-take (suc n) (x ∷ xs) zero h = refl
get_or-take (suc n) (x ∷ xs) (suc i) h = get_or-take n xs i (omega arith)

get_or-take_if :
    (n : ℕ) (xs : Bytes) (i : ℕ)
    → (if ltb i n then get_or (take n xs) i 0 else 0) ≡ (if ltb i n then get_or xs i 0 else 0)
get_or-take_if n xs i = elim (Bool-cases (ltb i n)) [
  | inl e ↦ rw (e) (get_or-take n xs i (ground arith))
  | inr e ↦ rw (e) refl
]

get_or-drop : (n : ℕ) (xs : Bytes) (i : ℕ) → get_or (drop n xs) i 0 ≡ get_or xs (n + i) 0
get_or-drop zero xs i = let e : i ≡ 0 + i = omega arith in ap (λ j. get_or xs j 0) e
get_or-drop (suc n) [] i = refl
get_or-drop (suc n) (x ∷ xs) i =
    let e : suc (n + i) ≡ suc n + i = omega arith in
    get_or-drop n xs i ∙ ap (λ j. get_or (x ∷ xs) j 0) e

get_or-le-zero : (xs : Bytes) (i : ℕ) → length xs ≤ i → get_or xs i 0 ≡ 0
get_or-le-zero [] i h = refl
get_or-le-zero (x ∷ xs) zero h = absurd (omega arith)
get_or-le-zero (x ∷ xs) (suc i) h = get_or-le-zero xs i (omega arith)

-- The content with zeros behind it reads as the content.
get_or-padded : (content : Bytes) (n i : ℕ) → get_or (content ++ zeros n) i 0 ≡ get_or content i 0
get_or-padded content n i = ground (
  arith,
  get_or-append content (zeros n) i,
  get_or-zeros n (i - length content),
  get_or-le-zero content i,
)

-- A write of `bytes` at any place makes the content as long as it was, or up to the end of the
-- bytes if that is more; byte `i` of it is the written one if it lies in the range of the write, and
-- else what it was, or 0 in a gap behind the old end.
pub splice-get_or :
    (content : Bytes) (offset : ℕ) (bytes : Bytes) (i : ℕ)
    → (length (splice content offset bytes) ≡ max (length content) (offset + length bytes))
      × (get_or (splice content offset bytes) i 0 ≡ (
          if leb offset i && ltb i (offset + length bytes)
          then get_or bytes (i - offset) 0
          else get_or content i 0))
unfolding splice
splice-get_or content offset bytes i =
    let end = offset + length bytes in
    let padded = content ++ zeros (end - length content) in
    let whole : length padded ≡ max (length content) end = omega (
      arith,
      length-append content (zeros (end - length content)),
      length-zeros (end - length content),
    ) in
    let back : (j : ℕ) → end + j ≡ i → get_or padded (end + j) 0 ≡ get_or content i 0 =
      λ j e. ap (λ x. get_or padded x 0) e ∙ get_or-padded content (end - length content) i in
    let front : length (take offset padded) ≡ offset =
      omega (arith, whole, length-take offset padded) in
    (
      omega (
        arith,
        whole,
        front,
        length-append (take offset padded) (bytes ++ drop end padded),
        length-append bytes (drop end padded),
        length-drop end padded,
      ),
      ground (
        arith,
        front,
        get_or-append (take offset padded) (bytes ++ drop end padded) i,
        get_or-append bytes (drop end padded) (i - offset),
        get_or-drop end padded (i - offset - length bytes),
        get_or-take_if offset padded i,
        get_or-padded content (end - length content) i,
        back (i - offset - length bytes),
      ),
    )
