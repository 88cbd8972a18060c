-- ===== src/Fat/Table/Splice.antt =====
-- Bytes patched into a sector.
use ferros.Prelude.{
  ℕ, zero, suc, ◌+◌, ◌-◌, ◌≤◌, ◌<◌, ◌≡◌, refl, sym, ap, ◌∙◌, ◌⊎◌, [], ◌∷◌, ◌++◌, arith,
}
use ferros.Prelude.{
  if◌then◌else◌, ltb, leb, ◌&&◌, length, get_or, take, drop, Bytes, to_le, length-append,
  length-take, length-drop,
}
use ferros.Fat.Volume.{read_u32}
use ferros.Fat.Table.{splice}

pub get_or-append :
    (xs ys : Bytes) (i : ℕ)
    → get_or (xs ++ ys) i 0
      ≡ (if ltb i (length xs) then get_or xs i 0 else get_or ys (i - length xs) 0)
get_or-append [] ys i = ground (arith, ap (λ k. get_or ys k 0) (minus_zero i))
  where
    minus_zero : (n : ℕ) → n - 0 ≡ n
    minus_zero n = omega arith
get_or-append (x ∷ xs) ys zero = ground arith
get_or-append (x ∷ xs) ys (suc i) =
    ground (arith, get_or-append xs ys i, ap (λ k. get_or ys k 0) (minus_suc i (length xs)))
  where
    minus_suc : (n m : ℕ) → suc n - suc m ≡ n - m
    minus_suc n m = omega arith

pub get_or-take : (n : ℕ) (xs : Bytes) (i : ℕ) → i < n → get_or (take n xs) i 0 ≡ get_or xs i 0
get_or-take zero xs i h = absurd (omega arith)
get_or-take (suc n) [] i h = refl
get_or-take (suc n) (x ∷ xs) zero h = refl
get_or-take (suc n) (x ∷ xs) (suc i) h = get_or-take n xs i (omega arith)

pub get_or-drop : (n : ℕ) (xs : Bytes) (i : ℕ) → get_or (drop n xs) i 0 ≡ get_or xs (n + i) 0
get_or-drop zero xs i = ap (λ k. get_or xs k 0) (omega arith)
get_or-drop (suc n) [] i = refl
get_or-drop (suc n) (x ∷ xs) i =
    let e : suc n + i ≡ suc (n + i) = omega arith in
    get_or-drop n xs i ∙ sym (ap (λ k. get_or (x ∷ xs) k 0) e)

pub length-splice :
    (buf : Bytes) (off : ℕ) (bytes : Bytes)
    → off + length bytes ≤ length buf
    → length (splice buf off bytes) ≡ length buf
length-splice buf off bytes h = omega (
  arith,
  length-append (take off buf) (bytes ++ drop (off + length bytes) buf),
  length-append bytes (drop (off + length bytes) buf),
  length-take off buf,
  length-drop (off + length bytes) buf,
)

-- A byte of a patched sector: the new one inside the patch, the old one outside.
pub get_or-splice :
    (buf : Bytes) (off : ℕ) (bytes : Bytes) (i : ℕ)
    → off + length bytes ≤ length buf
    → get_or (splice buf off bytes) i 0 ≡ (
        if leb off i && ltb i (off + length bytes)
        then get_or bytes (i - off) 0
        else get_or buf i 0)
get_or-splice buf off bytes i h = ground (
  arith,
  get_or-append (take off buf) (bytes ++ drop (off + length bytes) buf) i,
  get_or-append bytes (drop (off + length bytes) buf) (i - length (take off buf)),
  length-take off buf,
  get_or-take off buf i,
  get_or-drop (off + length bytes) buf (i - length (take off buf) - length bytes),
  ap (λ k. get_or bytes (i - k) 0) (length-take off buf),
  behind,
)
  where
    behind :
        off + length bytes ≤ i
        → get_or buf (off + length bytes + (i - length (take off buf) - length bytes)) 0
          ≡ get_or buf i 0
    behind k = ap (λ j. get_or buf j 0) (omega (arith, length-take off buf))

-- A word written into a sector, read back.
pub read_u32-splice_self :
    (buf : Bytes) (off x : ℕ)
    → off + 4 ≤ length buf
    → x < 4294967296
    → read_u32 (splice buf off (to_le 4 x)) off ≡ x
read_u32-splice_self buf off x h small = ground (
  arith,
  get_or-splice buf off (to_le 4 x) off h,
  get_or-splice buf off (to_le 4 x) (off + 1) h,
  get_or-splice buf off (to_le 4 x) (off + 2) h,
  get_or-splice buf off (to_le 4 x) (off + 3) h,
  place 0 off (omega arith),
  place 1 (off + 1) (omega arith),
  place 2 (off + 2) (omega arith),
  place 3 (off + 3) (omega arith),
)
  where
    place : (k i : ℕ) → i ≡ off + k → get_or (to_le 4 x) (i - off) 0 ≡ get_or (to_le 4 x) k 0
    place k i e = ap (λ j. get_or (to_le 4 x) j 0) (omega arith)

-- A word that the patch does not touch.
pub read_u32-splice_apart :
    (buf : Bytes) (off j : ℕ) (bytes : Bytes)
    → off + length bytes ≤ length buf
    → (j + 4 ≤ off) ⊎ (off + length bytes ≤ j)
    → read_u32 (splice buf off bytes) j ≡ read_u32 buf j
read_u32-splice_apart buf off j bytes h apart = ground (
  arith,
  get_or-splice buf off bytes j h,
  get_or-splice buf off bytes (j + 1) h,
  get_or-splice buf off bytes (j + 2) h,
  get_or-splice buf off bytes (j + 3) h,
)
