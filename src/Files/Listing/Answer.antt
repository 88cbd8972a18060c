-- ===== src/Files/Listing/Answer.antt =====
-- src/syscall/files.rs: what a call of `getdents64` has handed over, and where the cursor then stands.
use ferros.Prelude.{
  ℕ, suc, ◌+◌, ◌-◌, ◌<◌, ◌≡◌, refl, sym, ap, ◌∙◌, inl, inr, true, false, some, Result, ok, err,
  List, [], ◌∷◌, ◌++◌, arith,
}
use ferros.Prelude.{
  if◌then◌else◌, ltb, leb, ◌==◌, length, take, drop, Bytes, All, length-append, Bool-cases,
}
use ferros.User.{Space, einval, copy_to_user}
use ferros.Fat.Slot.{DirItem}
use ferros.Files.Open.{reclen, dirent, dirents_from, serialize_dirents}
use ferros.Files.Kernel.{OpenFile, file, Kernel, fd_at, set_fd, touch}
use ferros.Files.Transfer.{advance}
use ferros.Files.Getdents.{span, list_span, sys_getdents64}
use ferros.Files.Listing.{
  IsShort, fitting, length-dirent, dirents-append, drop-serialize_dirents, sys_getdents64-span,
}

-- The entries whose records fit into `count` bytes one behind the other, from the first on.
abbrev pub taken : ℕ → List DirItem → List DirItem
taken count [] = []
taken count (item ∷ items) =
    let rest = item ∷ taken (count - reclen item.name) items in
    if ltb count (reclen item.name) then [] else rest

-- The bytes of the listing between the end of the entries `done` and that of `more` behind them.
abbrev pub records_of : List DirItem → List DirItem → Bytes
records_of done more = dirents_from (length done) (length (serialize_dirents done)) more

module _ {Dev : Type 0} where
  -- After a copy of `bytes` to the caller: their number, and the cursor at `end`; or the error.
  abbrev handed :
      ℕ → OpenFile → Bytes → ℕ → Kernel Dev → Result ℕ (Unit {0}) × Space → Result ℕ ℕ × Kernel Dev
  handed fd f bytes end k (ok _, space) = (
    ok (length bytes),
    set_fd fd (some (file (record f { offset = end }))) (record k { space = space }),
  )
  handed fd f bytes end k (err e, space) = (err e, record k { space = space })

  -- By the entries that were read before, those that are left, and those of them that are taken.
  abbrev pub answer :
      ℕ
      → ℕ
      → OpenFile
      → List DirItem
      → List DirItem
      → List DirItem
      → Kernel Dev
      → Result ℕ ℕ × Kernel Dev
  answer fd buf f done [] more k = (ok 0, k)
  answer fd buf f done (item ∷ items) [] k = (err einval, k)
  answer fd buf f done (item ∷ items) (first ∷ more) k =
      handed fd f (records_of done (first ∷ more))
        (length (serialize_dirents (done ++ (first ∷ more)))) k
        (copy_to_user buf (records_of done (first ∷ more)) k.space)

take-append : (xs ys : Bytes) (n : ℕ) → take (length xs + n) (xs ++ ys) ≡ xs ++ take n ys
take-append [] ys n = let e : 0 + n ≡ n = omega arith in ap (λ j. take j ys) e
take-append (x ∷ xs) ys n =
    let e : suc (length xs) + n ≡ suc (length xs + n) = omega arith in
    ap (λ j. take j (x ∷ (xs ++ ys))) e ∙ ap (λ r. x ∷ r) (take-append xs ys n)

take-zero : (xs : Bytes) → take 0 xs ≡ []
take-zero [] = refl
take-zero (x ∷ xs) = refl

fitting-taken :
    (count i start : ℕ) (todo : List DirItem)
    → fitting count todo ≡ length (dirents_from i start (taken count todo))
fitting-taken count i start [] = refl
fitting-taken count i start (item ∷ items) = elim (Bool-cases (ltb count (reclen item.name))) [
  | inl full ↦ rw full refl
  | inr room ↦
      let start' = start + reclen item.name in
      let rest = dirents_from (i + 1) start' (taken (count - reclen item.name) items) in
      rw room (
        omega (
          arith,
          fitting-taken (count - reclen item.name) (i + 1) start' items,
          length-dirent i start item,
          length-append (dirent i start item) rest,
        ))
]

take-fitting :
    (count i start : ℕ) (todo : List DirItem)
    → take (fitting count todo) (dirents_from i start todo)
      ≡ dirents_from i start (taken count todo)
take-fitting count i start [] = refl
take-fitting count i start (item ∷ items) = elim (Bool-cases (ltb count (reclen item.name))) [
  | inl full ↦ rw full (take-zero (dirents_from i start (item ∷ items)))
  | inr room ↦
      let start' = start + reclen item.name in
      let more = fitting (count - reclen item.name) items in
      let size : reclen item.name + more ≡ length (dirent i start item) + more =
        omega (arith, length-dirent i start item) in
      rw room (
        ap (λ n. take n (dirent i start item ++ dirents_from (i + 1) start' items)) size
        ∙ take-append (dirent i start item) (dirents_from (i + 1) start' items) more
        ∙ ap (λ r. dirent i start item ++ r)
            (take-fitting (count - reclen item.name) (i + 1) start' items))
]

-- A record has a length.
dirent-pos : (i start : ℕ) (item : DirItem) → 0 < length (dirent i start item)
unfolding dirent
dirent-pos i start item = omega arith

dirents-pos :
    (i start : ℕ) (item : DirItem) (items : List DirItem)
    → 0 < length (dirents_from i start (item ∷ items))
dirents-pos i start item items = omega (
  arith,
  dirent-pos i start item,
  length-append (dirent i start item) (dirents_from (i + 1) (start + reclen item.name) items),
)

length-serialize_dirents :
    (done more : List DirItem)
    → length (serialize_dirents (done ++ more))
      ≡ length (serialize_dirents done) + length (records_of done more)
unfolding serialize_dirents
length-serialize_dirents done more =
    let e : 0 + length done ≡ length done = omega arith in
    let e' : 0 + length (dirents_from 0 0 done) ≡ length (dirents_from 0 0 done) = omega arith in
    ap length (dirents-append 0 0 done more)
    ∙ length-append (dirents_from 0 0 done)
        (dirents_from (0 + length done) (0 + length (dirents_from 0 0 done)) more)
    ∙ ap
        (λ j.
          length (dirents_from 0 0 done)
          + length (dirents_from j (0 + length (dirents_from 0 0 done)) more))
        e
    ∙ ap (λ s. length (dirents_from 0 0 done) + length (dirents_from (length done) s more)) e'

module _ {Dev : Type 0} (fd buf count : ℕ) (f : OpenFile) (done : List DirItem)
    (k : Kernel Dev) where
  advance-handed :
      (bytes : Bytes) (r : Result ℕ (Unit {0}) × Space)
      → advance fd f (length bytes) (r.0, record k { space = r.1 })
        ≡ handed fd f bytes (f.offset + length bytes) k r
  advance-handed bytes (ok a, s) = refl
  advance-handed bytes (err e, s) = refl

  module _ (todo : List DirItem) (listed : f.content ≡ serialize_dirents (done ++ todo))
      (at : f.offset ≡ length (serialize_dirents done)) where
    left : drop f.offset f.content ≡ records_of done todo
    left =
        ap (λ n. drop n f.content) at
        ∙ ap (drop (length (serialize_dirents done))) listed
        ∙ drop-serialize_dirents done todo

    whole : length f.content ≡ f.offset + length (records_of done todo)
    whole = omega (arith, ap length listed, at, length-serialize_dirents done todo)

    amount : fitting count todo ≡ length (records_of done (taken count todo))
    amount = fitting-taken count (length done) (length (serialize_dirents done)) todo

    given :
        take (length (records_of done (taken count todo))) (drop f.offset f.content)
        ≡ records_of done (taken count todo)
    given =
        ap (λ n. take n (drop f.offset f.content)) (sym amount)
        ∙ ap (take (fitting count todo)) left
        ∙ take-fitting count (length done) (length (serialize_dirents done)) todo

    -- Some records fit.
    span-handed :
        (first : DirItem) (more : List DirItem)
        → taken count todo ≡ first ∷ more
        → list_span fd f buf (span (fitting count todo)) k
          ≡ some (
              handed fd f
                (records_of done (first ∷ more))
                (length (serialize_dirents (done ++ (first ∷ more))))
                k
                (copy_to_user buf (records_of done (first ∷ more)) k.space))
    span-handed first more e =
        let bytes = records_of done (first ∷ more) in
        let n : fitting count todo ≡ length bytes =
          amount ∙ ap (λ l. length (records_of done l)) e in
        let chunk : take (length bytes) (drop f.offset f.content) ≡ bytes =
          ap (λ l. take (length (records_of done l)) (drop f.offset f.content)) (sym e)
          ∙ given
          ∙ ap (records_of done) e in
        let long : (length bytes == 0) ≡ false =
          ground (arith, dirents-pos (length done) (length (serialize_dirents done)) first more) in
        let end : f.offset + length bytes ≡ length (serialize_dirents (done ++ (first ∷ more))) =
          omega (arith, at, length-serialize_dirents done (first ∷ more)) in
        ap (λ x. list_span fd f buf (span x) k) n
        ∙ rw (long, chunk)
            (ap some (
              advance-handed bytes (copy_to_user buf bytes k.space)
              ∙ ap (λ x. handed fd f bytes x k (copy_to_user buf bytes k.space)) end))

  span-answer :
      (todo : List DirItem)
      → f.content ≡ serialize_dirents (done ++ todo)
      → f.offset ≡ length (serialize_dirents done)
      → list_span fd f buf (span (fitting count todo)) k
        ≡ some (answer fd buf f done todo (taken count todo) k)
  span-answer [] listed at =
      let over : leb (length f.content) f.offset ≡ true = ground (arith, whole [] listed at) in
      rw over refl
  span-answer (item ∷ items) listed at = go (taken count (item ∷ items)) refl
    where
      go :
          (more : List DirItem)
          → taken count (item ∷ items) ≡ more
          → list_span fd f buf (span (fitting count (item ∷ items))) k
            ≡ some (answer fd buf f done (item ∷ items) more k)
      go [] e =
          let nothing : fitting count (item ∷ items) ≡ 0 =
            amount (item ∷ items) listed at ∙ ap (λ l. length (records_of done l)) e in
          let start = length (serialize_dirents done) in
          let over : leb (length f.content) f.offset ≡ false =
            ground
              (arith, whole (item ∷ items) listed at, dirents-pos (length done) start item items) in
          ap (λ x. list_span fd f buf (span x) k) nothing ∙ rw over refl
      go (first ∷ more) e = span-handed (item ∷ items) listed at first more e

-- A descriptor stands for a directory whose listing was made by `open`, the cursor is behind the
-- records of the entries `done`, and no name is so long that the length of its record does not fit
-- into 16 bits. Then `sys_getdents64` neither panics nor loops for ever. It takes the entries behind
-- `done` whose records fit whole into the buffer, one behind the other: their bytes of the listing
-- are copied to the caller, the number of the bytes is the answer, and the cursor is behind these
-- entries. If the copy fails, its error is the answer and the cursor stays. If no entry is left the
-- answer is 0, and if the first one left does not fit it is EINVAL; then no descriptor and no byte of memory changes.
pub sys_getdents64-fitting :
    {Dev : Type 0} (fd buf count : ℕ) (f : OpenFile) (done todo : List DirItem) (k : Kernel Dev)
    → fd_at fd k ≡ some (file f)
    → f.is_dir ≡ true
    → All IsShort todo
    → f.content ≡ serialize_dirents (done ++ todo)
    → f.offset ≡ length (serialize_dirents done)
    → sys_getdents64 fd buf count k ≡ some (answer fd buf f done todo (taken count todo) (touch k))
sys_getdents64-fitting fd buf count f done todo k here dir short listed at =
    sys_getdents64-span fd buf count f done todo k here dir short listed at
    ∙ span-answer fd buf count f done (touch k) todo listed at
