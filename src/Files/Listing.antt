-- ===== src/Files/Listing.antt =====
-- src/syscall/files.rs: the loop of `getdents64` on the records that `open` made of a directory.
pub mod Answer
use ferros.Prelude.{
  ℕ, zero, suc, ◌+◌, ◌-◌, ◌/◌, ◌≤◌, ◌<◌, ◌≡◌, refl, sym, ap, ◌∙◌, append_assoc, inl, inr, true,
  some, err, List, [], ◌∷◌, ◌++◌, arith,
}
use ferros.Prelude.{
  if◌then◌else◌, ltb, length, drop, get_or, replicate, Bytes, All, le16, to_le, length-append,
  length-replicate, length-drop, Bool-cases,
}
use ferros.Fat.Slot.{DirItem}
use ferros.Files.Open.{header, reclen, dirent, dirents_from, serialize_dirents}
use ferros.Abi.{enotdir}
use ferros.Files.Kernel.{OpenFile, file, Kernel, fd_at, touch}
use ferros.Files.Getdents.{span, span_loop, records, list_span, list_entry, sys_getdents64}

-- The bytes of the records that fit into `count` bytes: as many as there are, and none in part.
abbrev pub fitting : ℕ → List DirItem → ℕ
fitting count [] = 0
fitting count (item ∷ items) =
    let rest = fitting (count - reclen item.name) items in
    if ltb count (reclen item.name) then 0 else reclen item.name + rest

-- The length of a record fits into the two bytes that hold it.
abbrev pub IsShort : DirItem → Type 0
IsShort item = reclen item.name < 65536

length-to_le : (n x : ℕ) → length (to_le n x) ≡ n
length-to_le zero x = refl
length-to_le (suc n) x = ap suc (length-to_le n (x / 256))

pub length-dirent : (i start : ℕ) (item : DirItem) → length (dirent i start item) ≡ reclen item.name
unfolding dirent
length-dirent i start item =
    let pad : Bytes = replicate (reclen item.name - (header + length item.name)) 0 in
    let padded : length pad ≡ reclen item.name - (header + length item.name) =
      length-replicate (reclen item.name - (header + length item.name)) _ in
    omega (arith, length-append item.name pad, padded)

-- Where `getdents64` looks for the length.
reclen-dirent :
    (i start : ℕ) (item : DirItem) (rest : Bytes)
    → IsShort item
    → le16 (get_or (dirent i start item ++ rest) 16 0) (get_or (dirent i start item ++ rest) 17 0)
      ≡ reclen item.name
unfolding dirent
reclen-dirent i start item rest short = omega arith

drop-append : (xs ys : Bytes) → drop (length xs) (xs ++ ys) ≡ ys
drop-append [] ys = refl
drop-append (x ∷ xs) ys = drop-append xs ys

drop-add : (m n : ℕ) (xs : Bytes) → drop (m + n) xs ≡ drop n (drop m xs)
drop-add zero n xs = let e : 0 + n ≡ n = omega arith in ap (λ j. drop j xs) e
drop-add (suc m) zero [] = let e : suc m + 0 ≡ suc m = omega arith in ap (λ j. drop j []) e
drop-add (suc m) (suc n) [] =
    let e : suc m + suc n ≡ suc (m + suc n) = omega arith in ap (λ j. drop j []) e
drop-add (suc m) n (x ∷ xs) =
    let e : suc m + n ≡ suc (m + n) = omega arith in ap (λ j. drop j (x ∷ xs)) e ∙ drop-add m n xs

length-le-dirents :
    (i start : ℕ) (items : List DirItem) → length items ≤ length (dirents_from i start items)
length-le-dirents i start [] = omega arith
length-le-dirents i start (item ∷ items) =
    let start' = start + reclen item.name in
    omega (
      arith,
      length-le-dirents (i + 1) start' items,
      length-dirent i start item,
      length-append (dirent i start item) (dirents_from (i + 1) start' items),
    )

pub dirents-append :
    (i start : ℕ) (xs ys : List DirItem)
    → dirents_from i start (xs ++ ys)
      ≡ dirents_from i start xs
        ++ dirents_from (i + length xs) (start + length (dirents_from i start xs)) ys
dirents-append i start [] ys =
    let e : i ≡ i + 0 = omega arith in
    let e' : start ≡ start + 0 = omega arith in
    ap (λ j. dirents_from j start ys) e ∙ ap (λ s. dirents_from (i + 0) s ys) e'
dirents-append i start (x ∷ xs) ys =
    let start' = start + reclen x.name in
    let head = dirent i start x in
    let middle = dirents_from (i + 1) start' xs in
    let e : i + 1 + length xs ≡ i + suc (length xs) = omega arith in
    let e' : start' + length middle ≡ start + length (head ++ middle) =
      omega (arith, length-append head middle, length-dirent i start x) in
    ap (λ b. head ++ b) (dirents-append (i + 1) start' xs ys)
    ∙ sym (append_assoc head middle (dirents_from (i + 1 + length xs) (start' + length middle) ys))
    ∙ ap (λ j. (head ++ middle) ++ dirents_from j (start' + length middle) ys) e
    ∙ ap (λ s. (head ++ middle) ++ dirents_from (i + suc (length xs)) s ys) e'

-- The loop, at a boundary between records.
span_loop-fitting :
    (items : List DirItem) (fuel i start count len : ℕ) (content : Bytes)
    → All IsShort items
    → drop len content ≡ dirents_from i start items
    → length content ≡ len + length (dirents_from i start items)
    → length items < fuel
    → len ≤ count
    → span_loop fuel content count len ≡ span (len + fitting (count - len) items)
unfolding span_loop
span_loop-fitting items zero i start count len content short at whole enough room =
    absurd (omega arith)
span_loop-fitting [] (suc fuel) i start count len content short at whole enough room =
    ground (arith, whole)
span_loop-fitting (item ∷ items) (suc fuel) i start count len content (s, short) at whole enough
      room =
    let rest = dirents_from (i + 1) (start + reclen item.name) items in
    let size = length-append (dirent i start item) rest in
    let next : drop (len + reclen item.name) content ≡ rest =
      drop-add len (reclen item.name) content
      ∙ ap (drop (reclen item.name)) at
      ∙ ap (λ n. drop n (dirent i start item ++ rest)) (sym (length-dirent i start item))
      ∙ drop-append (dirent i start item) rest in
    let long : length (drop len content) ≡ reclen item.name + length rest =
      ap length at ∙ size ∙ ap (λ n. n + length rest) (length-dirent i start item) in
    let field : le16 (get_or (drop len content) 16 0) (get_or (drop len content) 17 0)
        ≡ reclen item.name =
      ap (λ b. le16 (get_or b 16 0) (get_or b 17 0)) at ∙ reclen-dirent i start item rest s in
    let left : count - (len + reclen item.name) ≡ count - len - reclen item.name = omega arith in
    elim (Bool-cases (ltb count (len + reclen item.name))) [
      | inl e ↦
          rw (span_loop, field) (ground (arith, whole, size, long, length-dirent i start item, e))
      | inr e ↦
          let more =
            span_loop-fitting items fuel (i + 1) (start + reclen item.name) count
              (len + reclen item.name) content short next
              (omega (arith, whole, size, length-dirent i start item)) (omega arith)
              (ground arith) in
          rw (span_loop, field)
            (ground (
              arith,
              whole,
              size,
              long,
              length-dirent i start item,
              e,
              more,
              ap (λ n. fitting n items) left,
            ))
    ]

-- What is left of a listing behind the records that were read.
pub drop-serialize_dirents :
    (done todo : List DirItem)
    → drop (length (serialize_dirents done)) (serialize_dirents (done ++ todo))
      ≡ dirents_from (length done) (length (serialize_dirents done)) todo
unfolding serialize_dirents
drop-serialize_dirents done todo =
    ap (drop (length (dirents_from 0 0 done))) (dirents-append 0 0 done todo)
    ∙ drop-append (dirents_from 0 0 done)
        (dirents_from (0 + length done) (0 + length (dirents_from 0 0 done)) todo)
    ∙ (let e : 0 + length done ≡ length done = omega arith in
        let e' : 0 + length (dirents_from 0 0 done) ≡ length (dirents_from 0 0 done) =
          omega arith in
        ap (λ j. dirents_from j (0 + length (dirents_from 0 0 done)) todo) e
        ∙ ap (λ s. dirents_from (length done) s todo) e')

records-fitting :
    (f : OpenFile) (count : ℕ) (done todo : List DirItem)
    → All IsShort todo
    → f.content ≡ serialize_dirents (done ++ todo)
    → f.offset ≡ length (serialize_dirents done)
    → records f count ≡ span (fitting count todo)
records-fitting f count done todo short listed at =
    let start = length (serialize_dirents done) in
    let rest = dirents_from (length done) start todo in
    let left : drop f.offset f.content ≡ rest =
      ap (λ n. drop n f.content) at ∙ ap (drop start) listed ∙ drop-serialize_dirents done todo in
    let shorter : length rest ≤ length f.content =
      omega (arith, ap length left, length-drop f.offset f.content) in
    let none_read : 0 + fitting (count - 0) todo ≡ fitting count todo =
      let e : count - 0 ≡ count = omega arith in omega (arith, ap (λ n. fitting n todo) e) in
    span_loop-fitting todo (suc (length f.content)) (length done) start count 0
      (drop f.offset f.content) short left (omega (arith, ap length left))
      (omega (arith, shorter, length-le-dirents (length done) start todo)) (omega arith)
    ∙ ap span none_read

-- The call, at a cursor behind the records of some entries.
pub sys_getdents64-span :
    {Dev : Type 0} (fd buf count : ℕ) (f : OpenFile) (done todo : List DirItem) (k : Kernel Dev)
    → fd_at fd k ≡ some (file f)
    → f.is_dir ≡ true
    → All IsShort todo
    → f.content ≡ serialize_dirents (done ++ todo)
    → f.offset ≡ length (serialize_dirents done)
    → sys_getdents64 fd buf count k ≡ list_span fd f buf (span (fitting count todo)) (touch k)
unfolding sys_getdents64
sys_getdents64-span fd buf count f done todo k here dir short listed at =
    ap (λ o. list_entry fd o buf count (touch k)) here
    ∙ ap
        (λ b.
          if b then list_span fd f buf (records f count) (touch k) else some (err enotdir, touch k))
        dir
    ∙ ap (λ s. list_span fd f buf s (touch k)) (records-fitting f count done todo short listed at)
