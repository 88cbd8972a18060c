-- ===== src/Block/Ram.antt =====
-- A disk in memory: the laws that src/fs/fat.rs relies on can hold.
use ferros.Prelude.{
  ℕ, zero, suc, ◌%◌, ◌<◌, ◌≡◌, ◌≢◌, refl, ◌∙◌, inl, inr, Bool, true, ◌&&◌, [], ◌∷◌, Result, ok, err,
  arith,
}
use ferros.Prelude.{if◌then◌else◌, ltb, ◌==◌, Bool-cases, Bytes, length, get_or}
use ferros.Block.{BlkError, device_error, BlockDevice, Laws, sector_size}

-- The byte at an offset of a sector, reduced to a byte when it is read.
abbrev pub Ram : Type 0
Ram = ℕ → ℕ → ℕ

abbrev pub tabulate : ℕ → (ℕ → ℕ) → Bytes
tabulate zero f = []
tabulate (suc n) f = f 0 ∷ tabulate n (λ k. f (suc k))

abbrev pub ram_image : Ram → ℕ → Bytes
ram_image s i = tabulate sector_size (λ k. s i k % 256)

abbrev pub all_bytes : Bytes → Bool
all_bytes [] = true
all_bytes (b ∷ bs) = ltb b 256 && all_bytes bs

-- A write of what is not bytes fails.
abbrev pub ram_write : ℕ → Bytes → Ram → Result BlkError (Unit {0}) × Ram
ram_write i b s =
    if all_bytes b
    then (ok tt, λ j k. if i == j then get_or b k 0 else s j k)
    else (err (device_error 1), s)

abbrev pub ram : BlockDevice
ram = record { Dev = Ram; read_sector = λ i s. (ok (ram_image s i), s); write_sector = ram_write }

pub length-tabulate : (n : ℕ) (f : ℕ → ℕ) → length (tabulate n f) ≡ n
length-tabulate zero f = refl
length-tabulate (suc n) f = ground (arith, length-tabulate n (λ k. f (suc k)))

pub get_or-tabulate :
    (n : ℕ) (f : ℕ → ℕ) (k : ℕ) → ((j : ℕ) → f j < 256) → get_or (tabulate n f) k 0 < 256
get_or-tabulate zero f k h = omega arith
get_or-tabulate (suc n) f zero h = h 0
get_or-tabulate (suc n) f (suc k) h = get_or-tabulate n (λ j. f (suc j)) k (λ j. h (suc j))

tabulate-get_or :
    (n : ℕ) (b : Bytes)
    → length b ≡ n
    → all_bytes b ≡ true
    → tabulate n (λ k. get_or b k 0 % 256) ≡ b
tabulate-get_or zero [] e h = refl
tabulate-get_or zero (x ∷ xs) e h = absurd (omega arith)
tabulate-get_or (suc n) [] e h = absurd (omega arith)
tabulate-get_or (suc n) (x ∷ xs) e h = ground (arith, tabulate-get_or n xs (omega arith))

tabulate_ext : (n : ℕ) (f g : ℕ → ℕ) → ((k : ℕ) → f k ≡ g k) → tabulate n f ≡ tabulate n g
tabulate_ext zero f g h = refl
tabulate_ext (suc n) f g h =
    cc (h 0, tabulate_ext n (λ k. f (suc k)) (λ k. g (suc k)) (λ k. h (suc k)))

pub ram_write-ok :
    (s : Ram) (i : ℕ) (b : Bytes)
    → length b ≡ sector_size
    → (ram_write i b s).0 ≡ ok tt
    → ram_image (ram_write i b s).1 i ≡ b
ram_write-ok s i b e h = elim (Bool-cases (all_bytes b)) [
  | inl bytes ↦ rw bytes (
      tabulate_ext sector_size (λ k. (if i == i then get_or b k 0 else s i k) % 256)
        (λ k. get_or b k 0 % 256) (λ k. ground arith)
      ∙ tabulate-get_or sector_size b e bytes)
  | inr other ↦ absurd (ground arith)
]

pub ram_image-write_ne :
    (s : Ram) (i j : ℕ) (b : Bytes) → i ≢ j → ram_image (ram_write i b s).1 j ≡ ram_image s j
ram_image-write_ne s i j b ne = elim (Bool-cases (all_bytes b)) [
  | inl bytes ↦ rw bytes (
      tabulate_ext sector_size (λ k. (if i == j then get_or b k 0 else s j k) % 256)
        (λ k. s j k % 256) (λ k. ground arith))
  | inr other ↦ rw other refl
]

pub ram_read-ok : (s : Ram) (i : ℕ) {b : Bytes} → (ram.read_sector i s).0 ≡ ok b → b ≡ ram_image s i
ram_read-ok s i {b} e = ground arith

abbrev pub ram_laws : Laws ram
ram_laws = record {
  image = ram_image;
  length-image = λ s i. length-tabulate sector_size (λ k. s i k % 256);
  image-byte = λ s i k. get_or-tabulate sector_size (λ j. s i j % 256) k (λ j. omega arith);
  image-read = λ s i j. refl;
  read-ok = ram_read-ok;
  write-ok = ram_write-ok;
  image-write_ne = ram_image-write_ne;
}
