-- ===== src/Fat/Table/Entry.antt =====
-- Writing and reading one entry of the table of src/fs/fat.rs, in all its copies.
use ferros.Prelude.{
  ℕ, zero, suc, ◌+◌, ◌*◌, ◌/◌, ◌%◌, ◌≤◌, ◌<◌, ◌≡◌, ◌≢◌, sym, subst, ap, ◌∙◌, Result, ok, err, arith,
}
use ferros.Prelude.{>>=-ok, length, Bytes, to_le}
use native.Mathlib.Decide.{ℕ_discrete, dec_lt}
use ferros.Block.{BlockDevice, BlkError, Laws, sector_size}
use ferros.Block.Calls.{read-image, write-image}
use ferros.Fat.Volume.{Fat32, lift_error, read_u32, read_sector, write_sector}
use ferros.Fat.Table.{
  fat_offset, patch_entry, merge_entry, fat_sector, write_fat_copy, write_fat_copies,
  write_fat_entry,
}
use ferros.Fat.Table.Splice.{length-splice}

-- The copies of the table fit below 2^32 sectors, and each has a word for each cluster.
pub record IsLaidOut (v : Fat32) : Type 0 where
  pub below : v.fat_start_sector + v.num_fats * v.fat_size ≤ 4294967296
  pub covers : (2 + v.cluster_count) * 4 ≤ v.fat_size * sector_size
  pub small : (2 + v.cluster_count) * 4 ≤ 4294967296
  pub one_copy : 1 ≤ v.num_fats

abbrev pub HasEntry : Fat32 → ℕ → Type 0
HasEntry v cluster = cluster < 2 + v.cluster_count

copy_below : (i n size w : ℕ) → i < n → w < size → i * size + w < n * size
copy_below i n size w h k = grind arith

pub copies_apart : (i j size w w' : ℕ) → i < j → w < size → i * size + w < j * size + w'
copies_apart i j size w w' h k = grind arith

module _ (d : BlockDevice) (v : Fat32) (laid : IsLaidOut v) where
  pub fat_sector_lem :
      (i c : ℕ)
      → i < v.num_fats
      → HasEntry v c
      → (fat_sector d v i c ≡ v.fat_start_sector + (i * v.fat_size + c * 4 / sector_size))
        × (c * 4 / sector_size < v.fat_size)
        × (fat_offset c ≡ c * 4)
  fat_sector_lem i c h k =
      let offset : fat_offset c ≡ c * 4 = omega (arith, laid.small) in
      let w : c * 4 / sector_size < v.fat_size = omega (arith, laid.covers) in
      let bound : i * v.fat_size + c * 4 / sector_size < v.num_fats * v.fat_size =
        copy_below i v.num_fats v.fat_size (c * 4 / sector_size) h w in
      (omega (arith, laid.below, offset, bound), w, offset)

  fat_sector_ne :
      (i j c : ℕ)
      → i < v.num_fats
      → j < v.num_fats
      → HasEntry v c
      → i ≢ j
      → fat_sector d v i c ≢ fat_sector d v j c
  fat_sector_ne i j c hi hj hc ne e =
      let (at_i, w, o) = fat_sector_lem i c hi hc in
      let (at_j, w', o') = fat_sector_lem j c hj hc in
      elim (dec_lt i j) [
        | yes lt ↦
            omega
              (arith, copies_apart i j v.fat_size (c * 4 / sector_size) (c * 4 / sector_size) lt w)
        | no ge ↦ omega (
          arith,
          copies_apart j i v.fat_size (c * 4 / sector_size) (c * 4 / sector_size) (omega arith) w,
        )
      ]

module _ (d : BlockDevice) where
  pub lift-ok :
      {A : Type 0} (m : Result BlkError A × d.Dev) (a : A) (s : d.Dev)
      → lift_error m ≡ (ok a, s)
      → m ≡ (ok a, s)
  lift-ok (ok b, t) a s e = ground arith
  lift-ok (err x, t) a s e = absurd (ground arith)

length-patch_entry :
    (buf : Bytes) (c value : ℕ)
    → length buf ≡ sector_size
    → length (patch_entry buf (fat_offset c % sector_size) value) ≡ sector_size
length-patch_entry buf c value h =
    length-splice buf (fat_offset c % sector_size)
      (to_le 4 (merge_entry (read_u32 buf (fat_offset c % sector_size)) value)) (omega (arith, h))
    ∙ h

module _ (d : BlockDevice) (laws : Laws d) (v : Fat32) where
  open laws use {image, length-image}

  write_fat_copy-image :
      (c value i : ℕ) (s s' : d.Dev)
      → write_fat_copy d v c value i s ≡ (ok tt, s')
      → (image s' (fat_sector d v i c)
          ≡ patch_entry (image s (fat_sector d v i c)) (fat_offset c % sector_size) value)
        × ((j : ℕ) → fat_sector d v i c ≢ j → image s' j ≡ image s j)
  unfolding write_fat_copy
  write_fat_copy-image c value i s s' e =
      let sector = fat_sector d v i c in
      let off = fat_offset c % sector_size in
      let (buf, t, got, put) =
        >>=-ok (read_sector d sector) (λ buf. write_sector d sector (patch_entry buf off value)) s
          e in
      let (same, kept) =
        read-image d laws sector s t buf (lift-ok d (d.read_sector sector s) buf t got) in
      let size = length-patch_entry buf c value (ap length same ∙ length-image s sector) in
      let (stored, others) =
        write-image d laws sector (patch_entry buf off value) t s' size
          (lift-ok d (d.write_sector sector (patch_entry buf off value) t) tt s' put) in
      (stored ∙ ap (λ b. patch_entry b off value) same, λ j ne. others j ne ∙ kept j)

module _ (d : BlockDevice) (laws : Laws d) (v : Fat32) (laid : IsLaidOut v) (c value : ℕ)
    (has : HasEntry v c) where
  open laws use {image, length-image}

  abbrev sector : ℕ → ℕ
  sector i = fat_sector d v i c

  abbrev patched : Bytes → Bytes
  patched b = patch_entry b (fat_offset c % sector_size) value

  -- The copies from `from` on, `left` of them, are patched, and no other sector is touched.
  write_fat_copies-image :
      (left from : ℕ) (s s' : d.Dev)
      → from + left ≤ v.num_fats
      → write_fat_copies d v c value left from s ≡ (ok tt, s')
      → ((i : ℕ) → from ≤ i → i < from + left → image s' (sector i) ≡ patched (image s (sector i)))
        × ((j : ℕ) → ((i : ℕ) → from ≤ i → i < from + left → sector i ≢ j) → image s' j ≡ image s j)
  unfolding write_fat_copies
  write_fat_copies-image zero from s s' h e =
      (λ i lo hi. absurd (omega arith), λ j apart. sym (ap (λ r. image r.1 j) e))
  write_fat_copies-image (suc left) from s s' h e =
      let (a, t, first, others) =
        >>=-ok (write_fat_copy d v c value from) (λ _. write_fat_copies d v c value left (from + 1))
          s e in
      let (now, kept) = write_fat_copy-image d laws v c value from s t first in
      let (later, untouched) = write_fat_copies-image left (from + 1) t s' (omega arith) others in
      (
        λ i lo hi. elim (ℕ_discrete from i) [
          | yes here ↦
              subst (λ k. image s' (sector k) ≡ patched (image s (sector k))) here
                (untouched (sector from) (λ k lo' hi'.
                    fat_sector_ne d v laid k from c (omega arith) (omega arith) has (omega arith))
                  ∙ now)
          | no there ↦
              later i (omega arith) (omega arith)
              ∙ ap patched (
                  kept (sector i)
                    (fat_sector_ne d v laid from i c (omega arith) (omega arith) has there))
        ],
        λ j apart.
            untouched j (λ i lo hi. apart i (omega arith) (omega arith))
            ∙ kept j (apart from (omega arith) (omega arith)),
      )

  -- Where the copies of the table do not overlap, a write of an entry that succeeds has patched the
  -- sector of the entry in each copy, and has touched no other sector of the disk.
  pub write_fat_entry-image :
      (s s' : d.Dev)
      → write_fat_entry d v c value s ≡ (ok tt, s')
      → ((i : ℕ) → i < v.num_fats → image s' (sector i) ≡ patched (image s (sector i)))
        × ((j : ℕ) → ((i : ℕ) → i < v.num_fats → sector i ≢ j) → image s' j ≡ image s j)
  unfolding write_fat_entry
  write_fat_entry-image s s' e =
      let (now, kept) = write_fat_copies-image v.num_fats 0 s s' (omega arith) e in
      (
        λ i h. now i (omega arith) (omega arith),
        λ j apart. kept j (λ i lo hi. apart i (omega arith)),
      )
