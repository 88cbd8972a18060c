-- ===== src/Fat/Table/ReadBack.antt =====
-- What `next_cluster` of src/fs/fat.rs reads after `write_fat_entry`.
use ferros.Prelude.{
  ℕ, ◌+◌, ◌*◌, ◌/◌, ◌%◌, ◌≤◌, ◌<◌, ◌≡◌, ◌≢◌, sym, ap, ◌∙◌, ◌⊎◌, inl, inr, ok, arith,
}
use ferros.Prelude.{
  if◌then◌else◌, ◌==◌, Bool-cases, ==→≡, ==→≢, pure, >>=-ok, length, Bytes, to_le, get_or,
}
use native.Mathlib.Decide.{ℕ_discrete, dec_lt}
use ferros.Block.{BlockDevice, Laws, sector_size}
use ferros.Block.Calls.{read-image}
use ferros.Fat.Volume.{Fat32, u32, entry_bits, read_u32, read_sector}
use ferros.Fat.Table.{
  fat_offset, patch_entry, merge_entry, fat_sector, next_cluster, write_fat_entry,
}
use ferros.Fat.Table.Splice.{read_u32-splice_self, read_u32-splice_apart}
use ferros.Fat.Table.Entry.{
  IsLaidOut, HasEntry, fat_sector_lem, copies_apart, lift-ok, write_fat_entry-image,
}

read_u32-lt : (b : Bytes) (j : ℕ) → ((k : ℕ) → get_or b k 0 < 256) → read_u32 b j < 4294967296
read_u32-lt b j h = omega (arith, h j, h (j + 1), h (j + 2), h (j + 3))

-- The word of a sector's copy after the patch: new low bits, the old reserved bits.
read_u32-patch_entry :
    (b : Bytes) (off value : ℕ)
    → off + 4 ≤ length b
    → ((k : ℕ) → get_or b k 0 < 256)
    → read_u32 (patch_entry b off value) off ≡ merge_entry (read_u32 b off) value
read_u32-patch_entry b off value h small =
    read_u32-splice_self b off (merge_entry (read_u32 b off) value) h
      (omega (arith, read_u32-lt b off small))

module _ (d : BlockDevice) (laws : Laws d) (v : Fat32) where
  open laws use {image, length-image, image-byte}

  -- The word of cluster `c` in copy `i` of the table.
  abbrev pub entry_word : d.Dev → ℕ → ℕ → ℕ
  entry_word s i c = read_u32 (image s (fat_sector d v i c)) (fat_offset c % sector_size)

  next_cluster-entry_word :
      (laid : IsLaidOut v) (c r : ℕ) (s s' : d.Dev)
      → HasEntry v c
      → next_cluster d v c s ≡ (ok r, s')
      → r ≡ entry_bits (entry_word s 0 c)
  unfolding next_cluster
  next_cluster-entry_word laid c r s s' has e =
      let sector = u32 (v.fat_start_sector + fat_offset c / sector_size) in
      let off = fat_offset c % sector_size in
      let (buf, t, got, out) =
        >>=-ok (read_sector d sector) (λ buf. pure (entry_bits (read_u32 buf off))) s e in
      let (same, kept) =
        read-image d laws sector s t buf (lift-ok d (d.read_sector sector s) buf t got) in
      let place : sector ≡ fat_sector d v 0 c = omega arith in
      let value : entry_bits (read_u32 buf off) ≡ r = ground arith in
      sym value ∙ ap (λ b. entry_bits (read_u32 b off)) (same ∙ ap (image s) place)

  module _ (laid : IsLaidOut v) (c value : ℕ) (has : HasEntry v c) (s s' : d.Dev)
      (done : write_fat_entry d v c value s ≡ (ok tt, s')) where
    entry_word_self :
        (i : ℕ) → i < v.num_fats → entry_word s' i c ≡ merge_entry (entry_word s i c) value
    entry_word_self i h =
        ap (λ b. read_u32 b (fat_offset c % sector_size))
          ((write_fat_entry-image d laws v laid c value has s s' done).0 i h)
        ∙ read_u32-patch_entry (image s (fat_sector d v i c)) (fat_offset c % sector_size) value
            (omega (arith, length-image s (fat_sector d v i c))) (image-byte s (fat_sector d v i c))

    -- Another cluster's word shares the sector, and stands elsewhere in it, or stands in a sector
    -- that is not written.
    entry_word_ne :
        (i c' : ℕ)
        → i < v.num_fats
        → HasEntry v c'
        → c' ≢ c
        → entry_word s' i c' ≡ entry_word s i c'
    entry_word_ne i c' h has' ne =
        let (at_c, w, o) = fat_sector_lem d v laid i c h has in
        let (at_c', w', o') = fat_sector_lem d v laid i c' h has' in
        elim (ℕ_discrete (c * 4 / sector_size) (c' * 4 / sector_size)) [
          | yes same ↦
              let place : fat_sector d v i c' ≡ fat_sector d v i c = omega arith in
              ap (λ n. read_u32 (image s' n) (fat_offset c' % sector_size)) place
              ∙ ap (λ b. read_u32 b (fat_offset c' % sector_size))
                  ((write_fat_entry-image d laws v laid c value has s s' done).0 i h)
              ∙ read_u32-splice_apart (image s (fat_sector d v i c)) (fat_offset c % sector_size)
                  (fat_offset c' % sector_size)
                  (to_le 4 (
                    merge_entry
                      (read_u32 (image s (fat_sector d v i c)) (fat_offset c % sector_size)) value))
                  (omega (arith, length-image s (fat_sector d v i c))) (apart same o o')
              ∙ sym (ap (λ n. read_u32 (image s n) (fat_offset c' % sector_size)) place)
          | no other ↦
              ap (λ b. read_u32 b (fat_offset c' % sector_size))
                ((write_fat_entry-image d laws v laid c value has s s' done).1 (fat_sector d v i c')
                  (λ j hj e.
                    let (at_j, wj, oj) = fat_sector_lem d v laid j c hj has in
                    not_there i j h hj at_c' at_j w w' other e))
        ]
      where
        apart :
            c * 4 / sector_size ≡ c' * 4 / sector_size
            → fat_offset c ≡ c * 4
            → fat_offset c' ≡ c' * 4
            → (fat_offset c' % sector_size + 4 ≤ fat_offset c % sector_size)
              ⊎ (fat_offset c % sector_size + 4 ≤ fat_offset c' % sector_size)
        apart same o o' = elim (dec_lt c' c) [
          | yes lt ↦ inl (omega arith)
          | no ge ↦ inr (omega arith)
        ]

        not_there :
            (i j : ℕ)
            → i < v.num_fats
            → j < v.num_fats
            → fat_sector d v i c' ≡ v.fat_start_sector + (i * v.fat_size + c' * 4 / sector_size)
            → fat_sector d v j c ≡ v.fat_start_sector + (j * v.fat_size + c * 4 / sector_size)
            → c * 4 / sector_size < v.fat_size
            → c' * 4 / sector_size < v.fat_size
            → c * 4 / sector_size ≢ c' * 4 / sector_size
            → fat_sector d v j c ≢ fat_sector d v i c'
        not_there i j hi hj at_i at_j w w' other e = elim (ℕ_discrete i j) [
          | yes same ↦ omega (arith, ap (λ k. k * v.fat_size) same)
          | no ne ↦ elim (dec_lt i j) [
            | yes lt ↦ omega (
              arith,
              copies_apart i j v.fat_size (c' * 4 / sector_size) (c * 4 / sector_size) lt w',
            )
            | no ge ↦ omega (
              arith,
              copies_apart j i v.fat_size (c * 4 / sector_size) (c' * 4 / sector_size) (omega arith)
                  w,
            )
          ]
        ]

    entry_word_merged :
        (i c' : ℕ)
        → i < v.num_fats
        → HasEntry v c'
        → entry_word s' i c'
          ≡ (if c' == c then merge_entry (entry_word s i c) value else entry_word s i c')
    entry_word_merged i c' h has' = elim (Bool-cases (c' == c)) [
      | inl same ↦ rw (same, ==→≡ c' c same) (entry_word_self i h)
      | inr other ↦ rw other (entry_word_ne i c' h has' (==→≢ c' c other))
    ]

    -- The copies of the table fit below sector 2^32 and have a word for each cluster, and both
    -- clusters are below the end of the volume; the write and the reads before and after it
    -- succeed. The next cluster that is read after the write: the written one at that cluster, and
    -- elsewhere the one that was read before.
    pub next_cluster-write_fat_entry :
        (c' r r' : ℕ) (t t' : d.Dev)
        → HasEntry v c'
        → next_cluster d v c' s ≡ (ok r, t)
        → next_cluster d v c' s' ≡ (ok r', t')
        → r' ≡ (if c' == c then entry_bits value else r)
    next_cluster-write_fat_entry c' r r' t t' has' before after = ground (
      arith,
      next_cluster-entry_word laid c' r s t has' before,
      next_cluster-entry_word laid c' r' s' t' has' after,
      entry_word_merged 0 c' laid.one_copy has',
    )
