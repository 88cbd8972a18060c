-- ===== src/Fat/Table.antt =====
-- src/fs/fat.rs: the file allocation table. Each cluster has a word of 32 bits there, in `num_fats`
-- copies; its low 28 bits are 0 (free), the next cluster of the chain, or the end mark.
pub mod Splice
pub mod Entry
pub mod ReadBack
pub mod Alloc
use ferros.Prelude.{
  ℕ, zero, suc, ◌+◌, ◌-◌, ◌*◌, ◌/◌, ◌%◌, ◌^◌, Bool, true, false, ◌&&◌, ◌||◌, List, [], ◌∷◌, ◌++◌,
  Option, none, some, M, pure, throw, ◌>>=◌, ◌>>◌, ok, err, Result,
}
use ferros.Prelude.{if◌then◌else◌, ltb, leb, ◌==◌, take, drop, Bytes, to_le, length, replicate, min}
use ferros.Block.{BlockDevice, sector_size}
use ferros.Fat.Volume.{
  Fat32, FatError, no_space, u32, entry_bits, fat32_eoc, first_data_cluster, fat_entries_per_sector,
  read_u32, read_sector, write_sector, valid_cluster, first_sector_of_cluster,
}

-- `buf[offset..offset + n].copy_from_slice(bytes)` for `n` bytes.
abbrev pub splice : Bytes → ℕ → Bytes → Bytes
splice buf offset bytes = take offset buf ++ (bytes ++ drop (offset + length bytes) buf)

abbrev pub fat_offset : ℕ → ℕ
fat_offset cluster = u32 (cluster * 4)

-- `(old & !MASK) | (value & MASK)`: the four reserved bits stay.
abbrev pub merge_entry : ℕ → ℕ → ℕ
merge_entry old value = old / 268435456 * 268435456 + entry_bits value

abbrev pub patch_entry : Bytes → ℕ → ℕ → Bytes
patch_entry buf offset value = splice buf offset (to_le 4 (merge_entry (read_u32 buf offset) value))

-- `let _ = f()`: a failure is dropped.
abbrev pub ignore : {S E A : Type 0} → M S E A → M S E (Unit {0})
ignore m s = let (r, s') = m s in (ok tt, s')

abbrev pub settle : {S E A : Type 0} → Result E A → S → M S E (Unit {0}) → Result E A × S
settle (ok a) s clean = (ok a, s)
settle (err e) s clean = (err e, (clean s).1)

-- On a failure the clean-up runs, and the failure is returned.
abbrev pub on_error : {S E A : Type 0} → M S E A → M S E (Unit {0}) → M S E A
on_error m clean s = let (r, s') = m s in settle r s' clean

-- The scan of one sector of the table: the first free cluster, or the first one past the sector.
pub data Scan : Type 0 where
  free : ℕ → Scan
  past : ℕ → Scan

unfoldable pub scan_sector : ℕ → ℕ → Bytes → ℕ → ℕ → Scan
scan_sector last within buf zero cluster = past cluster
scan_sector last within buf (suc left) cluster =
    let rest = scan_sector last within buf left (cluster + 1) in
    if ltb cluster last && (cluster / fat_entries_per_sector == within)
    then (if entry_bits (read_u32 buf (cluster % fat_entries_per_sector * 4)) == 0
        then free cluster
        else rest)
    else past cluster

module _ (d : BlockDevice) (v : Fat32) where
  unfoldable pub next_cluster : ℕ → M d.Dev FatError ℕ
  next_cluster cluster = do
    buf ← read_sector d (u32 (v.fat_start_sector + fat_offset cluster / sector_size))
    pure (entry_bits (read_u32 buf (fat_offset cluster % sector_size)))

  -- One copy of the table: read, change, write back.
  abbrev pub fat_sector : ℕ → ℕ → ℕ
  fat_sector fat cluster =
      u32 (u32 (v.fat_start_sector + u32 (fat * v.fat_size)) + fat_offset cluster / sector_size)

  unfoldable pub write_fat_copy : ℕ → ℕ → ℕ → M d.Dev FatError (Unit {0})
  write_fat_copy cluster value fat = do
    buf ← read_sector d (fat_sector fat cluster)
    write_sector d (fat_sector fat cluster)
        (patch_entry buf (fat_offset cluster % sector_size) value)

  -- The copies from `fat` on, `left` of them.
  unfoldable pub write_fat_copies : ℕ → ℕ → ℕ → ℕ → M d.Dev FatError (Unit {0})
  unfolding write_fat_copy
  write_fat_copies cluster value zero fat = pure tt
  write_fat_copies cluster value (suc left) fat =
      write_fat_copy cluster value fat >> write_fat_copies cluster value left (fat + 1)

  unfoldable pub write_fat_entry : ℕ → ℕ → M d.Dev FatError (Unit {0})
  unfolding write_fat_copies
  write_fat_entry cluster value = write_fat_copies cluster value v.num_fats 0

  -- The upper bound of the search, exclusive.
  abbrev pub last_cluster : ℕ
  last_cluster = u32 (first_data_cluster + v.cluster_count)

  -- A sector of the table for each round; each round moves at least one cluster on.
  unfoldable pub alloc_from : ℕ → ℕ → M d.Dev FatError ℕ
  unfolding scan_sector write_fat_entry
  alloc_from zero cluster = throw no_space
  alloc_from (suc fuel) cluster = λ s. elim (ltb cluster last_cluster) [
    | false ↦ (err no_space, s)
    | true ↦
        let sector = u32 (v.fat_start_sector + cluster / fat_entries_per_sector) in
        (do
          buf ← read_sector d sector
          λ t.
              elim (scan_sector last_cluster (u32 (sector + 4294967296 - v.fat_start_sector)) buf
                fat_entries_per_sector cluster) [
                  | free c ↦ (write_fat_entry c fat32_eoc >> pure c) t
                  | past c ↦ alloc_from fuel c t
                ])
          s
  ]

  unfoldable pub alloc_cluster : M d.Dev FatError ℕ
  unfolding alloc_from
  alloc_cluster = alloc_from v.cluster_count first_data_cluster

  -- `steps` is `steps_left`.
  unfoldable pub free_chain_loop : ℕ → ℕ → M d.Dev FatError (Unit {0})
  unfolding valid_cluster next_cluster write_fat_entry
  free_chain_loop zero cluster = pure tt
  free_chain_loop (suc steps) cluster = λ s. elim (valid_cluster v cluster) [
    | false ↦ (ok tt, s)
    | true ↦
        (do next ← next_cluster cluster; write_fat_entry cluster 0; free_chain_loop steps next) s
  ]

  unfoldable pub free_chain : ℕ → M d.Dev FatError (Unit {0})
  unfolding free_chain_loop
  free_chain first = free_chain_loop v.cluster_count first

  -- `first` is 0 until a cluster is allocated.
  unfoldable pub alloc_chain_loop : ℕ → ℕ → ℕ → M d.Dev FatError ℕ
  unfolding alloc_cluster free_chain
  alloc_chain_loop zero first prev = pure first
  alloc_chain_loop (suc n) first prev = do
    c ← on_error alloc_cluster (if first == 0 then pure tt else ignore (free_chain first))
    if first == 0 then pure tt else write_fat_entry prev c
    alloc_chain_loop n (if first == 0 then c else first) c

  unfoldable pub alloc_chain : ℕ → M d.Dev FatError ℕ
  unfolding alloc_chain_loop
  alloc_chain n = alloc_chain_loop n 0 0

  -- The sectors of one cluster: `left` of them from `sector` on; what is left to write is returned.
  unfoldable pub write_sectors : ℕ → ℕ → Bytes → M d.Dev FatError Bytes
  write_sectors zero sector rest = pure rest
  write_sectors (suc left) sector [] = pure []
  write_sectors (suc left) sector (x ∷ xs) = do
    let taken = min (length (x ∷ xs)) sector_size
    write_sector d (u32 sector) (take taken (x ∷ xs) ++ replicate (sector_size - taken) 0)
    write_sectors left (sector + 1) (drop taken (x ∷ xs))

  unfoldable pub write_chain_loop : ℕ → ℕ → Bytes → M d.Dev FatError (Unit {0})
  unfolding write_sectors valid_cluster next_cluster first_sector_of_cluster
  write_chain_loop zero cluster rest = pure tt
  write_chain_loop (suc steps) cluster [] = pure tt
  write_chain_loop (suc steps) cluster (x ∷ xs) = λ s. elim (valid_cluster v cluster) [
    | false ↦ (ok tt, s)
    | true ↦
        (do
          rest ← write_sectors v.sectors_per_cluster (first_sector_of_cluster v cluster) (x ∷ xs)
          next ← next_cluster cluster
          write_chain_loop steps next rest)
          s
  ]

  unfoldable pub write_chain : ℕ → Bytes → M d.Dev FatError (Unit {0})
  unfolding write_chain_loop
  write_chain first content = write_chain_loop v.cluster_count first content
