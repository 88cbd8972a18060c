-- ===== src/Fat/Volume/Geometry.antt =====
-- Where the clusters of a mounted volume of src/fs/fat.rs lie.
use ferros.Prelude.{ℕ, ◌+◌, ◌-◌, ◌*◌, ◌/◌, ◌^◌, ◌≤◌, ◌<◌, ◌≡◌, ◌≢◌, ap, true, ok, arith}
use ferros.Prelude.{get_or, Bytes}
use native.Mathlib.Decide.{dec_lt}
use ferros.Fat.Volume.{
  Fat32, u32, read_u16, read_u32, parse_bpb, valid_cluster, first_sector_of_cluster,
}

div_room : (k n m : ℕ) → k < n / m → k * m + m ≤ n
div_room k n m h = grind arith

blocks_apart : (i j size s s' : ℕ) → i < j → s < size → i * size + s < j * size + s'
blocks_apart i j size s s' h k = grind arith

-- What the boot sector and the volume made of it have in common.
pub record IsMounted (boot : Bytes) (v : Fat32) : Type 0 where
  pub sectors : v.sectors_per_cluster ≡ get_or boot 13 0
  pub some_sectors : 1 ≤ v.sectors_per_cluster
  pub some_fats : 1 ≤ v.num_fats
  pub some_fat : 1 ≤ v.fat_size
  pub fats : v.num_fats ≡ get_or boot 16 0
  pub size : v.fat_size ≡ read_u32 boot 36
  pub begin : v.fat_start_sector ≡ read_u16 boot 14
  pub data_area : v.data_start_sector ≡ u32 (v.fat_start_sector + u32 (v.num_fats * v.fat_size))
  pub count : v.cluster_count ≡ (read_u32 boot 32 - v.data_start_sector) / v.sectors_per_cluster

parse_bpb-IsMounted : (boot : Bytes) (v : Fat32) → parse_bpb boot ≡ ok v → IsMounted boot v
unfolding parse_bpb
parse_bpb-IsMounted boot v e = ground arith

module _ (boot : Bytes) (v : Fat32) (bytes : (k : ℕ) → get_or boot k 0 < 256)
    (m : IsMounted boot v) where
  first_sector_lem :
      (c : ℕ)
      → valid_cluster v c ≡ true
      → (2 ≤ c)
        × (first_sector_of_cluster v c ≡ v.data_start_sector + (c - 2) * v.sectors_per_cluster)
        × (first_sector_of_cluster v c + v.sectors_per_cluster ≤ read_u32 boot 32)
  unfolding valid_cluster first_sector_of_cluster
  first_sector_lem c valid =
      let lo : 2 ≤ c = ground arith in
      let hi : c - 2 < (read_u32 boot 32 - v.data_start_sector) / v.sectors_per_cluster =
        ground (arith, m.count) in
      let room =
        div_room (c - 2) (read_u32 boot 32 - v.data_start_sector) v.sectors_per_cluster hi in
      let total : read_u32 boot 32 < 4294967296 =
        omega (arith, bytes 32, bytes 33, bytes 34, bytes 35) in
      (lo, omega (arith, room, total, m.some_sectors), omega (arith, room, total, m.some_sectors))

-- The tables of the volume, by the boot sector: the reserved sectors, then each copy.
abbrev pub tables_end : Bytes → ℕ
tables_end boot = read_u16 boot 14 + get_or boot 16 0 * read_u32 boot 36

-- A volume is mounted whose tables, by its boot sector, end below sector 2^32. The sectors of a valid
-- cluster are then where FAT32 puts them, computed with no wrap-around: behind the reserved sectors
-- and all copies of the table, as many clusters on as its number is above 2. They end at the last
-- sector of the volume at most, and two clusters share no sector.
pub first_sector_of_cluster-apart :
    (boot : Bytes) (v : Fat32) (c c' s s' : ℕ)
    → ((k : ℕ) → get_or boot k 0 < 256)
    → parse_bpb boot ≡ ok v
    → tables_end boot < 2 ^ 32
    → valid_cluster v c ≡ true
    → valid_cluster v c' ≡ true
    → s < v.sectors_per_cluster
    → s' < v.sectors_per_cluster
    → c ≢ c'
    → (2 ≤ c)
      × (first_sector_of_cluster v c ≡ tables_end boot + (c - 2) * get_or boot 13 0)
      × (first_sector_of_cluster v c + s < read_u32 boot 32)
      × (first_sector_of_cluster v c + s ≢ first_sector_of_cluster v c' + s')
first_sector_of_cluster-apart boot v c c' s s' bytes e fits valid valid' hs hs' ne =
    let m = parse_bpb-IsMounted boot v e in
    let (lo, at, end) = first_sector_lem boot v bytes m c valid in
    let (lo', at', end') = first_sector_lem boot v bytes m c' valid' in
    let begin : v.data_start_sector ≡ tables_end boot = data_start boot v m fits in
    (
      lo,
      omega (arith, at, begin, ap (λ n. (c - 2) * n) m.sectors),
      omega arith,
      λ same. elim (dec_lt c c') [
        | yes lt ↦
            omega (arith, blocks_apart (c - 2) (c' - 2) v.sectors_per_cluster s s' (omega arith) hs)
        | no ge ↦
            omega
              (arith, blocks_apart (c' - 2) (c - 2) v.sectors_per_cluster s' s (omega arith) hs')
      ],
    )
  where
    data_start :
        (boot : Bytes) (v : Fat32)
        → IsMounted boot v
        → tables_end boot < 2 ^ 32
        → v.data_start_sector ≡ tables_end boot
    data_start boot v m fits =
        let product : v.num_fats * v.fat_size ≡ get_or boot 16 0 * read_u32 boot 36 =
          cc (m.fats, m.size) in
        omega (arith, m.data_area, m.begin, product)
