-- ===== src/Fat/Volume.antt =====
-- src/fs/fat.rs: the mounted volume, its geometry, and the errors. Arithmetic on `u32` is written
-- with its wrap-around, as in a build without overflow checks.
pub mod Geometry
use ferros.Prelude.{
  ℕ, ◌+◌, ◌-◌, ◌*◌, ◌/◌, ◌%◌, ◌^◌, Bool, true, false, ◌&&◌, ◌||◌, not, List, M, pure, throw, ◌>>=◌,
  ok, err, Result,
}
use ferros.Prelude.{if◌then◌else◌, ltb, leb, ◌==◌, get_or, Bytes, le16, le32}
use ferros.Block.{BlkError, BlockDevice, sector_size}

-- `u32` arithmetic.
abbrev pub u32 : ℕ → ℕ
u32 x = x % 4294967296

abbrev pub fat_entries_per_sector : ℕ
fat_entries_per_sector = 128

-- `x & FAT32_ENTRY_MASK` keeps the low 28 bits.
abbrev pub entry_bits : ℕ → ℕ
entry_bits x = x % 268435456

abbrev pub fat32_eoc : ℕ
fat32_eoc = 0x0fff_ffff

abbrev pub first_data_cluster : ℕ
first_data_cluster = 2

pub data FatError : Type 0 where
  block : BlkError → FatError
  unsupported_sector_size not_fat32 not_found no_space dir_full not_a_directory : FatError
  is_a_directory already_exists not_empty : FatError

pub record Fat32 : Type 0 where
  pub sectors_per_cluster : ℕ
  pub fat_start_sector : ℕ
  pub data_start_sector : ℕ
  pub root_cluster : ℕ
  pub cluster_count : ℕ
  pub num_fats : ℕ
  pub fat_size : ℕ

-- A sector buffer has 512 bytes and the offsets lie in it.
abbrev pub read_u16 : Bytes → ℕ → ℕ
read_u16 buf off = le16 (get_or buf off 0) (get_or buf (off + 1) 0)

abbrev pub read_u32 : Bytes → ℕ → ℕ
read_u32 buf off =
    le32 (get_or buf off 0) (get_or buf (off + 1) 0) (get_or buf (off + 2) 0)
      (get_or buf (off + 3) 0)

-- What `mount` makes of the boot sector.
unfoldable pub parse_bpb : Bytes → Result FatError Fat32
parse_bpb boot =
    let sectors_per_cluster = get_or boot 13 0 in
    let reserved_sectors = read_u16 boot 14 in
    let num_fats = get_or boot 16 0 in
    let root_entry_count = read_u16 boot 17 in
    let fat_size_16 = read_u16 boot 22 in
    let total_sectors = read_u32 boot 32 in
    let fat_size_32 = read_u32 boot 36 in
    let data_start_sector = u32 (reserved_sectors + u32 (num_fats * fat_size_32)) in
    if not (read_u16 boot 11 == sector_size)
    then err unsupported_sector_size
    else if not (root_entry_count == 0)
        || not (fat_size_16 == 0)
        || (fat_size_32 == 0)
        || (sectors_per_cluster == 0)
        || (num_fats == 0)
    then err not_fat32
    else ok (record {
      sectors_per_cluster = sectors_per_cluster;
      fat_start_sector = reserved_sectors;
      data_start_sector = data_start_sector;
      root_cluster = read_u32 boot 44;
      cluster_count = (total_sectors - data_start_sector) / sectors_per_cluster;
      num_fats = num_fats;
      fat_size = fat_size_32;
    })

abbrev pub lift_error : {S A : Type 0} → Result BlkError A × S → Result FatError A × S
lift_error (ok a, s) = (ok a, s)
lift_error (err e, s) = (err (block e), s)

module _ (d : BlockDevice) where
  -- The calls of the driver, with `From<BlkError> for FatError`.
  abbrev pub read_sector : ℕ → M d.Dev FatError Bytes
  read_sector i s = lift_error (d.read_sector i s)

  abbrev pub write_sector : ℕ → Bytes → M d.Dev FatError (Unit {0})
  write_sector i b s = lift_error (d.write_sector i b s)

  unfoldable pub mount : M d.Dev FatError Fat32
  unfolding parse_bpb
  mount = do boot ← read_sector 0; λ s. (parse_bpb boot, s)

unfoldable pub valid_cluster : Fat32 → ℕ → Bool
valid_cluster v cluster =
    leb first_data_cluster cluster && ltb cluster (u32 (first_data_cluster + v.cluster_count))

-- The callers have tested `valid_cluster`, so `cluster - 2` does not wrap.
unfoldable pub first_sector_of_cluster : Fat32 → ℕ → ℕ
first_sector_of_cluster v cluster =
    u32 (v.data_start_sector + u32 ((cluster - first_data_cluster) * v.sectors_per_cluster))
