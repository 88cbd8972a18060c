-- ===== src/Block.antt =====
-- The block device as src/fs/fat.rs uses it: `read_sector` and `write_sector` of
-- src/drivers/virtio_blk.rs. The driver's queue and the device behind it are a parameter: a state
-- that each call changes, and the laws that the file system relies on.
pub mod Calls
pub mod Ram
use ferros.Prelude.{ℕ, ◌<◌, ◌≡◌, ◌≢◌, Result, ok, Bytes, length, get_or}

abbrev pub sector_size : ℕ
sector_size = 512

pub data BlkError : Type 0 where
  not_initialized out_of_range : BlkError
  device_error : ℕ → BlkError

pub record BlockDevice : Type 1 where
  pub Dev : Type 0
  pub read_sector : ℕ → Dev → Result BlkError Bytes × Dev
  pub write_sector : ℕ → Bytes → Dev → Result BlkError (Unit {0}) × Dev

-- A sector holds 512 bytes, each below 256. A read that succeeds gives what the sector holds, and
-- no read changes a sector; a write that succeeds stores its bytes, and no write touches another
-- sector.
pub record Laws (d : BlockDevice) : Type 0 where
  pub image : d.Dev → ℕ → Bytes
  pub length-image : (s : d.Dev) (i : ℕ) → length (image s i) ≡ sector_size
  pub image-byte : (s : d.Dev) (i k : ℕ) → get_or (image s i) k 0 < 256
  pub image-read : (s : d.Dev) (i j : ℕ) → image (d.read_sector i s).1 j ≡ image s j
  pub read-ok : (s : d.Dev) (i : ℕ) {b : Bytes} → (d.read_sector i s).0 ≡ ok b → b ≡ image s i
  pub write-ok :
      (s : d.Dev) (i : ℕ) (b : Bytes)
      → length b ≡ sector_size
      → (d.write_sector i b s).0 ≡ ok tt
      → image (d.write_sector i b s).1 i ≡ b
  pub image-write_ne :
      (s : d.Dev) (i j : ℕ) (b : Bytes) → i ≢ j → image (d.write_sector i b s).1 j ≡ image s j
