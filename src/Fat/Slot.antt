-- ===== src/Fat/Slot.antt =====
-- src/fs/fat.rs: the 32 bytes of a directory entry.
pub mod Parse
use ferros.Prelude.{ℕ, zero, suc, ◌+◌, ◌*◌, ◌/◌, ◌%◌, Bool, ◌||◌, List, [], ◌∷◌, ◌++◌}
use ferros.Prelude.{if◌then◌else◌, ◌==◌, get_or, take, drop, Bytes, to_le, replicate}
use ferros.Fat.Volume.{read_u16, read_u32}

abbrev pub dir_entry_size : ℕ
dir_entry_size = 32

abbrev pub attr_directory : ℕ
attr_directory = 0x10

abbrev pub attr_archive : ℕ
attr_archive = 0x20

pub record DirEntry : Type 0 where
  pub first_cluster : ℕ
  pub size : ℕ
  pub is_dir : Bool

pub record DirItem : Type 0 where
  pub name : Bytes
  pub is_dir : Bool

-- The 16 entries of a sector: `buf.chunks_exact(DIR_ENTRY_SIZE)`.
abbrev pub chunks : ℕ → Bytes → List Bytes
chunks zero buf = []
chunks (suc n) buf = take dir_entry_size buf ∷ chunks n (drop dir_entry_size buf)

-- `attr & ATTR_LONG_NAME == ATTR_LONG_NAME || attr & ATTR_VOLUME_ID != 0`
abbrev pub is_skipped : ℕ → Bool
is_skipped attr = (attr % 16 == 15) || (attr / 8 % 2 == 1)

-- `attr & ATTR_DIRECTORY != 0`
abbrev pub is_directory : ℕ → Bool
is_directory attr = attr / 16 % 2 == 1

-- What the match on the first byte and the test of the attributes make of an entry.
pub data Slot : Type 0 where
  end deleted skipped used : Slot

unfoldable pub slot_of : Bytes → Slot
slot_of entry =
    let attr = get_or entry 11 0 in
    if get_or entry 0 0 == 0
    then end
    else if get_or entry 0 0 == 0xe5
    then deleted
    else if is_skipped attr
    then skipped
    else used

-- `(hi << 16) | lo`
abbrev pub entry_cluster : Bytes → ℕ
entry_cluster entry = read_u16 entry 20 * 65536 + read_u16 entry 26

unfoldable pub parse_entry : Bytes → DirEntry
parse_entry entry = record {
  first_cluster = entry_cluster entry;
  size = read_u32 entry 28;
  is_dir = is_directory (get_or entry 11 0);
}

-- `fill_dir_entry`: name, attributes, first cluster in two halves, size; the rest is zero.
unfoldable pub fill_dir_entry : Bytes → ℕ → ℕ → ℕ → Bytes
fill_dir_entry name attr first_cluster size =
    name
    ++ (attr
        ∷ (replicate 8 0
            ++ (to_le 2 (first_cluster / 65536)
                ++ (replicate 4 0 ++ (to_le 2 (first_cluster % 65536) ++ to_le 4 size)))))
