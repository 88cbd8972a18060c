-- ===== src/Fat/Tests.antt =====
-- The theorems on a small volume, on a disk in memory.
use ferros.Prelude.{ℕ, ◌+◌, ◌-◌, ◌*◌, ◌<◌, ◌≤◌, ◌≡◌, ◌≢◌, refl, [], ◌∷◌, ◌++◌, false, ok, arith}
use ferros.Prelude.{if◌then◌else◌, ◌==◌, get_or, Bytes, replicate, take}
use ferros.Block.Ram.{Ram, ram, ram_laws}
use ferros.Fat.Volume.{
  Fat32, parse_bpb, valid_cluster, first_sector_of_cluster, read_u32, entry_bits,
}
use ferros.Fat.Volume.Geometry.{tables_end, first_sector_of_cluster-apart}
use ferros.Fat.Table.{write_fat_entry, next_cluster, alloc_from, alloc_cluster}
use ferros.Fat.Table.Alloc.{alloc_cluster-enough}
use ferros.Fat.Table.Entry.{IsLaidOut}
use ferros.Fat.Table.ReadBack.{next_cluster-write_fat_entry}
use ferros.Fat.Slot.{slot_of, used, fill_dir_entry, parse_entry}
use ferros.Fat.Slot.Parse.{parse_entry-fill_dir_entry}
use ferros.Fat.Directory.{find_in_dir, locate_entry}
use ferros.Fat.Directory.Agree.{find_in_dir-locate_entry, map_result, entry_of}
use ferros.Fat.ReadOnly.{IsQuiet, reads-IsQuiet}
use ferros.Fat.Path.{read_file, lookup, stat}

-- A boot sector: 512-byte sectors, 2 of them to a cluster, 32 reserved, 2 copies of a table of 1
-- sector, 134 sectors in all, the root in cluster 2.
abbrev boot : Bytes
boot =
    replicate 11 0
    ++ (0
        ∷ 2
        ∷ 2
        ∷ 32
        ∷ 0
        ∷ 2
        ∷ 0
        ∷ 0
        ∷ 0
        ∷ 0
        ∷ 0
        ∷ 0
        ∷ 0
        ∷ (replicate 8 0 ++ (134 ∷ 0 ∷ 0 ∷ 0 ∷ 1 ∷ 0 ∷ 0 ∷ 0 ∷ 0 ∷ 0 ∷ 0 ∷ 0 ∷ 2 ∷ 0 ∷ 0 ∷ 0 ∷ [])))

abbrev volume : Fat32
volume = record {
  sectors_per_cluster = 2;
  fat_start_sector = 32;
  data_start_sector = 34;
  root_cluster = 2;
  cluster_count = 50;
  num_fats = 2;
  fat_size = 1;
}

boot_is_volume : parse_bpb boot ≡ ok volume
unfolding parse_bpb
boot_is_volume = refl

boot_byte : (k : ℕ) → get_or boot k 0 < 256
boot_byte k = ground arith

first_sector_of_cluster-apart_example :
    (2 ≤ 3)
    × (first_sector_of_cluster volume 3 ≡ tables_end boot + (3 - 2) * get_or boot 13 0)
    × (first_sector_of_cluster volume 3 + 1 < read_u32 boot 32)
    × (first_sector_of_cluster volume 3 + 1 ≢ first_sector_of_cluster volume 4 + 0)
unfolding valid_cluster
first_sector_of_cluster-apart_example =
    first_sector_of_cluster-apart boot volume 3 4 1 0 boot_byte boot_is_volume (omega arith) refl
      refl (omega arith) (omega arith) (λ e. absurd (omega (arith, e)))

volume-IsLaidOut : IsLaidOut volume
volume-IsLaidOut = record {
  below = omega arith;
  covers = omega arith;
  small = omega arith;
  one_copy = omega arith;
}

abbrev zeros : Ram
zeros i k = 0

-- The entry of cluster 3 is linked to cluster 9.
abbrev linked : Ram
linked = (write_fat_entry ram volume 3 9 zeros).1

linked_done : write_fat_entry ram volume 3 9 zeros ≡ (ok tt, linked)
unfolding write_fat_entry
linked_done = refl

read_before : next_cluster ram volume 4 zeros ≡ (ok 0, zeros)
unfolding next_cluster
read_before = refl

read_after : next_cluster ram volume 4 linked ≡ (ok 0, linked)
unfolding next_cluster write_fat_entry
read_after = refl

next_cluster-write_fat_entry_example : ◌≡◌ {A = ℕ} 0 (if 4 == 3 then entry_bits 9 else 0)
next_cluster-write_fat_entry_example =
    next_cluster-write_fat_entry ram ram_laws volume volume-IsLaidOut 3 9 (omega arith) zeros linked
      linked_done 4 0 0 zeros linked (omega arith) read_before read_after

-- "README  TXT"
abbrev readme : Bytes
readme = 82 ∷ 69 ∷ 65 ∷ 68 ∷ 77 ∷ 69 ∷ 32 ∷ 32 ∷ 84 ∷ 88 ∷ 84 ∷ []

parse_entry-fill_dir_entry_example :
    (slot_of (fill_dir_entry readme 32 70000 1234) ≡ used)
    × (take 11 (fill_dir_entry readme 32 70000 1234) ≡ readme)
    × (parse_entry (fill_dir_entry readme 32 70000 1234)
        ≡ record { first_cluster = 70000; size = 1234; is_dir = false })
parse_entry-fill_dir_entry_example =
    parse_entry-fill_dir_entry readme 32 70000 1234 refl (λ e. absurd (omega (arith, e)))
      (λ e. absurd (omega (arith, e))) refl (omega arith) (omega arith)

find_in_dir-locate_entry_example :
    find_in_dir ram volume 2 readme zeros
    ≡ map_result entry_of (locate_entry ram volume 2 readme zeros)
find_in_dir-locate_entry_example = find_in_dir-locate_entry ram volume 2 readme zeros

reads-IsQuiet_example :
    IsQuiet ram ram_laws (read_file ram volume readme)
    × IsQuiet ram ram_laws (lookup ram volume readme)
    × IsQuiet ram ram_laws (stat ram volume readme)
reads-IsQuiet_example = reads-IsQuiet ram ram_laws volume readme

alloc_cluster-enough_example :
    alloc_from ram volume (50 + 3) 2 zeros ≡ alloc_cluster ram volume zeros
alloc_cluster-enough_example = alloc_cluster-enough ram volume 3 zeros (omega arith) (omega arith)
