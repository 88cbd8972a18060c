-- ===== src/Fat/File.antt =====
-- src/fs/fat.rs: creating, replacing and removing files and directories.
use ferros.Prelude.{
  ℕ, ◌+◌, ◌-◌, ◌*◌, ◌/◌, not, [], ◌∷◌, Option, none, some, M, pure, throw, ◌>>=◌, ◌>>◌, err,
}
use ferros.Prelude.{if◌then◌else◌, ◌==◌, length, Bytes, ok_or}
use ferros.Block.{BlockDevice, sector_size}
use ferros.Fat.Volume.{
  Fat32, FatError, not_found, not_a_directory, is_a_directory, already_exists, not_empty, u32,
  valid_cluster,
}
use ferros.Fat.Names.{short_name_83}
use ferros.Fat.Slot.{attr_directory, attr_archive}
use ferros.Fat.Table.{ignore, on_error, alloc_cluster, alloc_chain, free_chain, write_chain}
use ferros.Fat.Directory.{
  locate_or_free_slot, locate_entry, write_dir_entry, clear_dir_entry, dir_is_empty,
  init_dir_cluster,
}
use ferros.Fat.Path.{resolve_parent}

-- `data.len().div_ceil(cluster_bytes)`
abbrev pub clusters_for : Fat32 → ℕ → ℕ
clusters_for v n =
    (n + (v.sectors_per_cluster * sector_size - 1)) / (v.sectors_per_cluster * sector_size)

module _ (d : BlockDevice) (v : Fat32) where
  -- Step 2 of `write_file`: the chain of the new content, 0 for none.
  unfoldable pub build_content : Bytes → M d.Dev FatError ℕ
  build_content [] = pure 0
  build_content (x ∷ xs) = do
    first ← alloc_chain d v (u32 (clusters_for v (length (x ∷ xs))))
    on_error (write_chain d v first (x ∷ xs)) (ignore (free_chain d v first))
    pure first

  -- Step 4: the chain of the old content.
  unfoldable pub drop_old : Option ℕ → M d.Dev FatError (Unit {0})
  unfolding valid_cluster
  drop_old none = pure tt
  drop_old (some first) = if valid_cluster v first then ignore (free_chain d v first) else pure tt

  unfoldable pub write_file : Bytes → Bytes → M d.Dev FatError (Unit {0})
  unfolding resolve_parent short_name_83 build_content drop_old
  write_file path content = do
    (dir_cluster, name) ← resolve_parent d v path
    (slot, old_first) ← locate_or_free_slot d v dir_cluster (short_name_83 name)
    new_first ← build_content content
    on_error
        (write_dir_entry d v slot (short_name_83 name) attr_archive new_first
          (u32 (length content)))
        (if new_first == 0 then pure tt else ignore (free_chain d v new_first))
    drop_old old_first

  unfoldable pub mkdir : Bytes → M d.Dev FatError (Unit {0})
  unfolding resolve_parent short_name_83
  mkdir path = do
    (parent_cluster, name) ← resolve_parent d v path
    (slot, existing) ← locate_or_free_slot d v parent_cluster (short_name_83 name)
    λ s. elim existing [
      | some old ↦ (err already_exists, s)
      | none ↦
          (do
            new_cluster ← alloc_cluster d v
            on_error (init_dir_cluster d v new_cluster parent_cluster)
                (ignore (free_chain d v new_cluster))
            on_error (write_dir_entry d v slot (short_name_83 name) attr_directory new_cluster 0)
                (ignore (free_chain d v new_cluster)))
            s
    ]

  unfoldable pub unlink : Bytes → M d.Dev FatError (Unit {0})
  unfolding resolve_parent
  unlink path = do
    (dir_cluster, name) ← resolve_parent d v path
    o ← locate_entry d v dir_cluster name
    (place, de) ← ok_or o not_found
    if de.is_dir then throw is_a_directory else (do
      clear_dir_entry d v place
      if de.first_cluster == 0 then pure tt else free_chain d v de.first_cluster)

  unfoldable pub rmdir : Bytes → M d.Dev FatError (Unit {0})
  unfolding resolve_parent
  rmdir path = do
    (dir_cluster, name) ← resolve_parent d v path
    o ← locate_entry d v dir_cluster name
    (place, de) ← ok_or o not_found
    if not de.is_dir then throw not_a_directory else (do
      empty ← dir_is_empty d v de.first_cluster
      if not empty
          then throw not_empty
          else (do clear_dir_entry d v place; free_chain d v de.first_cluster))
