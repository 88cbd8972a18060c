-- ===== src/Fat/Path.antt =====
-- src/fs/fat.rs: paths, and what is read through them.
use ferros.Prelude.{
  ℕ, zero, suc, ◌+◌, ◌-◌, Bool, true, false, not, List, [], ◌∷◌, ◌++◌, M, pure, throw, ◌>>=◌, ok,
}
use ferros.Prelude.{if◌then◌else◌, take, Bytes, min, ok_or, split, nonempty}
use ferros.Block.{BlockDevice, sector_size}
use ferros.Fat.Volume.{
  Fat32, FatError, not_found, not_a_directory, is_a_directory, u32, read_sector, valid_cluster,
  first_sector_of_cluster,
}
use ferros.Fat.Table.{next_cluster}
use ferros.Fat.Slot.{DirEntry, DirItem}
use ferros.Fat.Directory.{find_in_dir, list_dir}

abbrev pub slash : ℕ
slash = 47

-- `path.trim_matches('/').split('/').filter(|c| !c.is_empty())`: trimming takes off empty parts
-- only, which the filter drops too. The trimmed path is empty if there is no part.
abbrev pub components : Bytes → List Bytes
components path = nonempty (split slash path)

abbrev pub is_empty : List Bytes → Bool
is_empty [] = true
is_empty (c ∷ cs) = false

pub data Node : Type 0 where
  file : Bytes → Node
  dir : List DirItem → Node

pub record Metadata : Type 0 where
  pub is_dir : Bool
  pub size : ℕ
  pub first_cluster : ℕ

module _ (d : BlockDevice) (v : Fat32) where
  -- Down the intermediate components; the last one is returned.
  unfoldable pub descend : ℕ → List Bytes → M d.Dev FatError (ℕ × Bytes)
  descend cluster [] = throw not_found
  descend cluster (name ∷ []) = pure (cluster, name)
  descend cluster (comp ∷ next ∷ rest) = do
    o ← find_in_dir d v cluster comp
    entry ← ok_or o not_found
    if not entry.is_dir then throw not_a_directory else descend entry.first_cluster (next ∷ rest)

  unfoldable pub resolve_parent : Bytes → M d.Dev FatError (ℕ × Bytes)
  unfolding descend
  resolve_parent path = descend v.root_cluster (components path)

  -- The sectors of one cluster, `left` of them from `sector` on: what is read, and what remains.
  unfoldable pub read_sectors : ℕ → ℕ → ℕ → Bytes → M d.Dev FatError (ℕ × Bytes)
  read_sectors zero sector remaining content = pure (remaining, content)
  read_sectors (suc left) sector zero content = pure (zero, content)
  read_sectors (suc left) sector (suc remaining) content = do
    buf ← read_sector d (u32 sector)
    let taken = min (suc remaining) sector_size
    read_sectors left (sector + 1) (suc remaining - taken) (content ++ take taken buf)

  -- The loop ends by `remaining`, which falls in each round; `fuel` is what remained at its start.
  unfoldable pub read_clusters : ℕ → ℕ → ℕ → Bytes → M d.Dev FatError Bytes
  unfolding valid_cluster first_sector_of_cluster next_cluster read_sectors
  read_clusters zero cluster remaining content = pure content
  read_clusters (suc fuel) cluster zero content = pure content
  read_clusters (suc fuel) cluster (suc remaining) content = λ s. elim (valid_cluster v cluster) [
    | false ↦ (ok content, s)
    | true ↦
        (do
          (remaining', content') ←
              read_sectors v.sectors_per_cluster (first_sector_of_cluster v cluster) (suc remaining)
                content
          next ← next_cluster d v cluster
          read_clusters fuel next remaining' content')
          s
  ]

  unfoldable pub read_entry : DirEntry → M d.Dev FatError Bytes
  unfolding read_clusters
  read_entry entry = read_clusters entry.size entry.first_cluster entry.size []

  unfoldable pub read_file : Bytes → M d.Dev FatError Bytes
  unfolding resolve_parent read_entry
  read_file path = do
    (dir_cluster, name) ← resolve_parent path
    o ← find_in_dir d v dir_cluster name
    entry ← ok_or o not_found
    if entry.is_dir then throw is_a_directory else read_entry entry

  unfoldable pub lookup_entry : Bytes → M d.Dev FatError DirEntry
  unfolding resolve_parent
  lookup_entry path = do
    (dir_cluster, name) ← resolve_parent path
    o ← find_in_dir d v dir_cluster name
    ok_or o not_found

  abbrev pub read_node : DirEntry → M d.Dev FatError Node
  read_node entry =
      if entry.is_dir
      then (do items ← list_dir d v entry.first_cluster; pure (dir items))
      else (do content ← read_entry entry; pure (file content))

  unfoldable pub lookup : Bytes → M d.Dev FatError Node
  unfolding lookup_entry read_entry
  lookup path =
      if is_empty (components path)
      then (do items ← list_dir d v v.root_cluster; pure (dir items))
      else (do entry ← lookup_entry path; read_node entry)

  unfoldable pub stat : Bytes → M d.Dev FatError Metadata
  unfolding lookup_entry
  stat path =
      if is_empty (components path)
      then pure (record { is_dir = true; size = 0; first_cluster = v.root_cluster })
      else (do
        entry ← lookup_entry path
        pure (record {
          is_dir = entry.is_dir;
          size = entry.size;
          first_cluster = entry.first_cluster;
        }))
