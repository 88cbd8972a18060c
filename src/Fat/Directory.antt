-- ===== src/Fat/Directory.antt =====
-- src/fs/fat.rs: directories. A directory is a chain of clusters full of entries of 32 bytes. The
-- search of `find_in_dir` has loops of its own; the other three share one walk, with a step of their
-- own for an entry.
pub mod Agree
use ferros.Prelude.{
  ℕ, zero, suc, ◌+◌, ◌-◌, ◌*◌, ◌/◌, ◌%◌, ◌^◌, Bool, true, false, ◌&&◌, ◌||◌, not, List, [], ◌∷◌,
  ◌++◌, Option, none, some, M, pure, throw, ◌>>=◌, ◌>>◌, ok, err, Result,
}
use ferros.Prelude.{
  if◌then◌else◌, ltb, leb, ◌==◌, get_or, take, drop, Bytes, to_le, length, replicate, bytes_eq,
}
use ferros.Block.{BlockDevice, sector_size}
use ferros.Fat.Volume.{
  Fat32, FatError, dir_full, u32, read_u16, read_u32, read_sector, write_sector, valid_cluster,
  first_sector_of_cluster,
}
use ferros.Fat.Names.{short_name_83, name_83_to_string}
use ferros.Fat.Slot.{
  dir_entry_size, attr_directory, DirEntry, DirItem, chunks, is_directory, is_skipped, Slot, end,
  deleted, skipped, used, slot_of, entry_cluster, parse_entry, fill_dir_entry,
}
use ferros.Fat.Table.{splice, next_cluster}

-- A search goes on with what it has gathered, or returns.
pub data Flow (A R : Type 0) : Type 0 where
  go : A → Flow A R
  stop : R → Flow A R

-- A return ends the walk; else it goes on with what is gathered.
abbrev pub next_or :
    {A R S : Type 0} → Flow A R → (A → M S FatError (Flow A R)) → M S FatError (Flow A R)
next_or (stop r) k s = (ok (stop r), s)
next_or (go acc) k s = k acc s

module _ {A R : Type 0} (step : ℕ → ℕ → Bytes → A → Flow A R) where
  -- The entries of a sector, from index `idx` on.
  unfoldable pub scan_entries : ℕ → ℕ → List Bytes → A → Flow A R
  scan_entries sector idx [] acc = go acc
  scan_entries sector idx (e ∷ es) acc = elim (step sector (idx * dir_entry_size) e acc) [
    | stop r ↦ stop r
    | go acc' ↦ scan_entries sector (idx + 1) es acc'
  ]

  module _ (d : BlockDevice) (v : Fat32) where
    -- The sectors of a cluster: `left` of them from number `s` on.
    unfoldable pub scan_sectors : ℕ → ℕ → ℕ → A → M d.Dev FatError (Flow A R)
    unfolding scan_entries
    scan_sectors first zero s acc = pure (go acc)
    scan_sectors first (suc left) s acc = do
      buf ← read_sector d (u32 (first + s))
      next_or (scan_entries (u32 (first + s)) 0 (chunks 16 buf) acc)
          (λ acc'. scan_sectors first left (s + 1) acc')

    -- The clusters of the chain; `steps` is `steps_left`.
    unfoldable pub scan_clusters : ℕ → ℕ → A → M d.Dev FatError (Flow A R)
    unfolding scan_sectors valid_cluster first_sector_of_cluster next_cluster
    scan_clusters zero cluster acc = pure (go acc)
    scan_clusters (suc steps) cluster acc = λ s. elim (valid_cluster v cluster) [
      | false ↦ (ok (go acc), s)
      | true ↦
          (do
            f ← scan_sectors (first_sector_of_cluster v cluster) v.sectors_per_cluster 0 acc
            next_or f (λ acc'. next_cluster d v cluster >>= λ next. scan_clusters steps next acc'))
            s
    ]

-- The loops of `find_in_dir` are written out on their own. First the entries of a sector.
unfoldable pub find_entries : Bytes → List Bytes → Flow (Unit {0}) (Option DirEntry)
find_entries target [] = go tt
find_entries target (entry ∷ es) =
    let attr = get_or entry 11 0 in
    let rest = find_entries target es in
    if get_or entry 0 0 == 0
    then stop none
    else if get_or entry 0 0 == 0xe5
    then rest
    else if is_skipped attr
    then rest
    else if bytes_eq (take 11 entry) target
    then stop (
        some (record {
          first_cluster = read_u16 entry 20 * 65536 + read_u16 entry 26;
          size = read_u32 entry 28;
          is_dir = is_directory attr;
        }))
    else rest

module _ (d : BlockDevice) (v : Fat32) (target : Bytes) where
  -- The sectors of a cluster, from `first + s` on.
  unfoldable pub find_sectors : ℕ → ℕ → ℕ → M d.Dev FatError (Flow (Unit {0}) (Option DirEntry))
  unfolding find_entries
  find_sectors first zero s = pure (go tt)
  find_sectors first (suc left) s = do
    buf ← read_sector d (u32 (first + s))
    next_or (find_entries target (chunks 16 buf)) (λ _. find_sectors first left (s + 1))

  -- The clusters of the chain; `steps` is `steps_left`.
  unfoldable pub find_clusters : ℕ → ℕ → M d.Dev FatError (Flow (Unit {0}) (Option DirEntry))
  unfolding find_sectors valid_cluster first_sector_of_cluster next_cluster
  find_clusters zero cluster = pure (go tt)
  find_clusters (suc steps) cluster = λ s. elim (valid_cluster v cluster) [
    | false ↦ (ok (go tt), s)
    | true ↦
        (do
          f ← find_sectors (first_sector_of_cluster v cluster) v.sectors_per_cluster 0
          next_or f (λ _. next_cluster d v cluster >>= λ next. find_clusters steps next))
          s
  ]

abbrev pub found : {R : Type 0} → R → Flow (Unit {0}) R → R
found d (go acc) = d
found d (stop r) = r

-- The entry of `list_dir`.
unfoldable pub list_step : ℕ → ℕ → Bytes → List DirItem → Flow (List DirItem) (List DirItem)
unfolding slot_of name_83_to_string
list_step sector offset entry items = elim (slot_of entry) [
  | end ↦ stop items
  | deleted ↦ go items
  | skipped ↦ go items
  | used ↦ go (
      items
      ++ (record {
        name = name_83_to_string (take 11 entry);
        is_dir = is_directory (get_or entry 11 0);
      }
          ∷ []))
]

abbrev pub listed : Flow (List DirItem) (List DirItem) → List DirItem
listed (go items) = items
listed (stop items) = items

-- A sector and an offset in it.
abbrev pub Place : Type 0
Place = ℕ × ℕ

abbrev pub or_place : Option Place → Place → Place
or_place none p = p
or_place (some q) p = q

-- The entry of `locate_or_free_slot`: the first deleted slot is remembered.
unfoldable pub slot_step :
    Bytes → ℕ → ℕ → Bytes → Option Place → Flow (Option Place) (Place × Option ℕ)
unfolding slot_of
slot_step target sector offset entry first_free = elim (slot_of entry) [
  | end ↦ stop (or_place first_free (sector, offset), none)
  | deleted ↦ go (some (or_place first_free (sector, offset)))
  | skipped ↦ go first_free
  | used ↦
      if bytes_eq (take 11 entry) target
      then stop ((sector, offset), some (entry_cluster entry))
      else go first_free
]

-- The entry of `locate_entry`.
unfoldable pub locate_step :
    Bytes → ℕ → ℕ → Bytes → Unit {0} → Flow (Unit {0}) (Option (Place × DirEntry))
unfolding slot_of parse_entry
locate_step target sector offset entry acc = elim (slot_of entry) [
  | end ↦ stop none
  | deleted ↦ go tt
  | skipped ↦ go tt
  | used ↦
      if bytes_eq (take 11 entry) target
      then stop (some ((sector, offset), parse_entry entry))
      else go tt
]

module _ (d : BlockDevice) (v : Fat32) where
  unfoldable pub find_in_dir : ℕ → Bytes → M d.Dev FatError (Option DirEntry)
  unfolding find_clusters short_name_83
  find_in_dir start_cluster name = do
    f ← find_clusters d v (short_name_83 name) v.cluster_count start_cluster
    pure (found none f)

  unfoldable pub list_dir : ℕ → M d.Dev FatError (List DirItem)
  unfolding scan_clusters list_step
  list_dir dir_cluster = do
    f ← scan_clusters list_step d v v.cluster_count dir_cluster []
    pure (listed f)

  unfoldable pub locate_or_free_slot : ℕ → Bytes → M d.Dev FatError (Place × Option ℕ)
  unfolding scan_clusters slot_step
  locate_or_free_slot dir_cluster target = do
    f ← scan_clusters (slot_step target) d v v.cluster_count dir_cluster none
    λ s. elim f [
      | stop r ↦ (ok r, s)
      | go none ↦ (err dir_full, s)
      | go (some p) ↦ (ok (p, none), s)
    ]

  unfoldable pub locate_entry : ℕ → Bytes → M d.Dev FatError (Option (Place × DirEntry))
  unfolding scan_clusters locate_step short_name_83
  locate_entry dir_cluster name = do
    f ← scan_clusters (locate_step (short_name_83 name)) d v v.cluster_count dir_cluster tt
    pure (found none f)

  unfoldable pub write_dir_entry : Place → Bytes → ℕ → ℕ → ℕ → M d.Dev FatError (Unit {0})
  unfolding fill_dir_entry
  write_dir_entry (sector, offset) name attr first_cluster size = do
    buf ← read_sector d sector
    write_sector d sector (splice buf offset (fill_dir_entry name attr first_cluster size))

  unfoldable pub clear_dir_entry : Place → M d.Dev FatError (Unit {0})
  clear_dir_entry (sector, offset) = do
    buf ← read_sector d sector
    write_sector d sector (splice buf offset (0xe5 ∷ []))

  -- `it.name == "." || it.name == ".."` for every item.
  abbrev pub all_dots : List DirItem → Bool
  all_dots [] = true
  all_dots (it ∷ its) =
      (bytes_eq it.name (46 ∷ []) || bytes_eq it.name (46 ∷ 46 ∷ [])) && all_dots its

  unfoldable pub dir_is_empty : ℕ → M d.Dev FatError Bool
  unfolding list_dir
  dir_is_empty dir_cluster = do items ← list_dir dir_cluster; pure (all_dots items)

  -- The remaining sectors of a fresh directory: zeros.
  unfoldable pub zero_sectors : ℕ → ℕ → M d.Dev FatError (Unit {0})
  zero_sectors zero sector = pure tt
  zero_sectors (suc left) sector =
      write_sector d (u32 sector) (replicate sector_size 0) >> zero_sectors left (sector + 1)

  abbrev pub dot_name : Bytes
  dot_name = 46 ∷ replicate 10 32

  abbrev pub dot_dot_name : Bytes
  dot_dot_name = 46 ∷ 46 ∷ replicate 9 32

  unfoldable pub init_dir_cluster : ℕ → ℕ → M d.Dev FatError (Unit {0})
  unfolding first_sector_of_cluster fill_dir_entry zero_sectors
  init_dir_cluster cluster parent = do
    let first_sec = first_sector_of_cluster v cluster
    let dotdot = if parent == v.root_cluster then 0 else parent
    write_sector d first_sec (
        fill_dir_entry dot_name attr_directory cluster 0
        ++ (fill_dir_entry dot_dot_name attr_directory dotdot 0 ++ replicate 448 0))
    zero_sectors (v.sectors_per_cluster - 1) (first_sec + 1)
