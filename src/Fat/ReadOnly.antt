-- ===== src/Fat/ReadOnly.antt =====
-- The operations of src/fs/fat.rs that only look leave every sector as it is.
use ferros.Prelude.{
  ℕ, zero, suc, ◌+◌, ◌-◌, ◌/◌, ◌%◌, ◌≡◌, refl, ap, ◌∙◌, Bool, true, false, not, Bool-cases, inl,
  inr, Option, none, some, List, [], ◌∷◌, Result, ok, err, M, pure, throw, ok_or, after, ◌>>=◌, min,
  take, ◌++◌,
}
use ferros.Prelude.{if◌then◌else◌, Bytes}
use ferros.Block.{BlockDevice, BlkError, Laws, sector_size}
use ferros.Fat.Volume.{
  Fat32, FatError, not_found, not_a_directory, is_a_directory, u32, entry_bits, read_u32,
  lift_error, read_sector, valid_cluster, first_sector_of_cluster,
}
use ferros.Fat.Names.{short_name_83}
use ferros.Fat.Table.{fat_offset, next_cluster}
use ferros.Fat.Slot.{DirEntry, chunks}
use ferros.Fat.Directory.{
  Flow, go, stop, next_or, scan_entries, scan_sectors, scan_clusters, list_step, find_entries,
  find_sectors, find_clusters, find_in_dir, list_dir,
}
use ferros.Fat.Path.{
  components, is_empty, read_node, descend, resolve_parent, read_sectors, read_clusters, read_entry,
  read_file, lookup_entry, lookup, stat,
}

module _ (d : BlockDevice) (laws : Laws d) where
  open laws use {image}

  -- Whatever the call returns, the sectors are as before.
  abbrev pub IsQuiet : {E A : Type 0} → M d.Dev E A → Type 0
  IsQuiet m = (s : d.Dev) (j : ℕ) → image (m s).1 j ≡ image s j

  >>=-IsQuiet :
      {E A B : Type 0} (m : M d.Dev E A) (f : A → M d.Dev E B)
      → IsQuiet m
      → ((a : A) → IsQuiet (f a))
      → IsQuiet (m >>= f)
  >>=-IsQuiet {E} {A} m f qm qf s j = on_result (m s).0 (m s).1 (qm s j)
    where
      on_result :
          (r : Result E A) (t : d.Dev) → image t j ≡ image s j → image (after r t f).1 j ≡ image s j
      on_result (ok a) t h = qf a t j ∙ h
      on_result (err e) t h = h

  lift_error-state : {A : Type 0} (r : Result BlkError A × d.Dev) → (lift_error r).1 ≡ r.1
  lift_error-state (ok a, s) = refl
  lift_error-state (err e, s) = refl

  read_sector-IsQuiet : (i : ℕ) → IsQuiet (read_sector d i)
  read_sector-IsQuiet i s j =
      ap (λ t. image t j) (lift_error-state (d.read_sector i s)) ∙ laws.image-read s i j

  ok_or-IsQuiet : {E A : Type 0} (o : Option A) (e : E) → IsQuiet (ok_or o e)
  ok_or-IsQuiet none e s j = refl
  ok_or-IsQuiet (some a) e s j = refl

  if-IsQuiet :
      {E A : Type 0} (b : Bool) (m m' : M d.Dev E A)
      → IsQuiet m
      → IsQuiet m'
      → IsQuiet (if b then m else m')
  if-IsQuiet true m m' h h' = h
  if-IsQuiet false m m' h h' = h'

  module _ (v : Fat32) where
    next_cluster-IsQuiet : (c : ℕ) → IsQuiet (next_cluster d v c)
    unfolding next_cluster
    next_cluster-IsQuiet c =
        >>=-IsQuiet (read_sector d (u32 (v.fat_start_sector + fat_offset c / sector_size)))
          (λ buf. pure (entry_bits (read_u32 buf (fat_offset c % sector_size))))
          (read_sector-IsQuiet (u32 (v.fat_start_sector + fat_offset c / sector_size)))
          (λ buf s j. refl)

    next_or-IsQuiet :
        {A R : Type 0} (r : Flow A R) (k : A → M d.Dev FatError (Flow A R))
        → ((a : A) → IsQuiet (k a))
        → IsQuiet (next_or r k)
    next_or-IsQuiet (stop r) k h s j = refl
    next_or-IsQuiet (go a) k h s j = h a s j

    module _ {A R : Type 0} (step : ℕ → ℕ → Bytes → A → Flow A R) where
      scan_sectors-IsQuiet :
          (first left n : ℕ) (acc : A) → IsQuiet (scan_sectors step d v first left n acc)
      unfolding scan_sectors
      scan_sectors-IsQuiet first zero n acc s j = refl
      scan_sectors-IsQuiet first (suc left) n acc s j =
          >>=-IsQuiet (read_sector d (u32 (first + n))) _ (read_sector-IsQuiet (u32 (first + n)))
            (λ buf.
              next_or-IsQuiet (scan_entries step (u32 (first + n)) 0 (chunks 16 buf) acc) _
                (λ a. scan_sectors-IsQuiet first left (n + 1) a))
            s j

      pub scan_clusters-IsQuiet :
          (steps c : ℕ) (acc : A) → IsQuiet (scan_clusters step d v steps c acc)
      unfolding scan_clusters
      scan_clusters-IsQuiet zero c acc s j = refl
      scan_clusters-IsQuiet (suc steps) c acc s j = elim (Bool-cases (valid_cluster v c)) [
        | inr out ↦ rw (out, scan_clusters) refl
        | inl in_volume ↦
            rw (in_volume, scan_clusters)
              (>>=-IsQuiet
                (scan_sectors step d v (first_sector_of_cluster v c) v.sectors_per_cluster 0 acc)
                (λ r. next_or r (λ a. next_cluster d v c >>= λ n. scan_clusters step d v steps n a))
                (scan_sectors-IsQuiet (first_sector_of_cluster v c) v.sectors_per_cluster 0 acc)
                (λ r. next_or-IsQuiet r _ (λ a.
                  >>=-IsQuiet (next_cluster d v c) _ (next_cluster-IsQuiet c)
                    (λ n. scan_clusters-IsQuiet steps n a)))
                s j)
      ]

    module _ (target : Bytes) where
      find_sectors-IsQuiet : (first left n : ℕ) → IsQuiet (find_sectors d v target first left n)
      unfolding find_sectors
      find_sectors-IsQuiet first zero n s j = refl
      find_sectors-IsQuiet first (suc left) n s j =
          >>=-IsQuiet (read_sector d (u32 (first + n))) _ (read_sector-IsQuiet (u32 (first + n)))
            (λ buf.
              next_or-IsQuiet (find_entries target (chunks 16 buf)) _
                (λ a. find_sectors-IsQuiet first left (n + 1)))
            s j

      find_clusters-IsQuiet : (steps c : ℕ) → IsQuiet (find_clusters d v target steps c)
      unfolding find_clusters
      find_clusters-IsQuiet zero c s j = refl
      find_clusters-IsQuiet (suc steps) c s j = elim (Bool-cases (valid_cluster v c)) [
        | inr out ↦ rw (out, find_clusters) refl
        | inl in_volume ↦
            rw (in_volume, find_clusters)
              (>>=-IsQuiet
                (find_sectors d v target (first_sector_of_cluster v c) v.sectors_per_cluster 0)
                (λ r. next_or r (λ _. next_cluster d v c >>= λ n. find_clusters d v target steps n))
                (find_sectors-IsQuiet (first_sector_of_cluster v c) v.sectors_per_cluster 0)
                (λ r. next_or-IsQuiet r _ (λ a.
                  >>=-IsQuiet (next_cluster d v c) _ (next_cluster-IsQuiet c)
                    (λ n. find_clusters-IsQuiet steps n)))
                s j)
      ]

    pub find_in_dir-IsQuiet : (c : ℕ) (name : Bytes) → IsQuiet (find_in_dir d v c name)
    unfolding find_in_dir
    find_in_dir-IsQuiet c name =
        >>=-IsQuiet (find_clusters d v (short_name_83 name) v.cluster_count c) _
          (find_clusters-IsQuiet (short_name_83 name) v.cluster_count c) (λ r s j. refl)

    list_dir-IsQuiet : (c : ℕ) → IsQuiet (list_dir d v c)
    unfolding list_dir
    list_dir-IsQuiet c =
        >>=-IsQuiet (scan_clusters list_step d v v.cluster_count c []) _
          (scan_clusters-IsQuiet list_step v.cluster_count c []) (λ r s j. refl)

    descend-IsQuiet : (c : ℕ) (names : List Bytes) → IsQuiet (descend d v c names)
    unfolding descend
    descend-IsQuiet c [] s j = refl
    descend-IsQuiet c (name ∷ []) s j = refl
    descend-IsQuiet c (comp ∷ next ∷ rest) s j =
        >>=-IsQuiet (find_in_dir d v c comp) _ (find_in_dir-IsQuiet c comp)
          (λ o. >>=-IsQuiet (ok_or o not_found) _ (ok_or-IsQuiet o not_found) (λ e.
            if-IsQuiet (not e.is_dir) (throw not_a_directory)
              (descend d v e.first_cluster (next ∷ rest)) (λ t i. refl)
              (descend-IsQuiet e.first_cluster (next ∷ rest))))
          s j

    resolve_parent-IsQuiet : (path : Bytes) → IsQuiet (resolve_parent d v path)
    unfolding resolve_parent
    resolve_parent-IsQuiet path = descend-IsQuiet v.root_cluster (components path)

    read_sectors-IsQuiet :
        (left sector remaining : ℕ) (content : Bytes)
        → IsQuiet (read_sectors d v left sector remaining content)
    unfolding read_sectors
    read_sectors-IsQuiet zero sector remaining content s j = refl
    read_sectors-IsQuiet (suc left) sector zero content s j = refl
    read_sectors-IsQuiet (suc left) sector (suc remaining) content s j =
        >>=-IsQuiet (read_sector d (u32 sector)) _ (read_sector-IsQuiet (u32 sector))
          (λ buf.
            read_sectors-IsQuiet left (sector + 1) (suc remaining - min (suc remaining) sector_size)
              (content ++ take (min (suc remaining) sector_size) buf))
          s j

    read_clusters-IsQuiet :
        (fuel c remaining : ℕ) (content : Bytes)
        → IsQuiet (read_clusters d v fuel c remaining content)
    unfolding read_clusters
    read_clusters-IsQuiet zero c remaining content s j = refl
    read_clusters-IsQuiet (suc fuel) c zero content s j = refl
    read_clusters-IsQuiet (suc fuel) c (suc remaining) content s j =
        elim (Bool-cases (valid_cluster v c)) [
          | inr out ↦ rw (out, read_clusters) refl
          | inl in_volume ↦
              rw (in_volume, read_clusters)
                (>>=-IsQuiet
                  (read_sectors d v v.sectors_per_cluster (first_sector_of_cluster v c)
                    (suc remaining) content)
                  _
                  (read_sectors-IsQuiet v.sectors_per_cluster (first_sector_of_cluster v c)
                    (suc remaining) content)
                  (λ (p : ℕ × Bytes).
                    >>=-IsQuiet (next_cluster d v c) _ (next_cluster-IsQuiet c)
                      (λ n. read_clusters-IsQuiet fuel n p.0 p.1))
                  s j)
        ]

    lookup_entry-IsQuiet : (path : Bytes) → IsQuiet (lookup_entry d v path)
    unfolding lookup_entry
    lookup_entry-IsQuiet path =
        >>=-IsQuiet (resolve_parent d v path) _ (resolve_parent-IsQuiet path) (λ (p : ℕ × Bytes).
          >>=-IsQuiet (find_in_dir d v p.0 p.1) _ (find_in_dir-IsQuiet p.0 p.1)
            (λ o. ok_or-IsQuiet o not_found))

    read_entry-IsQuiet : (e : DirEntry) → IsQuiet (read_entry d v e)
    unfolding read_entry
    read_entry-IsQuiet e = read_clusters-IsQuiet e.size e.first_cluster e.size []

    read_file-IsQuiet : (path : Bytes) → IsQuiet (read_file d v path)
    unfolding read_file
    read_file-IsQuiet path =
        >>=-IsQuiet (resolve_parent d v path) _ (resolve_parent-IsQuiet path) (λ (p : ℕ × Bytes).
          >>=-IsQuiet (find_in_dir d v p.0 p.1) _ (find_in_dir-IsQuiet p.0 p.1) (λ o.
            >>=-IsQuiet (ok_or o not_found) _ (ok_or-IsQuiet o not_found) (λ e.
              if-IsQuiet e.is_dir (throw is_a_directory) (read_entry d v e) (λ t i. refl)
                (read_entry-IsQuiet e))))

    read_node-IsQuiet : (e : DirEntry) → IsQuiet (read_node d v e)
    read_node-IsQuiet e =
        if-IsQuiet e.is_dir _ _
          (>>=-IsQuiet (list_dir d v e.first_cluster) _ (list_dir-IsQuiet e.first_cluster)
            (λ items s j. refl))
          (>>=-IsQuiet (read_entry d v e) _ (read_entry-IsQuiet e) (λ content s j. refl))

    lookup-IsQuiet : (path : Bytes) → IsQuiet (lookup d v path)
    unfolding lookup
    lookup-IsQuiet path =
        if-IsQuiet (is_empty (components path)) _ _
          (>>=-IsQuiet (list_dir d v v.root_cluster) _ (list_dir-IsQuiet v.root_cluster)
            (λ items s j. refl))
          (>>=-IsQuiet (lookup_entry d v path) _ (lookup_entry-IsQuiet path) read_node-IsQuiet)

    stat-IsQuiet : (path : Bytes) → IsQuiet (stat d v path)
    unfolding stat
    stat-IsQuiet path =
        if-IsQuiet (is_empty (components path)) _ _ (λ s j. refl)
          (>>=-IsQuiet (lookup_entry d v path) _ (lookup_entry-IsQuiet path) (λ e s j. refl))

    -- On a device with the laws, reading a file, opening a path and asking for its metadata leave
    -- every sector of the disk as it is, whether they succeed or fail.
    pub reads-IsQuiet :
        (path : Bytes)
        → IsQuiet (read_file d v path) × IsQuiet (lookup d v path) × IsQuiet (stat d v path)
    reads-IsQuiet path = (read_file-IsQuiet path, lookup-IsQuiet path, stat-IsQuiet path)
