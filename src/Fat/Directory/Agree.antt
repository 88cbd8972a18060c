-- ===== src/Fat/Directory/Agree.antt =====
-- The loops of `find_in_dir` of src/fs/fat.rs beside those of `locate_entry`.
use ferros.Prelude.{
  ℕ, zero, suc, ◌+◌, ◌≡◌, refl, ap, ◌∙◌, Option, none, some, List, [], ◌∷◌, Result, ok, err, M,
  pure, after, ◌>>=◌, inl, inr, arith,
}
use ferros.Prelude.{Bool-cases, Bytes}
use ferros.Block.{BlockDevice}
use ferros.Fat.Volume.{Fat32, FatError, u32, read_sector, valid_cluster, first_sector_of_cluster}
use ferros.Fat.Names.{short_name_83}
use ferros.Fat.Table.{next_cluster}
use ferros.Fat.Slot.{slot_of, parse_entry, DirEntry, chunks}
use ferros.Fat.Directory.{
  Flow, go, stop, next_or, Place, scan_entries, scan_sectors, scan_clusters, find_entries,
  find_sectors, find_clusters, locate_step, found, find_in_dir, locate_entry,
}

-- What two searches of one directory make of the same walk.
abbrev map_flow : {A R R' : Type 0} → (R → R') → Flow A R → Flow A R'
map_flow f (go a) = go a
map_flow f (stop r) = stop (f r)

abbrev pub map_result : {A B : Type 0} {S E : Type 0} → (A → B) → Result E A × S → Result E B × S
map_result f (ok a, s) = (ok (f a), s)
map_result f (err e, s) = (err e, s)

bind-map :
    {S E A B B' : Type 0} (m : M S E A) (k : A → M S E B) (k' : A → M S E B') (f : B → B')
    → ((a : A) (t : S) → k' a t ≡ map_result f (k a t))
    → (s : S) → (m >>= k') s ≡ map_result f ((m >>= k) s)
bind-map {S} {E} {A} m k k' f h s = on_result (m s).0 (m s).1
  where
    on_result : (r : Result E A) (t : S) → after r t k' ≡ map_result f (after r t k)
    on_result (ok a) t = h a t
    on_result (err e) t = refl

bind-map_both :
    {S E A A' B B' : Type 0} (m : M S E A) (m' : M S E A') (g : A → A') (k : A → M S E B)
    (k' : A' → M S E B') (f : B → B')
    → ((s : S) → m' s ≡ map_result g (m s))
    → ((a : A) (t : S) → k' (g a) t ≡ map_result f (k a t))
    → (s : S) → (m' >>= k') s ≡ map_result f ((m >>= k) s)
bind-map_both {S} {E} {A} m m' g k k' f e h s =
    ap (λ r. after r.0 r.1 k') (e s) ∙ on_result (m s).0 (m s).1
  where
    on_result :
        (r : Result E A) (t : S)
        → after (map_result g (r, t)).0 (map_result g (r, t)).1 k' ≡ map_result f (after r t k)
    on_result (ok a) t = h a t
    on_result (err x) t = refl

next_or-map :
    {S A R R' : Type 0} (f : R → R') (r : Flow A R) (k : A → M S FatError (Flow A R))
    (k' : A → M S FatError (Flow A R'))
    → ((a : A) (t : S) → k' a t ≡ map_result (map_flow f) (k a t))
    → (t : S) → next_or (map_flow f r) k' t ≡ map_result (map_flow f) (next_or r k t)
next_or-map f (stop r) k k' h t = refl
next_or-map f (go a) k k' h t = h a t

abbrev pub entry_of : Option (Place × DirEntry) → Option DirEntry
entry_of none = none
entry_of (some (place, e)) = some e

module _ (target : Bytes) where
  find_entries-scan_entries :
      (sector idx : ℕ) (es : List Bytes)
      → find_entries target es
        ≡ map_flow entry_of (scan_entries (locate_step target) sector idx es tt)
  unfolding find_entries scan_entries locate_step slot_of parse_entry
  find_entries-scan_entries sector idx [] = refl
  find_entries-scan_entries sector idx (e ∷ es) =
      ground (arith, find_entries-scan_entries sector (idx + 1) es)

  module _ (d : BlockDevice) (v : Fat32) where
    find_sectors-scan_sectors :
        (first left n : ℕ) (s : d.Dev)
        → find_sectors d v target first left n s
          ≡ map_result (map_flow entry_of) (scan_sectors (locate_step target) d v first left n tt s)
    unfolding find_sectors scan_sectors
    find_sectors-scan_sectors first zero n s = refl
    find_sectors-scan_sectors first (suc left) n s =
        bind-map (read_sector d (u32 (first + n))) _ _ (map_flow entry_of)
          (λ buf t. rw (find_entries-scan_entries (u32 (first + n)) 0 (chunks 16 buf)) (
            next_or-map entry_of
              (scan_entries (locate_step target) (u32 (first + n)) 0 (chunks 16 buf) tt) _ _
              (λ a u. find_sectors-scan_sectors first left (n + 1) u) t))
          s

    find_clusters-scan_clusters :
        (steps cluster : ℕ) (s : d.Dev)
        → find_clusters d v target steps cluster s
          ≡ map_result
              (map_flow entry_of)
              (scan_clusters (locate_step target) d v steps cluster tt s)
    unfolding find_clusters scan_clusters
    find_clusters-scan_clusters zero cluster s = refl
    find_clusters-scan_clusters (suc steps) cluster s =
        elim (Bool-cases (valid_cluster v cluster)) [
          | inr out ↦ rw (out, find_clusters, scan_clusters) refl
          | inl in_volume ↦
              let first = first_sector_of_cluster v cluster in
              rw (in_volume, find_clusters, scan_clusters)
                (bind-map_both
                  (scan_sectors (locate_step target) d v first v.sectors_per_cluster 0 tt)
                  (find_sectors d v target first v.sectors_per_cluster 0) (map_flow entry_of)
                  (λ r. next_or r (λ a. next_cluster d v cluster >>= λ n.
                    scan_clusters (locate_step target) d v steps n a))
                  (λ r.
                    next_or r
                      (λ _. next_cluster d v cluster >>= λ n. find_clusters d v target steps n))
                  (map_flow entry_of) (find_sectors-scan_sectors first v.sectors_per_cluster 0)
                  (λ r t.
                    next_or-map entry_of r _ _
                      (λ a u.
                        bind-map (next_cluster d v cluster) _ _ (map_flow entry_of)
                          (λ n w. find_clusters-scan_clusters steps n w) u)
                      t)
                  s)
        ]

-- `find_in_dir` returns the entry that `locate_entry` returns, and fails where it fails; both leave
-- the device in the same state.
pub find_in_dir-locate_entry :
    (d : BlockDevice) (v : Fat32) (cluster : ℕ) (name : Bytes) (s : d.Dev)
    → find_in_dir d v cluster name s ≡ map_result entry_of (locate_entry d v cluster name s)
unfolding find_in_dir locate_entry
find_in_dir-locate_entry d v cluster name s =
    bind-map_both (scan_clusters (locate_step (short_name_83 name)) d v v.cluster_count cluster tt)
      (find_clusters d v (short_name_83 name) v.cluster_count cluster) (map_flow entry_of)
      (λ r. pure (found none r)) (λ r. pure (found none r)) entry_of
      (find_clusters-scan_clusters (short_name_83 name) d v v.cluster_count cluster)
      (λ r t. same_end r t) s
  where
    same_end :
        (r : Flow (Unit {0}) (Option (Place × DirEntry))) (t : d.Dev)
        → pure (found none (map_flow entry_of r)) t
          ≡ map_result {S = d.Dev} {E = FatError} entry_of (pure (found none r) t)
    same_end (go a) t = refl
    same_end (stop r) t = refl
