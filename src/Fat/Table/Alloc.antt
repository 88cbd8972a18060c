-- ===== src/Fat/Table/Alloc.antt =====
-- The search for a free cluster in src/fs/fat.rs ends within the rounds that it is given.
use ferros.Prelude.{
  ℕ, zero, suc, ◌+◌, ◌-◌, ◌*◌, ◌/◌, ◌%◌, ◌≤◌, ◌<◌, ◌≡◌, refl, sym, ap, ◌∙◌, ◌⊎◌, inl, inr, true,
  false, Result, ok, err, arith,
}
use ferros.Prelude.{ltb, ◌==◌, ◌&&◌, ==_refl, Bool-cases, Bytes, M, after, pure, ◌>>=◌, ◌>>◌}
use ferros.Block.{BlockDevice}
use ferros.Fat.Volume.{
  Fat32, FatError, no_space, u32, entry_bits, read_u32, fat32_eoc, fat_entries_per_sector,
  read_sector,
}
use ferros.Fat.Table.{
  Scan, free, past, scan_sector, last_cluster, write_fat_entry, alloc_from, alloc_cluster,
}

-- What the scan passes lies behind `cluster`, or at it if nothing was scanned.
abbrev Passes : ℕ → Scan → Type 0
Passes cluster (free c) = Unit {0}
Passes cluster (past c) = cluster ≤ c

Passes-le : (a b : ℕ) (r : Scan) → a ≤ b → Passes b r → Passes a r
Passes-le a b (free c) h p = tt
Passes-le a b (past c) h p = omega arith

scan_sector-Passes :
    (last within : ℕ) (buf : Bytes) (left cluster : ℕ)
    → Passes cluster (scan_sector last within buf left cluster)
unfolding scan_sector
scan_sector-Passes last within buf zero cluster = omega arith
scan_sector-Passes last within buf (suc left) cluster =
    let rest =
      Passes-le cluster (cluster + 1) (scan_sector last within buf left (cluster + 1)) (omega arith)
        (scan_sector-Passes last within buf left (cluster + 1)) in
    elim (Bool-cases (ltb cluster last && (cluster / fat_entries_per_sector == within))) [
      | inr over ↦ rw (over, scan_sector) (omega arith)
      | inl inside ↦
          elim (Bool-cases
            (entry_bits (read_u32 buf (cluster % fat_entries_per_sector * 4)) == 0)) [
              | inl is_free ↦ rw (inside, is_free, scan_sector) tt
              | inr in_use ↦ rw (inside, in_use, scan_sector) rest
            ]
    ]

-- A scan that begins in its sector passes one cluster at least.
scan_sector-moves :
    (last within : ℕ) (buf : Bytes) (left cluster : ℕ)
    → (ltb cluster last && (cluster / fat_entries_per_sector == within)) ≡ true
    → Passes (cluster + 1) (scan_sector last within buf (suc left) cluster)
unfolding scan_sector
scan_sector-moves last within buf left cluster inside =
    elim (Bool-cases (entry_bits (read_u32 buf (cluster % fat_entries_per_sector * 4)) == 0)) [
      | inl is_free ↦ rw (inside, is_free, scan_sector) tt
      | inr in_use ↦
          rw (inside, in_use, scan_sector) (scan_sector-Passes last within buf left (cluster + 1))
    ]

>>=-ext :
    {S E A B : Type 0} (m : M S E A) (f g : A → M S E B) (s : S)
    → ((a : A) (t : S) → f a t ≡ g a t)
    → (m >>= f) s ≡ (m >>= g) s
>>=-ext {S} {E} {A} {B} m f g s h = go (m s).0 (m s).1
  where
    go : (r : Result E A) (t : S) → after r t f ≡ after r t g
    go (ok a) t = h a t
    go (err e) t = refl

module _ (d : BlockDevice) (v : Fat32) (begin : v.fat_start_sector < 4294967296) where
  alloc_from-enough :
      (fuel more cluster : ℕ) (s : d.Dev)
      → last_cluster d v ≤ cluster + fuel
      → alloc_from d v (fuel + more) cluster s ≡ alloc_from d v fuel cluster s
  unfolding alloc_from
  alloc_from-enough zero more cluster s h =
      ap (λ n. alloc_from d v n cluster s) {x = 0 + more} {y = more} (omega arith) ∙ ended more
    where
      ended : (n : ℕ) → alloc_from d v n cluster s ≡ (err no_space, s)
      ended zero = refl
      ended (suc n) =
          let behind : ltb cluster (last_cluster d v) ≡ false = ground arith in
          rw (behind, alloc_from) refl
  alloc_from-enough (suc fuel) more cluster s h =
      ap (λ n. alloc_from d v n cluster s) {x = suc fuel + more} {y = suc (fuel + more)}
        (omega arith)
      ∙ round (λ c t k. alloc_from-enough fuel more c t (omega arith))
          (Bool-cases (ltb cluster (last_cluster d v)))
    where
      sector : ℕ
      sector = u32 (v.fat_start_sector + cluster / fat_entries_per_sector)

      within : ℕ
      within = u32 (sector + 4294967296 - v.fat_start_sector)

      next : ℕ → Bytes → M d.Dev FatError ℕ
      next n buf t =
          elim (scan_sector (last_cluster d v) within buf fat_entries_per_sector cluster) [
            | free c ↦ (write_fat_entry d v c fat32_eoc >> pure c) t
            | past c ↦ alloc_from d v n c t
          ]

      Later : Type 0
      Later =
          (c : ℕ) (t : d.Dev)
          → cluster + 1 ≤ c
          → alloc_from d v (fuel + more) c t ≡ alloc_from d v fuel c t

      same :
          Later
          → (r : Scan) (t : d.Dev) → Passes (cluster + 1) r
          → ◌≡◌ {A = Result FatError ℕ × d.Dev}
              (elim r [
                | free c ↦ (write_fat_entry d v c fat32_eoc >> pure c) t
                | past c ↦ alloc_from d v (fuel + more) c t
              ])
              (elim r [
                | free c ↦ (write_fat_entry d v c fat32_eoc >> pure c) t
                | past c ↦ alloc_from d v fuel c t
              ])
      same later (free c) t p = refl
      same later (past c) t p = later c t p

      one_round :
          (n : ℕ)
          → (ltb cluster (last_cluster d v)) ≡ true
          → alloc_from d v (suc n) cluster s ≡ (read_sector d sector >>= next n) s
      one_round n inside = rw (inside, alloc_from) refl

      round :
          Later
          → ((ltb cluster (last_cluster d v)) ≡ true) ⊎ ((ltb cluster (last_cluster d v)) ≡ false)
          → alloc_from d v (suc (fuel + more)) cluster s ≡ alloc_from d v (suc fuel) cluster s
      round later (inr over) = rw (over, alloc_from) refl
      round later (inl inside) =
          let place : within ≡ cluster / fat_entries_per_sector = ground arith in
          let here : (cluster / fat_entries_per_sector == within) ≡ true =
            ap (λ n. cluster / fat_entries_per_sector == n) place
            ∙ ==_refl (cluster / fat_entries_per_sector) in
          one_round (fuel + more) inside
          ∙ >>=-ext (read_sector d sector) (next (fuel + more)) (next fuel) s (λ buf t.
            same later (scan_sector (last_cluster d v) within buf fat_entries_per_sector cluster) t
              (scan_sector-moves (last_cluster d v) within buf 127 cluster (rw inside here)))
          ∙ sym (one_round fuel inside)

-- The rounds of `alloc_cluster` are enough: the search with any number of further rounds does the
-- same to the device and returns the same. The volume has fewer than 2^32 - 2 clusters, and its
-- table begins below sector 2^32.
pub alloc_cluster-enough :
    (d : BlockDevice) (v : Fat32) (more : ℕ) (s : d.Dev)
    → v.fat_start_sector < 4294967296
    → 2 + v.cluster_count < 4294967296
    → alloc_from d v (v.cluster_count + more) 2 s ≡ alloc_cluster d v s
unfolding alloc_cluster
alloc_cluster-enough d v more s begin few =
    alloc_from-enough d v begin v.cluster_count more 2 s (omega arith)
