-- ===== src/Files/Heap/Pages.antt =====
-- src/syscall/files.rs: which pages the loops of `brk` map and unmap. A page is 4096 times its number.
use ferros.Prelude.{ℕ, zero, suc, ◌+◌, ◌*◌, ◌≡◌, Bool, false, ◌&&◌, ◌||◌, not, inl, inr, arith}
use ferros.Prelude.{leb, ltb, Bool-cases}
use ferros.Paging.{Mapper, Mmu, map_active_user_page, unmap_active_user_page}
use ferros.Paging.Laws.{
  Laws, is_mapped, is_mapped-map_active_user_page, is_mapped-unmap_active_user_page,
}
use ferros.Files.Heap.{unmap_pages, map_pages}

-- Whether `q` is one of `n` numbers from `v` on.
abbrev pub among : ℕ → ℕ → ℕ → Bool
among v n q = leb v q && ltb q (v + n)

module _ (m : Mapper) (laws : Laws m) where
  pub is_mapped-unmap_pages :
      (n v : ℕ) (s : Mmu m) (q : ℕ)
      → is_mapped m (unmap_pages m n (v * 4096) s).tables (q * 4096)
        ≡ (not (among v n q) && is_mapped m s.tables (q * 4096))
  unfolding unmap_pages
  is_mapped-unmap_pages zero v s q = ground arith
  is_mapped-unmap_pages (suc n) v s q =
      let s' = unmap_active_user_page m (v * 4096) s in
      ground (
        arith,
        is_mapped-unmap_pages n (v + 1) s' q,
        is_mapped-unmap_active_user_page m laws (v * 4096) s (q * 4096),
      )

  pub is_mapped-map_pages :
      (n done v : ℕ) (s : Mmu m) (b : Bool) (q : ℕ)
      → is_mapped m s.tables (q * 4096) ≡ (among v done q || b)
      → (among v (done + n) q && b) ≡ false
      → is_mapped m (map_pages m n done (v * 4096) s).1.tables (q * 4096)
        ≡ (((map_pages m n done (v * 4096) s).0 && among v (done + n) q) || b)
  unfolding map_pages
  is_mapped-map_pages zero done v s b q h fresh = ground arith
  is_mapped-map_pages (suc n) done v s b q h fresh =
      let s' = (map_active_user_page m (v * 4096 + done * 4096) s).1 in
      let now = is_mapped-map_active_user_page m laws (v * 4096 + done * 4096) s (q * 4096) in
      let shift : done + suc n ≡ done + 1 + n = omega arith in
      elim (Bool-cases (map_active_user_page m (v * 4096 + done * 4096) s).0) [
        | inl e ↦
            rw (e, shift, map_pages)
              (is_mapped-map_pages n (done + 1) v s' b q (ground arith) (ground arith))
        | inr e ↦ rw (e, map_pages, is_mapped-unmap_pages done v s' q) (ground arith)
      ]
