-- ===== src/Paging/Laws.antt =====
-- src/mm/paging.rs: what the page table of the crate promises, and what the two calls do to the
-- pages that are mapped.
use ferros.Prelude.{ℕ, Bool, true, false, ◌&&◌, ◌||◌, not, ◌≡◌, inl, inr, refl}
use ferros.Prelude.{◌==◌, Option-cases}
use ferros.Sched.Table.{is_some}
use ferros.Frame.{Memory, FrameAllocator, allocate_frame}
use ferros.Paging.{Mapper, Mmu, settle, map_active_user_page, unmap_active_user_page}

abbrev pub is_mapped : (m : Mapper) → m.Tables → ℕ → Bool
is_mapped m t q = is_some (m.translate_page t q)

-- A page that was mapped is, and the others are as before; a page that was not mapped changes none.
pub record Laws (m : Mapper) : Type 0 where
  pub is_mapped-map_to :
      (page frame : ℕ) (mem : Memory) (frames : FrameAllocator) (t : m.Tables) (q : ℕ)
      → is_mapped m (m.map_to page frame (mem, frames, t)).3 q
        ≡ (((m.map_to page frame (mem, frames, t)).0 && (q == page)) || is_mapped m t q)
  pub is_mapped-unmap :
      (page : ℕ) (t : m.Tables) (q : ℕ)
      → is_mapped m (m.unmap page t).1 q ≡ (not (q == page) && is_mapped m t q)
  pub is_mapped-clear :
      (page : ℕ) (t : m.Tables) (q : ℕ) → is_mapped m (m.clear page t) q ≡ is_mapped m t q

module _ (m : Mapper) (laws : Laws m) where
  is_mapped-settle :
      (page frame : ℕ) (r : Bool × Memory × FrameAllocator × m.Tables) (q : ℕ) (b : Bool)
      → is_mapped m r.3 q ≡ ((r.0 && (q == page)) || b)
      → is_mapped m (settle m page frame r).1.tables q
        ≡ (((settle m page frame r).0 && (q == page)) || b)
  is_mapped-settle page frame (true, mem, frames, t) q b h = rw (laws.is_mapped-clear page t q) h
  is_mapped-settle page frame (false, mem, frames, t) q b h = h

  pub is_mapped-map_active_user_page :
      (page : ℕ) (s : Mmu m) (q : ℕ)
      → is_mapped m (map_active_user_page m page s).1.tables q
        ≡ (((map_active_user_page m page s).0 && (q == page)) || is_mapped m s.tables q)
  unfolding map_active_user_page
  is_mapped-map_active_user_page page s q = elim (Option-cases (allocate_frame s.mem s.frames).0) [
    | inl e ↦ rw (e, map_active_user_page) refl
    | inr (frame, e) ↦
        rw (e, map_active_user_page)
          (is_mapped-settle page frame
            (m.map_to page frame (s.mem, (allocate_frame s.mem s.frames).1, s.tables)) q
            (is_mapped m s.tables q)
            (laws.is_mapped-map_to page frame s.mem (allocate_frame s.mem s.frames).1 s.tables q))
  ]

  pub is_mapped-unmap_active_user_page :
      (page : ℕ) (s : Mmu m) (q : ℕ)
      → is_mapped m (unmap_active_user_page m page s).tables q
        ≡ (not (q == page) && is_mapped m s.tables q)
  unfolding unmap_active_user_page
  is_mapped-unmap_active_user_page page s q = elim (Option-cases (m.unmap page s.tables).0) [
    | inl e ↦ rw (e, unmap_active_user_page) (laws.is_mapped-unmap page s.tables q)
    | inr (frame, e) ↦ rw (e, unmap_active_user_page) (laws.is_mapped-unmap page s.tables q)
  ]
