-- ===== src/Paging.antt =====
-- src/mm/paging.rs: pages of the running process that come and go. The page table of the x86_64
-- crate is a parameter: what it maps, and the two changes that the code asks of it.
pub mod Laws
pub mod Flat
use ferros.Prelude.{ℕ, Bool, true, false, Option, none, some, ◌≡◌}
use ferros.Frame.{Memory, FrameAllocator, allocate_frame, deallocate_frame}

-- A page is named by its first address. `map_to` may take frames for the tables between; `unmap`
-- gives the frame that the page had; `clear` writes zeros through the page.
pub record Mapper : Type 1 where
  pub Tables : Type 0
  pub translate_page : Tables → ℕ → Option ℕ
  pub map_to : ℕ → ℕ → Memory × FrameAllocator × Tables → Bool × Memory × FrameAllocator × Tables
  pub unmap : ℕ → Tables → Option ℕ × Tables
  pub clear : ℕ → Tables → Tables

-- What the code changes: physical memory, the global allocator and the active table.
pub record Mmu (m : Mapper) : Type 0 where
  pub mem : Memory
  pub frames : FrameAllocator
  pub tables : m.Tables

module _ (m : Mapper) where
  abbrev pub mmu : Memory × FrameAllocator × m.Tables → Mmu m
  mmu (mem, frames, tables) = record { mem = mem; frames = frames; tables = tables }

  -- A frame goes back to the allocator.
  abbrev pub give_back : ℕ → Mmu m → Mmu m
  give_back frame s =
      let (mem, frames) = deallocate_frame s.mem s.frames frame in
      record s { mem = mem; frames = frames }

  -- The arms of the match on `map_to`.
  abbrev pub settle : ℕ → ℕ → Bool × Memory × FrameAllocator × m.Tables → Bool × Mmu m
  settle page frame (true, mem, frames, tables) = (true, mmu (mem, frames, m.clear page tables))
  settle page frame (false, mem, frames, tables) =
      (false, give_back frame (mmu (mem, frames, tables)))

  -- `result.expect(...)`
  abbrev pub mapped_user : Bool × Memory × FrameAllocator × m.Tables → Option (Mmu m)
  mapped_user (true, mem, frames, tables) = some (mmu (mem, frames, tables))
  mapped_user (false, mem, frames, tables) = none

  unfoldable pub map_active_user_page : ℕ → Mmu m → Bool × Mmu m
  map_active_user_page page s =
      let (o, frames) = allocate_frame s.mem s.frames in
      elim o [
        | none ↦ (false, record s { frames = frames })
        | some frame ↦ settle page frame (m.map_to page frame (s.mem, frames, s.tables))
      ]

  unfoldable pub unmap_active_user_page : ℕ → Mmu m → Mmu m
  unmap_active_user_page page s =
      let (o, tables) = m.unmap page s.tables in
      elim o [
        | none ↦ record s { tables = tables }
        | some frame ↦ give_back frame (record s { tables = tables })
      ]

  -- `none` is a panic: no frame is left, or the page is mapped.
  unfoldable pub map_user_page : ℕ → Mmu m → Option (Mmu m)
  map_user_page page s =
      let (o, frames) = allocate_frame s.mem s.frames in
      elim o [
        | none ↦ none
        | some frame ↦ mapped_user (m.map_to page frame (s.mem, frames, s.tables))
      ]
