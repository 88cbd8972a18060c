-- ===== src/Files/Heap/Tests.antt =====
-- `brk` over a page table that is a function from pages to frames.
use ferros.Prelude.{◌+◌, ◌≡◌, refl, true, none, [], ◌∷◌, arith}
use ferros.Frame.{usable_frames, Memory, FrameAllocator, allocate_frame, deallocate_frame}
use ferros.Frame
use ferros.Paging.{Mmu, map_active_user_page, unmap_active_user_page}
use ferros.Paging.Flat.{flat, flat_laws}
use ferros.Files.Kernel.{user_heap_base, fresh_proc}
use ferros.Files.Heap.{map_pages, unmap_pages, sys_brk}
use ferros.Files.Heap.Exact.{IsExact, Answers, sys_brk-IsExact}

-- Two frames, and a table that maps no page.
abbrev two_frames : Mmu flat
two_frames = record {
  mem = λ a. 0;
  frames = Frame.init (record { start_addr = 4096; end_addr = 12288; usable = true } ∷ []);
  tables = λ q. none;
}

fresh-IsExact : IsExact flat fresh_proc two_frames
fresh-IsExact = (omega arith, omega arith, λ q. ground arith)

-- 5000 bytes want two pages, and 9000 more do not fit.
grows : (sys_brk flat (user_heap_base + 5000) fresh_proc two_frames).0 ≡ user_heap_base + 5000
unfolding sys_brk map_pages unmap_pages map_active_user_page unmap_active_user_page allocate_frame
    deallocate_frame Frame.init usable_frames
grows = refl

falls_back : (sys_brk flat (user_heap_base + 9000) fresh_proc two_frames).0 ≡ user_heap_base
unfolding sys_brk map_pages unmap_pages map_active_user_page unmap_active_user_page allocate_frame
    deallocate_frame Frame.init usable_frames
falls_back = refl

sys_brk-IsExact_example :
    IsExact flat
      (sys_brk flat (user_heap_base + 5000) fresh_proc two_frames).1
      (sys_brk flat (user_heap_base + 5000) fresh_proc two_frames).2
    × Answers (user_heap_base + 5000) fresh_proc (
      (sys_brk flat (user_heap_base + 5000) fresh_proc two_frames).0,
      (sys_brk flat (user_heap_base + 5000) fresh_proc two_frames).1,
    )
sys_brk-IsExact_example =
    sys_brk-IsExact flat flat_laws (user_heap_base + 5000) fresh_proc two_frames fresh-IsExact
