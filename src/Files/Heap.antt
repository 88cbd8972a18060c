-- ===== src/Files/Heap.antt =====
-- src/syscall/files.rs: `brk`, the end of the heap of a process.
pub mod Pages
pub mod Exact
mod Tests
use ferros.Prelude.{ℕ, zero, suc, ◌+◌, ◌-◌, ◌*◌, ◌/◌, Bool, true, false, ◌||◌}
use ferros.Prelude.{if◌then◌else◌, ltb}
use ferros.Paging.{Mapper, Mmu, map_active_user_page, unmap_active_user_page}
use ferros.Files.Kernel.{ProcState, user_heap_base}

abbrev pub user_heap_max : ℕ
user_heap_max = 0x7F80_6000_0000

-- `(x + 0xFFF) & !0xFFF`
abbrev pub page_up : ℕ → ℕ
page_up x = (x + 4095) / 4096 * 4096

-- The rounds of a loop from `from` to below `to` in steps of a page, where both are whole pages.
abbrev pub pages_between : ℕ → ℕ → ℕ
pages_between from to = (to - from) / 4096

abbrev pub out_of_heap : ℕ → Bool
out_of_heap addr = ltb addr user_heap_base || ltb user_heap_max addr

module _ (m : Mapper) where
  unfoldable pub unmap_pages : ℕ → ℕ → Mmu m → Mmu m
  unmap_pages zero va s = s
  unmap_pages (suc left) va s = unmap_pages left (va + 4096) (unmap_active_user_page m va s)

  -- The loop of the growth, with `done` pages mapped before: a page that cannot be mapped takes
  -- those back.
  unfoldable pub map_pages : ℕ → ℕ → ℕ → Mmu m → Bool × Mmu m
  map_pages zero done from s = (true, s)
  map_pages (suc left) done from s =
      let (mapped, s') = map_active_user_page m (from + done * 4096) s in
      elim mapped [
        | true ↦ map_pages left (done + 1) from s'
        | false ↦ (false, unmap_pages done from s')
      ]

  abbrev pub grown : ℕ → ProcState → Bool × Mmu m → ℕ × ProcState × Mmu m
  grown addr p (true, s) = (addr, record p { brk = addr }, s)
  grown addr p (false, s) = (p.brk, p, s)

  unfoldable pub sys_brk : ℕ → ProcState → Mmu m → ℕ × ProcState × Mmu m
  sys_brk addr p s =
      let lo = page_up p.brk in
      let hi = page_up addr in
      if out_of_heap addr
      then (p.brk, p, s)
      else if ltb p.brk addr
      then grown addr p (map_pages (pages_between lo hi) 0 lo s)
      else (addr, record p { brk = addr }, unmap_pages (pages_between hi lo) hi s)
