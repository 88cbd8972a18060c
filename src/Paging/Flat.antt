-- ===== src/Paging/Flat.antt =====
-- A page table that is a function from pages to frames: the laws that src/mm/paging.rs relies on can
-- hold.
use ferros.Prelude.{
  ℕ, ◌≡◌, refl, Bool, true, false, ◌&&◌, ◌||◌, Option, none, some, inl, inr, arith,
}
use ferros.Prelude.{if◌then◌else◌, ◌==◌, Option-cases}
use ferros.Frame.{Memory, FrameAllocator}
use ferros.Sched.Table.{is_some}
use ferros.Paging.{Mapper}
use ferros.Paging.Laws.{Laws}

abbrev pub Flat : Type 0
Flat = ℕ → Option ℕ

abbrev pub put : ℕ → Option ℕ → Flat → Flat
put page o t q = if q == page then o else t q

abbrev pub map_flat : ℕ → ℕ → Memory × FrameAllocator × Flat → Bool × Memory × FrameAllocator × Flat
map_flat page frame (mem, frames, t) =
    if is_some (t page)
    then (false, mem, frames, t)
    else (true, mem, frames, put page (some frame) t)

abbrev pub flat : Mapper
flat = record {
  Tables = Flat;
  translate_page = λ t q. t q;
  map_to = map_flat;
  unmap = λ page t. (t page, put page none t);
  clear = λ page t. t;
}

flat_map :
    (page frame : ℕ) (mem : Memory) (frames : FrameAllocator) (t : Flat) (q : ℕ)
    → is_some ((map_flat page frame (mem, frames, t)).3 q)
      ≡ (((map_flat page frame (mem, frames, t)).0 && (q == page)) || is_some (t q))
flat_map page frame mem frames t q = elim (Option-cases (t page)) [
  | inl e ↦ rw (e, map_flat) (ground arith)
  | inr (old, e) ↦ rw (e, map_flat) refl
]

pub flat_laws : Laws flat
flat_laws = record {
  is_mapped-map_to = flat_map;
  is_mapped-unmap = λ page t q. ground arith;
  is_mapped-clear = λ page t q. refl;
}
