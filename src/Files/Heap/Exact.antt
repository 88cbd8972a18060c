-- ===== src/Files/Heap/Exact.antt =====
-- src/syscall/files.rs: `brk` and the pages of the heap.
use ferros.Prelude.{
  ℕ, ◌+◌, ◌-◌, ◌*◌, ◌/◌, ◌≤◌, ◌≡◌, refl, Bool, true, false, ◌&&◌, ◌||◌, not, ◌⊎◌, inl, inr, arith,
}
use ferros.Prelude.{leb, ltb, ◌==◌, Bool-cases}
use ferros.Paging.{Mapper, Mmu}
use ferros.Paging.Laws.{Laws, is_mapped}
use ferros.Files.Kernel.{ProcState, user_heap_base}
use ferros.Files.Heap.{
  user_heap_max, page_up, pages_between, unmap_pages, map_pages, out_of_heap, grown, sys_brk,
}
use ferros.Files.Heap.Pages.{among, is_mapped-unmap_pages, is_mapped-map_pages}

-- Whether the page with this number belongs to the heap.
abbrev pub in_heap : ℕ → Bool
in_heap q = leb user_heap_base (q * 4096) && ltb (q * 4096) user_heap_max

-- The pages of the heap that are mapped are those that begin below the break.
abbrev pub IsExact : (m : Mapper) → ProcState → Mmu m → Type 0
IsExact m p s =
    (user_heap_base ≤ p.brk)
    × (p.brk ≤ user_heap_max)
    × ((q : ℕ)
        → (in_heap q && is_mapped m s.tables (q * 4096))
          ≡ (leb user_heap_base (q * 4096) && ltb (q * 4096) p.brk))

abbrev pub up : ℕ → ℕ
up x = (x + 4095) / 4096

-- What a call of `brk` comes to: the answer is the new break, which is the old one or the address
-- asked for; it is the address if that lies in the heap and not above the old break, and the old
-- break if it lies outside of the heap.
abbrev pub Answers : ℕ → ProcState → ℕ × ProcState → Type 0
Answers addr p (r, p') =
    (r ≡ p'.brk)
    × ((p'.brk ≡ addr) ⊎ (p'.brk ≡ p.brk))
    × ((out_of_heap addr && not (r == p.brk)) ≡ false)
    × ((not (out_of_heap addr) && (leb addr p.brk && not (r == addr))) ≡ false)

module _ (m : Mapper) (laws : Laws m) where
  -- What the growth leaves, whichever way the loop ends.
  grown-IsExact :
      (addr : ℕ) (p : ProcState) (s : Mmu m) (r : Bool × Mmu m)
      → IsExact m p s
      → user_heap_base ≤ addr
      → addr ≤ user_heap_max
      → p.brk ≤ addr
      → ((q : ℕ)
          → is_mapped m r.1.tables (q * 4096) ≡ (
              (r.0 && among (up p.brk) (0 + (up addr - up p.brk)) q)
              || is_mapped m s.tables (q * 4096)))
      → IsExact m (grown m addr p r).1 (grown m addr p r).2
  grown-IsExact addr p s (true, s') (lo, hi, exact) h1 h2 h3 pages =
      (h1, h2, λ q. ground (arith, pages q, exact q))
  grown-IsExact addr p s (false, s') (lo, hi, exact) h1 h2 h3 pages =
      (lo, hi, λ q. ground (arith, pages q, exact q))

  pages-map_pages :
      (addr : ℕ) (p : ProcState) (s : Mmu m)
      → IsExact m p s
      → addr ≤ user_heap_max
      → (q : ℕ)
      → is_mapped m (map_pages m (up addr - up p.brk) 0 (up p.brk * 4096) s).1.tables (q * 4096) ≡ (
          ((map_pages m (up addr - up p.brk) 0 (up p.brk * 4096) s).0
            && among (up p.brk) (0 + (up addr - up p.brk)) q)
          || is_mapped m s.tables (q * 4096))
  pages-map_pages addr p s (lo, hi, exact) h q =
      is_mapped-map_pages m laws (up addr - up p.brk) 0 (up p.brk) s
        (is_mapped m s.tables (q * 4096)) q (ground arith) (ground (arith, exact q))

  shrunk-IsExact :
      (addr : ℕ) (p : ProcState) (s : Mmu m)
      → IsExact m p s
      → user_heap_base ≤ addr
      → addr ≤ p.brk
      → IsExact m (record p { brk = addr }) (unmap_pages m (up p.brk - up addr) (up addr * 4096) s)
  shrunk-IsExact addr p s (lo, hi, exact) h1 h2 = (
    h1,
    omega arith,
    λ q. ground (arith, exact q, is_mapped-unmap_pages m laws (up p.brk - up addr) (up addr) s q),
  )

  grown-Answers :
      (addr : ℕ) (p : ProcState) (r : Bool × Mmu m)
      → out_of_heap addr ≡ false
      → ltb p.brk addr ≡ true
      → Answers addr p ((grown m addr p r).0, (grown m addr p r).1)
  grown-Answers addr p (true, s) e f = (refl, inl refl, ground arith, ground arith)
  grown-Answers addr p (false, s) e f = (refl, inr refl, ground arith, ground arith)

  -- If the break lies in the heap, and of the pages of the heap those are mapped that begin below the
  -- break, then this is so after `sys_brk` too, whatever the address is, and whether or not there are
  -- frames for all the pages; the call answers the new break, which is the address or the old break:
  -- the address if it lies in the heap and not above the old break, the old break if it lies outside.
  pub sys_brk-IsExact :
      (addr : ℕ) (p : ProcState) (s : Mmu m)
      → IsExact m p s
      → IsExact m (sys_brk m addr p s).1 (sys_brk m addr p s).2
        × Answers addr p ((sys_brk m addr p s).0, (sys_brk m addr p s).1)
  unfolding sys_brk
  sys_brk-IsExact addr p s (lo, hi, exact) =
      let rounds : pages_between (page_up p.brk) (page_up addr) ≡ up addr - up p.brk =
        omega arith in
      let back : pages_between (page_up addr) (page_up p.brk) ≡ up p.brk - up addr = omega arith in
      elim (Bool-cases (out_of_heap addr)) [
        | inl e ↦ rw (e, sys_brk) ((lo, hi, exact), (refl, inr refl, ground arith, ground arith))
        | inr e ↦ elim (Bool-cases (ltb p.brk addr)) [
          | inl f ↦
              let r = map_pages m (up addr - up p.brk) 0 (up p.brk * 4096) s in
              let eq : sys_brk m addr p s ≡ grown m addr p r = rw (e, f, rounds, sys_brk) refl in
              rw (eq) (
                grown-IsExact addr p s r (lo, hi, exact) (ground arith) (ground arith)
                    (ground arith) (pages-map_pages addr p s (lo, hi, exact) (ground arith)),
                grown-Answers addr p r e f,
              )
          | inr f ↦
              rw (e, f, back, sys_brk)
                (
                  shrunk-IsExact addr p s (lo, hi, exact) (ground arith) (ground arith),
                  (refl, inl refl, ground arith, ground arith),
                )
        ]
      ]
