-- ===== src/Frame/Map.antt =====
-- The frames that src/mm/frame.rs cuts from the memory map.
use ferros.Prelude.{
  ℕ, zero, suc, ◌+◌, ◌-◌, ◌*◌, ◌/◌, ◌%◌, ◌≤◌, ◌≡◌, Bool, true, false, ◌&&◌, ◌||◌, List, [], ◌∷◌,
  arith,
}
use ferros.Prelude.{if◌then◌else◌, leb, ltb, ◌==◌, count, count-append}
use ferros.Frame.{MemoryRegion, frame_size, step_by, region_frames, usable_frames}

-- The regions are whole frames and follow one another without overlap.
abbrev pub IsOrdered : ℕ → List MemoryRegion → Type 0
IsOrdered lo [] = Unit {0}
IsOrdered lo (r ∷ rs) =
    (lo ≤ r.start_addr)
    × (r.start_addr ≤ r.end_addr)
    × (r.start_addr % frame_size ≡ 0)
    × (r.end_addr % frame_size ≡ 0)
    × IsOrdered r.end_addr rs

-- Whether the address lies in a usable region.
abbrev pub in_usable : ℕ → List MemoryRegion → Bool
in_usable a [] = false
in_usable a (r ∷ rs) = (r.usable && (leb r.start_addr a && ltb a r.end_addr)) || in_usable a rs

abbrev indicator : Bool → ℕ
indicator b = if b then 1 else 0

count-step_by :
    (a n s : ℕ)
    → s % frame_size ≡ 0
    → count a (step_by n s)
      ≡ indicator ((a % frame_size == 0) && (leb s a && ltb a (s + n * frame_size)))
count-step_by a zero s h = ground arith
count-step_by a (suc n) s h = ground (arith, count-step_by a n (s + frame_size) (omega arith))

count-region :
    (a lo : ℕ) (r : MemoryRegion)
    → r.start_addr ≤ r.end_addr
    → r.start_addr % frame_size ≡ 0
    → r.end_addr % frame_size ≡ 0
    → count a (region_frames r)
      ≡ indicator ((a % frame_size == 0) && (r.usable && (leb r.start_addr a && ltb a r.end_addr)))
count-region a lo r h p q = ground (
  arith,
  count-step_by a ((r.end_addr - r.start_addr + 4095) / frame_size)
      (r.start_addr / frame_size * frame_size) (omega arith),
)

in_usable-ge : (a lo : ℕ) (m : List MemoryRegion) → IsOrdered lo m → in_usable a m ≡ true → lo ≤ a
in_usable-ge a lo [] o h = ground arith
in_usable-ge a lo (r ∷ rs) o h = ground (arith, in_usable-ge a r.end_addr rs o.4)

-- Over a map whose regions are whole frames without overlap, an address is cut exactly once if it
-- is the start of a frame in a usable region, and else never.
pub count-usable_frames :
    (a lo : ℕ) (m : List MemoryRegion)
    → IsOrdered lo m
    → count a (usable_frames m) ≡ (if (a % frame_size == 0) && in_usable a m then 1 else 0)
unfolding usable_frames
count-usable_frames a lo [] o = ground arith
count-usable_frames a lo (r ∷ rs) o = ground (
  arith,
  count-append a (region_frames r) (usable_frames rs),
  count-region a lo r o.1 o.2 o.3,
  count-usable_frames a r.end_addr rs o.4,
  in_usable-ge a r.end_addr rs o.4,
)
