-- ===== src/Frame/Tests.antt =====
-- Runs of the frame allocator, and the theorems on a small memory map.
use ferros.Prelude.{ℕ, ◌+◌, ◌≡◌, refl, none, some, List, [], ◌∷◌, true, false, arith}
use ferros.Prelude.{◌≤◌, if◌then◌else◌, ◌==◌, count}
use ferros.Frame.{
  Memory, MemoryRegion, FrameAllocator, init, usable_frames, free_list_len, allocate_frame,
  deallocate_frame, allocate_contiguous,
}
use ferros.Frame.Map.{count-usable_frames}
use ferros.Frame.FreeList.{allocate_frame-deallocate_frame, free_list_len-length}
use ferros.Frame.Contiguous.{Consecutive, allocate_contiguous-Consecutive}
use ferros.Frame.Ownership.{
  Inv, IsSound, Granted, allocate_frame-Granted, deallocate_frame-Inv, allocate_contiguous-Inv,
}
use ferros.Frame.Life.{Reach, grant, here, next, Reach-unique}

-- Two usable regions with a reserved one between them: the frames 0x1000, 0x2000 and 0x5000.
abbrev small_map : List MemoryRegion
small_map =
    record { start_addr = 4096; end_addr = 12288; usable = true }
    ∷ record { start_addr = 12288; end_addr = 20480; usable = false }
    ∷ record { start_addr = 20480; end_addr = 24576; usable = true }
    ∷ []

abbrev blank : Memory
blank addr = 0

abbrev fresh : FrameAllocator
fresh = record { memory_map = small_map; next = 0; free_list = none }

-- One frame has been cut and is handed out.
abbrev started : FrameAllocator
started = record { memory_map = small_map; next = 1; free_list = none }

three_frames : usable_frames small_map ≡ 4096 ∷ 8192 ∷ 20480 ∷ []
unfolding usable_frames
three_frames = refl

two_in_a_row : allocate_contiguous fresh 2 ≡ (some 4096, record fresh { next = 2 })
unfolding allocate_contiguous usable_frames
two_in_a_row = refl

three_in_a_row : allocate_contiguous fresh 3 ≡ (none, fresh)
unfolding allocate_contiguous usable_frames
three_in_a_row = refl

small_map-IsSound : IsSound small_map
unfolding usable_frames
small_map-IsSound = record { once = λ f. ground arith; not_zero = refl }

fresh-Inv : Inv blank fresh [] []
fresh-Inv = record { chain = refl; owned = λ f. omega arith }

started-Inv : Inv blank started [] (4096 ∷ [])
unfolding usable_frames
started-Inv = record { chain = refl; owned = λ f. ground arith }

count-usable_frames_example : count 8192 (usable_frames small_map) ≡ 1
count-usable_frames_example = count-usable_frames 8192 0 small_map (
  omega arith,
  omega arith,
  refl,
  refl,
  (omega arith, omega arith, refl, refl, (omega arith, omega arith, refl, refl, tt)),
)

allocate_frame-deallocate_frame_example :
    let (mem', a') = deallocate_frame blank started 4096 in
    allocate_frame mem' a' ≡ (some 4096, started)
allocate_frame-deallocate_frame_example =
    allocate_frame-deallocate_frame blank started [] 4096 (λ e. absurd (omega (arith, e))) refl

-- A list of two frames, 0x2000 in front of 0x1000.
abbrev linked : Memory
linked addr = if addr == 8192 then 4096 else 0

abbrev two_free : FrameAllocator
two_free = record { memory_map = small_map; next = 2; free_list = some 8192 }

free_list_len-length_example : free_list_len 2 linked two_free ≡ some 2
free_list_len-length_example =
    free_list_len-length 2 linked two_free (8192 ∷ 4096 ∷ [])
      (refl, λ e. absurd (omega (arith, e)), (refl, λ e. absurd (omega (arith, e)), refl))
      (omega arith)

allocate_contiguous-Consecutive_example :
    (o : ℕ) × Consecutive (usable_frames small_map) (0 + o) 2 4096
    × (record fresh { next = 2 } ≡ record fresh { next = 0 + (o + 2) })
allocate_contiguous-Consecutive_example =
    allocate_contiguous-Consecutive fresh 2 4096 (record fresh { next = 2 }) two_in_a_row

allocate_frame-Granted_example : Granted blank [] (allocate_frame blank fresh)
allocate_frame-Granted_example =
    allocate_frame-Granted blank fresh [] [] small_map-IsSound fresh-Inv

deallocate_frame-Inv_example :
    let (mem', a') = deallocate_frame blank started 4096 in Inv mem' a' (4096 ∷ []) []
deallocate_frame-Inv_example =
    deallocate_frame-Inv blank started [] [] 4096 small_map-IsSound started-Inv

allocate_contiguous-Inv_example : Inv blank (record fresh { next = 2 }) [] (4096 ∷ 8192 ∷ [])
allocate_contiguous-Inv_example =
    allocate_contiguous-Inv blank fresh [] [] 2 4096 (record fresh { next = 2 }) fresh-Inv
      two_in_a_row

first_grant : allocate_frame blank fresh ≡ (some 4096, started)
unfolding allocate_frame usable_frames
first_grant = refl

one_grant :
    Reach
      (record { mem = blank; alloc = init small_map; out = [] })
      (record { mem = blank; alloc = started; out = 4096 ∷ [] })
unfolding init
one_grant = next here (grant 4096 started first_grant)

Reach-unique_example :
    (count 4096 (4096 ∷ []) ≤ 1) × (count 4096 (4096 ∷ []) ≤ count 4096 (usable_frames small_map))
Reach-unique_example = Reach-unique small_map blank small_map-IsSound one_grant 4096
