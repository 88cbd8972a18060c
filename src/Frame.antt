-- ===== src/Frame.antt =====
-- src/mm/frame.rs: the allocator of physical frames. A cursor hands out the frames of the memory
-- map in order; a freed frame goes on a list whose links stand in the freed frames themselves.
-- Physical memory is a function from the address of a frame to its first word (`link_word`).
pub mod Map
pub mod FreeList
pub mod Contiguous
pub mod Ownership
pub mod Life
mod Tests
use ferros.Prelude.{
  ℕ, zero, suc, ◌+◌, ◌-◌, ◌*◌, ◌/◌, ◌≢◌, Bool, false, Option, none, some, List, [], ◌∷◌, ◌++◌,
}
use ferros.Prelude.{if◌then◌else◌, ◌==◌, get_elem?, drop}

-- A region of the boot loader's map: `range.start_addr()`, `range.end_addr()`, and whether
-- `region_type` is `Usable`.
pub record MemoryRegion : Type 0 where
  pub start_addr : ℕ
  pub end_addr : ℕ
  pub usable : Bool

abbrev pub frame_size : ℕ
frame_size = 4096

-- Physical memory: the first word of the frame at an address.
abbrev pub Memory : Type 0
Memory = ℕ → ℕ

abbrev pub free_list_end : ℕ
free_list_end = 0

pub record FrameAllocator : Type 0 where
  pub memory_map : List MemoryRegion
  pub next : ℕ
  pub free_list : Option ℕ

unfoldable pub init : List MemoryRegion → FrameAllocator
init memory_map = record { memory_map = memory_map; next = 0; free_list = none }

-- `n` addresses from `addr` on, a frame apart: `(start..end).step_by(4096)`.
abbrev pub step_by : ℕ → ℕ → List ℕ
step_by zero addr = []
step_by (suc n) addr = addr ∷ step_by n (addr + frame_size)

-- The frames of one region; `containing_address` rounds down.
abbrev pub region_frames : MemoryRegion → List ℕ
region_frames r =
    if r.usable
    then step_by ((r.end_addr - r.start_addr + 4095) / frame_size)
        (r.start_addr / frame_size * frame_size)
    else []

unfoldable pub usable_frames : List MemoryRegion → List ℕ
usable_frames [] = []
usable_frames (r ∷ rs) = region_frames r ++ usable_frames rs

-- `(next != FREE_LIST_END).then(|| PhysAddr::new(next))`
abbrev pub link : ℕ → Option ℕ
link next = if next == free_list_end then none else some next

-- The walk along the links, on fuel: `none` if the fuel runs out.
pub free_list_len_loop : ℕ → Memory → Option ℕ → ℕ → Option ℕ
free_list_len_loop fuel mem none len = some len
free_list_len_loop zero mem (some addr) len = none
free_list_len_loop (suc fuel) mem (some addr) len =
    free_list_len_loop fuel mem (link (mem addr)) (len + 1)

pub free_list_len : ℕ → Memory → FrameAllocator → Option ℕ
unfolding free_list_len_loop
free_list_len fuel mem a = free_list_len_loop fuel mem a.free_list 0

unfoldable pub allocate_frame : Memory → FrameAllocator → Option ℕ × FrameAllocator
allocate_frame mem a = elim a.free_list [
  | some head ↦ (some head, record a { free_list = link (mem head) })
  | none ↦ (get_elem? (usable_frames a.memory_map) a.next, record a { next = a.next + 1 })
]

abbrev pub write_link : Memory → ℕ → ℕ → Memory
write_link mem addr value q = if addr == q then value else mem q

abbrev pub head_link : Option ℕ → ℕ
head_link none = free_list_end
head_link (some p) = p

-- What `debug_assert_ne!` asks of a frame that is freed. A build with debug assertions panics
-- where it fails, so it is a hypothesis on each call.
abbrev pub MayBeFreed : ℕ → Type 0
MayBeFreed addr = addr ≢ free_list_end

-- The call on a frame that passes the assertion.
unfoldable pub deallocate_frame : Memory → FrameAllocator → ℕ → Memory × FrameAllocator
deallocate_frame mem a addr =
    (write_link mem addr (head_link a.free_list), record a { free_list = some addr })

-- The variables of the loop of `allocate_contiguous`.
pub record Run : Type 0 where
  pub start : Option ℕ
  pub offset : ℕ
  pub len : ℕ
  pub prev : Option ℕ

abbrev pub follows : Option ℕ → ℕ → Bool
follows none frame = false
follows (some p) frame = frame == p + frame_size

-- One round: the run that the frame at `offset` extends or begins.
pub extend : ℕ → ℕ → Run → Run
extend offset frame r =
    if follows r.prev frame
    then record r { len = r.len + 1; prev = some frame }
    else record { start = some frame; offset = offset; len = 1; prev = some frame }

-- `none` if no run of `count` frames is found; else the run.
pub find_run : ℕ → List ℕ → ℕ → Run → Option Run
unfolding extend
find_run count [] offset r = none
find_run count (frame ∷ rest) offset r =
    let r' = extend offset frame r in
    let more = find_run count rest (offset + 1) r' in if r'.len == count then some r' else more

abbrev pub no_run : Run
no_run = record { start = none; offset = 0; len = 0; prev = none }

pub allocate_contiguous : FrameAllocator → ℕ → Option ℕ × FrameAllocator
unfolding find_run
allocate_contiguous a count =
    if count == 0
    then (none, a)
    else elim (find_run count (drop a.next (usable_frames a.memory_map)) 0 no_run) [
      | none ↦ (none, a)
      | some r ↦ (r.start, record a { next = a.next + (r.offset + count) })
    ]
