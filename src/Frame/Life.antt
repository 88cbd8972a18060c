-- ===== src/Frame/Life.antt =====
-- Every sequence of calls of the allocator of src/mm/frame.rs, from a fresh one on.
use ferros.Prelude.{ℕ, ◌≤◌, ◌<◌, ◌≡◌, refl, sym, ◌∙◌, ap, none, some, List, [], ◌∷◌, ◌++◌, arith}
use ferros.Prelude.{count, count-take-le}
use ferros.Frame.{
  Memory, MemoryRegion, write_link, FrameAllocator, init, step_by, usable_frames, allocate_frame,
  deallocate_frame, allocate_contiguous,
}
use ferros.Frame.FreeList.{FreeChain-write_link}
use ferros.Frame.Ownership.{
  Inv, IsSound, Granted, allocate_frame-Granted, deallocate_frame-Inv, allocate_contiguous-Inv,
}

-- Memory, the allocator, and the frames that its clients hold.
pub record World : Type 0 where
  pub mem : Memory
  pub alloc : FrameAllocator
  pub out : List ℕ

-- A call, or a write of a client into the first word of a frame that it holds.
pub data Step (w : World) : World → Type 0 where
  grant :
      (f : ℕ) (a : FrameAllocator)
      → allocate_frame w.mem w.alloc ≡ (some f, a)
      → Step w (record { mem = w.mem; alloc = a; out = f ∷ w.out })
  refuse :
      (a : FrameAllocator)
      → allocate_frame w.mem w.alloc ≡ (none, a)
      → Step w (record w { alloc = a })
  release :
      (f : ℕ) (rest : List ℕ)
      → ((g : ℕ) → count g w.out ≡ count g (f ∷ rest))
      → Step w (record {
        mem = (deallocate_frame w.mem w.alloc f).0;
        alloc = (deallocate_frame w.mem w.alloc f).1;
        out = rest;
      })
  grant_run :
      (n s : ℕ) (a : FrameAllocator)
      → allocate_contiguous w.alloc n ≡ (some s, a)
      → Step w (record { mem = w.mem; alloc = a; out = step_by n s ++ w.out })
  scribble : (f v : ℕ) → 0 < count f w.out → Step w (record w { mem = write_link w.mem f v })

pub data Reach (w : World) : World → Type 0 where
  here : Reach w w
  next : {t u : World} → Reach w t → Step t u → Reach w u

abbrev IsOwned : List MemoryRegion → World → Type 0
IsOwned m w = (free : List ℕ) × (w.alloc.memory_map ≡ m) × Inv w.mem w.alloc free w.out

memory_map-allocate_frame :
    (mem : Memory) (a : FrameAllocator) → (allocate_frame mem a).1.memory_map ≡ a.memory_map
unfolding allocate_frame
memory_map-allocate_frame mem a = ground arith

memory_map-allocate_contiguous :
    (a : FrameAllocator) (n : ℕ) → (allocate_contiguous a n).1.memory_map ≡ a.memory_map
unfolding allocate_contiguous
memory_map-allocate_contiguous a n = ground arith

memory_map-deallocate_frame :
    (mem : Memory) (a : FrameAllocator) (f : ℕ)
    → (deallocate_frame mem a f).1.memory_map ≡ a.memory_map
unfolding deallocate_frame
memory_map-deallocate_frame mem a f = refl

Inv-same :
    (mem : Memory) (a : FrameAllocator) (free out out' : List ℕ)
    → ((g : ℕ) → count g out ≡ count g out')
    → Inv mem a free out
    → Inv mem a free out'
Inv-same mem a free out out' same v = record {
  chain = v.chain;
  owned = λ f. omega (arith, v.owned f, same f);
}

Step-IsOwned :
    {m : List MemoryRegion} {w w' : World} → IsSound m → IsOwned m w → Step w w' → IsOwned m w'
Step-IsOwned {m} {w} {w'} sound (free, same, v) (grant f a e) =
    let granted = allocate_frame-Granted w.mem w.alloc free w.out (rw same sound) v in
    let now : Granted w.mem w.out (some f, a) = rw e at granted in
    (
      now.0,
      sym (ap (λ r. r.1.memory_map) e) ∙ memory_map-allocate_frame w.mem w.alloc ∙ same,
      now.1,
    )
Step-IsOwned {m} {w} {w'} sound (free, same, v) (refuse a e) =
    let granted = allocate_frame-Granted w.mem w.alloc free w.out (rw same sound) v in
    let now : Granted w.mem w.out (none, a) = rw e at granted in
    ([], sym (ap (λ r. r.1.memory_map) e) ∙ memory_map-allocate_frame w.mem w.alloc ∙ same, now)
Step-IsOwned {m} {w} {w'} sound (free, same, v) (release f rest counted) = (
  f ∷ free,
  same_map,
  deallocate_frame-Inv w.mem w.alloc free rest f (rw same sound)
      (Inv-same w.mem w.alloc free w.out (f ∷ rest) counted v),
)
  where
    same_map : (deallocate_frame w.mem w.alloc f).1.memory_map ≡ m
    same_map = memory_map-deallocate_frame w.mem w.alloc f ∙ same
Step-IsOwned {m} {w} {w'} sound (free, same, v) (grant_run n s a e) = (
  free,
  sym (ap (λ r. r.1.memory_map) e) ∙ memory_map-allocate_contiguous w.alloc n ∙ same,
  allocate_contiguous-Inv w.mem w.alloc free w.out n s a v e,
)
Step-IsOwned {m} {w} {w'} sound (free, same, v) (scribble f x held) = (
  free,
  same,
  record {
    chain = FreeChain-write_link w.mem w.alloc.free_list free f x (not_listed same) v.chain;
    owned = v.owned;
  },
)
  where
    not_listed : w.alloc.memory_map ≡ m → count f free ≡ 0
    not_listed e = omega (
      arith,
      v.owned f,
      sound.once f,
      count-take-le f w.alloc.next (usable_frames w.alloc.memory_map),
      ap (λ k. count f (usable_frames k)) e,
    )

Reach-IsOwned :
    {m : List MemoryRegion} {w w' : World} → IsSound m → IsOwned m w → Reach w w' → IsOwned m w'
Reach-IsOwned sound o here = o
Reach-IsOwned sound o (next r st) = Step-IsOwned sound (Reach-IsOwned sound o r) st

-- The map gives no frame twice and not frame 0. Then from a fresh allocator on, after any sequence
-- of requests for a frame or a run, returns of frames that are held, and writes of clients into
-- frames that they hold, no frame is held twice and only frames of the map are held.
pub Reach-unique :
    (m : List MemoryRegion) (mem : Memory) {w : World}
    → IsSound m
    → Reach (record { mem = mem; alloc = init m; out = [] }) w
    → (f : ℕ) → (count f w.out ≤ 1) × (count f w.out ≤ count f (usable_frames m))
unfolding init
Reach-unique m mem {w} sound r f =
    let (free, same, v) = Reach-IsOwned sound start r in
    let counts : count f (usable_frames w.alloc.memory_map) ≡ count f (usable_frames m) =
      ap (λ k. count f (usable_frames k)) same in
    (
      omega (
        arith,
        v.owned f,
        sound.once f,
        counts,
        count-take-le f w.alloc.next (usable_frames w.alloc.memory_map),
      ),
      omega (
        arith,
        v.owned f,
        counts,
        count-take-le f w.alloc.next (usable_frames w.alloc.memory_map),
      ),
    )
  where
    start : IsOwned m (record { mem = mem; alloc = init m; out = [] })
    start = ([], refl, record { chain = refl; owned = λ g. omega arith })
