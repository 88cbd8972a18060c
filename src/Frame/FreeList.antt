-- ===== src/Frame/FreeList.antt =====
-- The intrusive list of freed frames of src/mm/frame.rs.
use ferros.Prelude.{
  ℕ, zero, suc, ◌+◌, ◌≤◌, ◌≡◌, ◌≢◌, refl, Option, none, some, List, [], ◌∷◌, arith,
}
use ferros.Prelude.{length, count}
use ferros.Frame.{
  Memory, FrameAllocator, link, head_link, write_link, free_list_len_loop, free_list_len,
  allocate_frame, deallocate_frame, MayBeFreed,
}

-- The links from `o` lead through the frames `xs`, and end there.
abbrev pub FreeChain : Memory → Option ℕ → List ℕ → Type 0
FreeChain mem o [] = o ≡ none
FreeChain mem o (x ∷ xs) = (o ≡ some x) × (x ≢ 0) × FreeChain mem (link (mem x)) xs

-- A write into a frame that is not on the list leaves the list as it was.
pub FreeChain-write_link :
    (mem : Memory) (o : Option ℕ) (xs : List ℕ) (addr v : ℕ)
    → count addr xs ≡ 0
    → FreeChain mem o xs
    → FreeChain (write_link mem addr v) o xs
FreeChain-write_link mem o [] addr v h c = c
FreeChain-write_link mem o (x ∷ xs) addr v h c =
    let same : write_link mem addr v x ≡ mem x = ground arith in
    let rest : FreeChain (write_link mem addr v) (link (mem x)) xs =
      FreeChain-write_link mem (link (mem x)) xs addr v (ground arith) c.2 in
    (c.0, c.1, reach (mem x) (write_link mem addr v x) same rest)
  where
    reach :
        (a b : ℕ)
        → b ≡ a
        → FreeChain (write_link mem addr v) (link a) xs
        → FreeChain (write_link mem addr v) (link b) xs
    reach a b e k = rw e k

link-head_link :
    (mem : Memory) (o : Option ℕ) (xs : List ℕ) → FreeChain mem o xs → link (head_link o) ≡ o
link-head_link mem none xs c = refl
link-head_link mem (some p) [] c = absurd (ground arith)
link-head_link mem (some p) (x ∷ xs) c = ground (arith, c.0, c.1)

-- `deallocate_frame` puts the frame in front of the list, if it is not frame 0 and not listed.
pub FreeChain-deallocate_frame :
    (mem : Memory) (a : FrameAllocator) (xs : List ℕ) (f : ℕ)
    → MayBeFreed f
    → count f xs ≡ 0
    → FreeChain mem a.free_list xs
    → let (mem', a') = deallocate_frame mem a f in FreeChain mem' a'.free_list (f ∷ xs)
unfolding deallocate_frame
FreeChain-deallocate_frame mem a xs f ne fresh c =
    let here : write_link mem f (head_link a.free_list) f ≡ head_link a.free_list = ground arith in
    (
      refl,
      ne,
      rw (here, link-head_link mem a.free_list xs c)
          (FreeChain-write_link mem a.free_list xs f (head_link a.free_list) fresh c),
    )

-- If the links of the free list lead to an end, a frame that is freed, other than frame 0, is the
-- next one allocated, and the allocator is then as before.
pub allocate_frame-deallocate_frame :
    (mem : Memory) (a : FrameAllocator) (xs : List ℕ) (f : ℕ)
    → MayBeFreed f
    → FreeChain mem a.free_list xs
    → let (mem', a') = deallocate_frame mem a f in allocate_frame mem' a' ≡ (some f, a)
unfolding deallocate_frame allocate_frame
allocate_frame-deallocate_frame mem a xs f nz c =
    let here : write_link mem f (head_link a.free_list) f ≡ head_link a.free_list = ground arith in
    rw (here, link-head_link mem a.free_list xs c)

free_list_len_loop-length :
    (fuel : ℕ) (mem : Memory) (o : Option ℕ) (xs : List ℕ) (len : ℕ)
    → FreeChain mem o xs
    → length xs ≤ fuel
    → free_list_len_loop fuel mem o len ≡ some (len + length xs)
unfolding free_list_len_loop
free_list_len_loop-length fuel mem none [] len c h = ground arith
free_list_len_loop-length fuel mem (some p) [] len c h = absurd (ground arith)
free_list_len_loop-length fuel mem none (x ∷ xs) len c h = absurd (ground arith)
free_list_len_loop-length zero mem (some p) (x ∷ xs) len c h = absurd (omega arith)
free_list_len_loop-length (suc fuel) mem (some p) (x ∷ xs) len c h =
    let e : p ≡ x = ground arith in
    rw e (
      rw (free_list_len_loop-length fuel mem (link (mem x)) xs (len + 1) c.2 (omega arith))
        (ground arith))

-- On a list of `length xs` frames the walk ends and counts them, if it is given a round for each.
pub free_list_len-length :
    (fuel : ℕ) (mem : Memory) (a : FrameAllocator) (xs : List ℕ)
    → FreeChain mem a.free_list xs
    → length xs ≤ fuel
    → free_list_len fuel mem a ≡ some (length xs)
unfolding free_list_len
free_list_len-length fuel mem a xs c h =
    rw (free_list_len_loop-length fuel mem a.free_list xs 0 c h) (ground arith)
