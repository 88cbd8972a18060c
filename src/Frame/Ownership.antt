-- ===== src/Frame/Ownership.antt =====
-- No frame of src/mm/frame.rs is handed out twice.
use ferros.Prelude.{
  ℕ, zero, suc, ◌+◌, ◌*◌, ◌≤◌, ◌<◌, ◌≡◌, ◌≢◌, refl, ◌∙◌, ap, inl, inr, Option, none, some, List, [],
  ◌∷◌, ◌++◌, arith,
}
use ferros.Prelude.{
  ◌==◌, if◌then◌else◌, Option-cases, take, drop, get_elem?, count, get_elem?-drop, count-append,
  count-take-suc, count-take-add, count-take-le,
}
use ferros.Frame.{
  Memory, MemoryRegion, FrameAllocator, frame_size, step_by, usable_frames, allocate_frame,
  deallocate_frame, allocate_contiguous,
}
use ferros.Frame.FreeList.{FreeChain, FreeChain-deallocate_frame}
use ferros.Frame.Contiguous.{allocate_contiguous-Consecutive}

-- The allocator, with the frames on its list and the frames that are handed out: each frame stands
-- there at most as often as it was cut from the map.
pub record Inv (mem : Memory) (a : FrameAllocator) (free out : List ℕ) : Type 0 where
  pub chain : FreeChain mem a.free_list free
  pub owned :
      (f : ℕ) → count f free + count f out ≤ count f (take a.next (usable_frames a.memory_map))

-- What the map must give: no frame twice, and not frame 0.
pub record IsSound (m : List MemoryRegion) : Type 0 where
  pub once : (f : ℕ) → count f (usable_frames m) ≤ 1
  pub not_zero : count 0 (usable_frames m) ≡ 0

-- The state after a request for one frame.
abbrev pub Granted : Memory → List ℕ → Option ℕ × FrameAllocator → Type 0
Granted mem out (none, a') = Inv mem a' [] out
Granted mem out (some f, a') =
    (free' : List ℕ) × Inv mem a' free' (f ∷ out)
    × (count f out ≡ 0)
    × (count f (usable_frames a'.memory_map) ≡ 1)

count-take-add_one :
    (f n : ℕ) (xs : List ℕ) {v : ℕ}
    → get_elem? xs n ≡ some v
    → count f (take (n + 1) xs) ≡ count f (take n xs) + (if v == f then 1 else 0)
count-take-add_one f n xs {v} h =
    let e : n + 1 ≡ suc n = omega arith in
    ap (λ k. count f (take k xs)) e ∙ count-take-suc f xs n {v = v} h

count-take-le_add : (f n m : ℕ) (xs : List ℕ) → count f (take n xs) ≤ count f (take (n + m) xs)
count-take-le_add f n m xs = omega (arith, count-take-add f n m xs)

module _ (mem : Memory) (a : FrameAllocator) (free out : List ℕ) (sound : IsSound a.memory_map)
    (v : Inv mem a free out) where
  allocate_frame-reuse :
      (x : ℕ) (xs : List ℕ) → free ≡ x ∷ xs → Granted mem out (allocate_frame mem a)
  unfolding allocate_frame
  allocate_frame-reuse x xs e =
      let (at_head, ne, rest) = rw e at v.chain in
      rw at_head (
        xs,
        record { chain = rest; owned = λ f. omega (arith, v.owned f, ap (count f) e) },
        omega (
          arith,
          v.owned x,
          ap (count x) e,
          sound.once x,
          count-take-le x a.next (usable_frames a.memory_map),
          ==_one x,
        ),
        omega (
          arith,
          v.owned x,
          ap (count x) e,
          sound.once x,
          count-take-le x a.next (usable_frames a.memory_map),
          ==_one x,
        ),
      )
    where
      ==_one : (n : ℕ) → ◌≡◌ {A = ℕ} (if n == n then 1 else 0) 1
      ==_one n = ground arith

  allocate_frame-cut : free ≡ [] → Granted mem out (allocate_frame mem a)
  unfolding allocate_frame
  allocate_frame-cut e =
      let ended : a.free_list ≡ none = rw e at v.chain in
      elim (Option-cases (get_elem? all a.next)) [
        | inl out_of_frames ↦
            rw (ended, out_of_frames)
              (record {
                chain = refl;
                owned =
                    λ f. omega (arith, v.owned f, ap (count f) e, count-take-le_add f a.next 1 all);
              })
        | inr (x, cut) ↦
            rw (ended, cut)
              (
                [],
                record {
                  chain = refl;
                  owned = λ f. omega (
                    arith,
                    v.owned f,
                    ap (count f) e,
                    count-take-add_one f a.next all {v = x} cut,
                  );
                },
                omega (
                  arith,
                  v.owned x,
                  sound.once x,
                  count-take-le x (a.next + 1) all,
                  count-take-add_one x a.next all {v = x} cut,
                  ==_one x,
                ),
                omega (
                  arith,
                  sound.once x,
                  count-take-le x (a.next + 1) all,
                  count-take-add_one x a.next all {v = x} cut,
                  ==_one x,
                ),
              )
      ]
    where
      all : List ℕ
      all = usable_frames a.memory_map

      ==_one : (n : ℕ) → ◌≡◌ {A = ℕ} (if n == n then 1 else 0) 1
      ==_one n = ground arith

-- The map gives no frame twice and not frame 0, and each frame is listed or held at most as often
-- as it was cut. Then a frame that `allocate_frame` grants is a frame of the map that nobody
-- holds, and afterwards it is held once; without a frame to grant nobody's frames change.
pub allocate_frame-Granted :
    (mem : Memory) (a : FrameAllocator) (free out : List ℕ)
    → IsSound a.memory_map
    → Inv mem a free out
    → Granted mem out (allocate_frame mem a)
allocate_frame-Granted mem a [] out sound v = allocate_frame-cut mem a [] out sound v refl
allocate_frame-Granted mem a (x ∷ xs) out sound v =
    allocate_frame-reuse mem a (x ∷ xs) out sound v x xs refl

-- The map gives no frame twice and not frame 0, and each frame is listed or held at most as often
-- as it was cut. Then giving back a frame that is held leaves the others held, and the frame on
-- the list.
pub deallocate_frame-Inv :
    (mem : Memory) (a : FrameAllocator) (free out : List ℕ) (f : ℕ)
    → IsSound a.memory_map
    → Inv mem a free (f ∷ out)
    → let (mem', a') = deallocate_frame mem a f in Inv mem' a' (f ∷ free) out
unfolding deallocate_frame
deallocate_frame-Inv mem a free out f sound v = record {
  chain = unfold deallocate_frame in FreeChain-deallocate_frame mem a free f not_zero fresh v.chain;
  owned = λ g. omega (arith, v.owned g);
}
  where
    all : List ℕ
    all = usable_frames a.memory_map

    ==_one : (n : ℕ) → ◌≡◌ {A = ℕ} (if n == n then 1 else 0) 1
    ==_one n = ground arith

    fresh : count f free ≡ 0
    fresh = omega (arith, v.owned f, sound.once f, count-take-le f a.next all, ==_one f)

    not_zero : f ≢ 0
    not_zero e = omega (
      arith,
      v.owned f,
      ==_one f,
      count-take-le f a.next all,
      ap (λ k. count k all) e,
      sound.not_zero,
    )

step_by-Consecutive :
    (n s : ℕ) (xs : List ℕ)
    → ((k : ℕ) → k < n → get_elem? xs k ≡ some (s + k * frame_size))
    → take n xs ≡ step_by n s
step_by-Consecutive zero s xs c = refl
step_by-Consecutive (suc n) s [] c = absurd (ground (arith, c 0 (omega arith)))
step_by-Consecutive (suc n) s (x ∷ xs) c =
    let first : x ≡ s = ground (arith, c 0 (omega arith)) in
    let rest : take n xs ≡ step_by n (s + frame_size) =
      step_by-Consecutive n (s + frame_size) xs
        (λ k h. c (suc k) (omega arith) ∙ ap some {x = s + suc k * frame_size} (omega arith)) in
    cc (first, rest)

-- Each frame is listed or held at most as often as it was cut. This stays so when the frames of a
-- granted run are added to those that are held, with the list as it was.
pub allocate_contiguous-Inv :
    (mem : Memory) (a : FrameAllocator) (free out : List ℕ) (n s : ℕ) (a' : FrameAllocator)
    → Inv mem a free out
    → allocate_contiguous a n ≡ (some s, a')
    → Inv mem a' free (step_by n s ++ out)
allocate_contiguous-Inv mem a free out n s a' v e =
    let (o, c, moved) = allocate_contiguous-Consecutive a n s a' e in
    let here : take n (drop (a.next + o) all) ≡ step_by n s =
      step_by-Consecutive n s (drop (a.next + o) all)
        (λ k h. get_elem?-drop all (a.next + o) k ∙ c k h) in
    rw moved (record {
      chain = v.chain;
      owned = λ f. omega (
        arith,
        v.owned f,
        count-append f (step_by n s) out,
        ap (count f) here,
        count-take-add f (a.next + o) n all,
        count-take-le_add f a.next o all,
        ap (λ k. count f (take k all)) (regroup o),
      );
    })
  where
    all : List ℕ
    all = usable_frames a.memory_map

    regroup : (o : ℕ) → a.next + (o + n) ≡ a.next + o + n
    regroup o = omega arith
