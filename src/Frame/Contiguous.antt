-- ===== src/Frame/Contiguous.antt =====
-- `allocate_contiguous` of src/mm/frame.rs: the search for a run of neighbouring frames.
use ferros.Prelude.{
  ℕ, suc, ◌+◌, ◌-◌, ◌*◌, ◌<◌, ◌≡◌, refl, sym, ◌∙◌, ap, ◌⊎◌, inl, inr, none, some, true, List, [],
  ◌∷◌, arith,
}
use ferros.Prelude.{◌==◌, Bool-cases, Option-cases, get_elem?-drop, get_elem?, drop}
use native.Mathlib.Decide.{dec_lt}
use ferros.Frame.{
  FrameAllocator, frame_size, usable_frames, follows, Run, no_run, extend, find_run,
  allocate_contiguous,
}

-- From `base` on the list holds `n` frames, each right behind the one before.
abbrev pub Consecutive : List ℕ → ℕ → ℕ → ℕ → Type 0
Consecutive xs base n s = (k : ℕ) → k < n → get_elem? xs (base + k) ≡ some (s + k * frame_size)

-- What the loop knows before the frame at `offset`.
abbrev Started : List ℕ → ℕ → Run → Type 0
Started all offset r =
    (s : ℕ) × (r.start ≡ some s)
    × (0 < r.len)
    × (r.offset + r.len ≡ offset)
    × (r.prev ≡ some (s + (r.len - 1) * frame_size))
    × Consecutive all r.offset r.len s

abbrev IsRun : List ℕ → ℕ → Run → Type 0
IsRun all offset r = (r.prev ≡ none) ⊎ Started all offset r

Consecutive-one :
    (all : List ℕ) (offset frame : ℕ)
    → get_elem? all offset ≡ some frame
    → Consecutive all offset 1 frame
Consecutive-one all offset frame here k h =
    ap (get_elem? all) (omega arith) ∙ here ∙ ap some (omega arith)

Consecutive-suc :
    (all : List ℕ) (base n s frame : ℕ)
    → get_elem? all (base + n) ≡ some frame
    → frame ≡ s + n * frame_size
    → Consecutive all base n s
    → Consecutive all base (n + 1) s
Consecutive-suc all base n s frame here e c k h = elim (dec_lt k n) [
  | yes p ↦ c k p
  | no p ↦
      let last : k ≡ n = omega arith in
      ap (λ j. get_elem? all (base + j)) last ∙ here ∙ ap some (omega arith)
]

extend-Started :
    (all : List ℕ) (offset frame : ℕ) (r : Run)
    → get_elem? all offset ≡ some frame
    → IsRun all offset r
    → Started all (offset + 1) (extend offset frame r)
unfolding extend
extend-Started all offset frame r here i = elim (Bool-cases (follows r.prev frame)) [
  | inl joined ↦ elim i [
    | inl fresh ↦ absurd (ground arith)
    | inr (s, begun, pos, place, last, c) ↦
        let at_end : get_elem? all (r.offset + r.len) ≡ some frame =
          ap (get_elem? all) place ∙ here in
        let next : frame ≡ s + r.len * frame_size = ground arith in
        rw joined (
          s,
          begun,
          omega arith,
          omega arith,
          ap some (omega arith),
          Consecutive-suc all r.offset r.len s frame at_end next c,
        )
  ]
  | inr apart ↦
      rw apart (
        frame,
        refl,
        omega arith,
        refl,
        ap some (omega arith),
        Consecutive-one all offset frame here,
      )
]

find_run-Consecutive :
    (count : ℕ) (all rest : List ℕ) (offset : ℕ) (r : Run) {found : Run}
    → ((i : ℕ) → get_elem? all (offset + i) ≡ get_elem? rest i)
    → IsRun all offset r
    → 0 < count
    → find_run count rest offset r ≡ some found
    → (s : ℕ) × (found.start ≡ some s) × Consecutive all found.offset count s
unfolding find_run
find_run-Consecutive count all [] offset r same i h e = absurd (ground arith)
find_run-Consecutive count all (frame ∷ rest) offset r {found} same i h e =
    let here : get_elem? all offset ≡ some frame = ap (get_elem? all) (omega arith) ∙ same 0 in
    let i' = extend-Started all offset frame r here i in
    elim (Bool-cases ((extend offset frame r).len == count)) [
      | inl full ↦ finish (extend offset frame r) found i' full (rw full at e)
      | inr more ↦
          find_run-Consecutive count all rest (offset + 1) (extend offset frame r)
            (λ j. ap (get_elem? all) (omega arith) ∙ same (suc j)) (inr i') h (rw more at e)
    ]
  where
    finish :
        (r' found : Run)
        → Started all (offset + 1) r'
        → (r'.len == count) ≡ true
        → some r' ≡ some found
        → (s : ℕ) × (found.start ≡ some s) × Consecutive all found.offset count s
    finish r' found (s, begun, pos, place, last, c) full e =
        let same_run : r' ≡ found = cc in
        let size : r'.len ≡ count = ground arith in rw (← same_run) (s, begun, rw (← size) c)

-- A run that `allocate_contiguous` grants is made of frames of the map that the cursor had not
-- passed, each right behind the one before; the cursor then stands behind it.
pub allocate_contiguous-Consecutive :
    (a : FrameAllocator) (count s : ℕ) (a' : FrameAllocator)
    → allocate_contiguous a count ≡ (some s, a')
    → (o : ℕ) × Consecutive (usable_frames a.memory_map) (a.next + o) count s
      × (a' ≡ record a { next = a.next + (o + count) })
unfolding allocate_contiguous
allocate_contiguous-Consecutive a count s a' e = elim (Bool-cases (count == 0)) [
  | inl none_wanted ↦ absurd (ground arith)
  | inr wanted ↦ elim (Option-cases (find_run count ahead 0 no_run)) [
    | inl fails ↦ absurd (ground arith)
    | inr (r, found) ↦
        let (s', begun, c) =
          find_run-Consecutive count ahead ahead 0 no_run (λ i. ap (get_elem? ahead) (omega arith))
            (inl refl) (ground arith) found in
        let same : s' ≡ s = ground arith in
        (
          r.offset,
          λ k h.
              ap (get_elem? all) (omega arith)
              ∙ sym (get_elem?-drop all a.next (r.offset + k))
              ∙ c k h
              ∙ ap some (omega arith),
          ground arith,
        )
  ]
]
  where
    all : List ℕ
    all = usable_frames a.memory_map

    ahead : List ℕ
    ahead = drop a.next all

-- A request that cannot be met, and one for no frames, leaves the allocator as it was.
pub allocate_contiguous-none :
    (a a' : FrameAllocator) (count : ℕ) → allocate_contiguous a count ≡ (none, a') → a' ≡ a
unfolding allocate_contiguous
allocate_contiguous-none a a' count e =
    elim (Option-cases (find_run count (drop a.next (usable_frames a.memory_map)) 0 no_run)) [
      | inl fails ↦ ground (arith, fails)
      | inr (r, found) ↦ elim (Bool-cases (count == 0)) [
        | inl zero_wanted ↦ ground arith
        | inr wanted ↦
            let (s', begun, c) =
              find_run-Consecutive count (drop a.next (usable_frames a.memory_map))
                (drop a.next (usable_frames a.memory_map)) 0 no_run
                (λ i. ap (get_elem? (drop a.next (usable_frames a.memory_map))) (omega arith))
                (inl refl) (ground arith) found in
            ground arith
      ]
    ]
