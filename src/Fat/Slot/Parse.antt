-- ===== src/Fat/Slot/Parse.antt =====
-- A directory entry of src/fs/fat.rs that `fill_dir_entry` wrote is read back by the searches.
use ferros.Prelude.{
  ℕ, zero, suc, ◌+◌, ◌-◌, ◌/◌, ◌%◌, ◌<◌, ◌≡◌, ◌≢◌, refl, ap, ◌∙◌, false, [], ◌∷◌, ◌++◌, arith,
}
use ferros.Prelude.{length, get_or, take, Bytes, to_le, replicate}
use ferros.Fat.Volume.{read_u32}
use ferros.Fat.Slot.{
  is_skipped, is_directory, used, slot_of, entry_cluster, parse_entry, fill_dir_entry,
}
use ferros.Fat.Table.Splice.{get_or-append}

behind :
    (name rest : Bytes) (k : ℕ)
    → length name ≡ 11
    → get_or (name ++ rest) (11 + k) 0 ≡ get_or rest k 0
behind name rest k h =
    ground
      (arith, get_or-append name rest (11 + k), ap (λ j. get_or rest j 0) (minus (length name) h))
  where
    minus : (n : ℕ) → n ≡ 11 → 11 + k - n ≡ k
    minus n e = omega arith

take-append : (xs ys : Bytes) (n : ℕ) → length xs ≡ n → take n (xs ++ ys) ≡ xs
take-append [] ys n h = take_zero n h
  where
    take_zero : (n : ℕ) → 0 ≡ n → take n ys ≡ []
    take_zero zero h = refl
    take_zero (suc n) h = absurd (omega arith)
take-append (x ∷ xs) ys zero h = absurd (omega arith)
take-append (x ∷ xs) ys (suc n) h = ap (λ t. x ∷ t) (take-append xs ys n (omega arith))

module _ (name : Bytes) (attr cluster size : ℕ) (eleven : length name ≡ 11) where
  abbrev fields : Bytes
  fields =
      attr
      ∷ (replicate 8 0
          ++ (to_le 2 (cluster / 65536)
              ++ (replicate 4 0 ++ (to_le 2 (cluster % 65536) ++ to_le 4 size))))

  at :
      (k j : ℕ)
      → j ≡ 11 + k
      → get_or (fill_dir_entry name attr cluster size) j 0 ≡ get_or fields k 0
  unfolding fill_dir_entry
  at k j e = ap (λ i. get_or (name ++ fields) i 0) e ∙ behind name fields k eleven

-- The entry that is written is in use and has its name, and its first cluster, size and kind come
-- back as they were given, if the name has 11 bytes, does not begin with the marks 0 or 0xE5, the
-- attributes are not those of a label or a long name, and the numbers have 32 bits.
pub parse_entry-fill_dir_entry :
    (name : Bytes) (attr cluster size : ℕ)
    → length name ≡ 11
    → get_or name 0 0 ≢ 0
    → get_or name 0 0 ≢ 0xe5
    → is_skipped attr ≡ false
    → cluster < 4294967296
    → size < 4294967296
    → (slot_of (fill_dir_entry name attr cluster size) ≡ used)
      × (take 11 (fill_dir_entry name attr cluster size) ≡ name)
      × (parse_entry (fill_dir_entry name attr cluster size)
          ≡ record { first_cluster = cluster; size = size; is_dir = is_directory attr })
unfolding slot_of parse_entry
parse_entry-fill_dir_entry name attr cluster size eleven ne ne' kind hc hs =
    let e = fill_dir_entry name attr cluster size in
    let at' = at name attr cluster size eleven in
    let first : get_or e 0 0 ≡ get_or name 0 0 = head_byte in
    let attributes : get_or e 11 0 ≡ attr = at' 0 11 refl in
    let high : entry_cluster e ≡ cluster =
      omega (arith, at' 9 20 refl, at' 10 21 refl, at' 15 26 refl, at' 16 27 refl) in
    let long : read_u32 e 28 ≡ size =
      omega (arith, at' 17 28 refl, at' 18 29 refl, at' 19 30 refl, at' 20 31 refl) in
    (ground (arith, first, attributes, kind), named, ground (arith, high, long, attributes))
  where
    head_byte : get_or (fill_dir_entry name attr cluster size) 0 0 ≡ get_or name 0 0
    head_byte =
        unfold fill_dir_entry in
        ground (arith, get_or-append name (fields name attr cluster size eleven) 0)

    named : take 11 (fill_dir_entry name attr cluster size) ≡ name
    named =
        unfold fill_dir_entry in take-append name (fields name attr cluster size eleven) 11 eleven
