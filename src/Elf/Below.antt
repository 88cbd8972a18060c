-- ===== src/Elf/Below.antt =====
-- src/syscall/elf.rs: a load stays in the half of the address space that belongs to programs.
use ferros.Prelude.{
  ℕ, zero, suc, ◌+◌, ◌-◌, ◌*◌, ◌/◌, ◌≤◌, ◌≡◌, refl, ◌∙◌, inl, inr, Bool, true, false, not, Option,
  none, some, [], ◌∷◌, Result, ok, err, M, pure, throw, after, ◌>>=◌, ◌>>◌, arith,
}
use ferros.Prelude.{
  if◌then◌else◌, ltb, leb, ◌==◌, length, take, drop, get_or, Bytes, bytes_eq, Bool-cases,
  length-take,
}
use ferros.Paging.{Mapper, Mmu, map_user_page}
use ferros.Sched.Table.{is_some}
use ferros.User.{user_space_end}
use ferros.Elf.{
  Stop, bad, Image, too_small, bad_magic, not_elf64, not_executable, not_x86_64,
  bad_program_header_size, exceeds, contains, read_word, record_page, load_page, load_pages, fill,
  place_segment, load_fields, load_typed, load_segment, load_segments, load_table, load_machine,
  load_type, load, et_exec, em_x86_64, pt_load, ph_entry_size, exceeds_table,
}

-- At and above the end of user space no byte is written.
abbrev pub IsBelow : {m : Mapper} → Image m → Image m → Type 0
IsBelow s s' = (i : ℕ) → s'.mem (user_space_end + i) ≡ s.mem (user_space_end + i)

module _ (m : Mapper) (bytes : Bytes) where
  -- A call from any state stays below.
  abbrev Stays : {A : Type 0} → M (Image m) Stop A → Type 0
  Stays f = (s : Image m) → IsBelow s (f s).1

  Stays-if :
      {A : Type 0} (b : Bool) (f g : M (Image m) Stop A)
      → Stays f
      → Stays g
      → Stays (if b then f else g)
  Stays-if true f g h h' = h
  Stays-if false f g h h' = h'

  Stays-after :
      {A B : Type 0} (f : M (Image m) Stop A) (g : A → M (Image m) Stop B)
      → Stays f
      → ((a : A) → Stays (g a))
      → Stays (f >>= g)
  Stays-after {A} {B} f g h h' s i = go (f s).0 (f s).1 (h s i)
    where
      go :
          (r : Result Stop A) (t : Image m)
          → t.mem (user_space_end + i) ≡ s.mem (user_space_end + i)
          → (after r t g).1.mem (user_space_end + i) ≡ s.mem (user_space_end + i)
      go (ok a) t e = h' a t i ∙ e
      go (err x) t e = e

  read_word-Stays : (n off : ℕ) → Stays (read_word m bytes n off)
  read_word-Stays n off s i = elim (Bool-cases (leb (off + n) (length bytes))) [
    | inl e ↦ rw (e, read_word) refl
    | inr e ↦ rw (e, read_word) refl
  ]

  record_page-Stays : (page : ℕ) (o : Option (Mmu m)) → Stays (record_page m bytes page o)
  record_page-Stays page none s i = refl
  record_page-Stays page (some mmu) s i = refl

  load_page-Stays : (page : ℕ) → Stays (load_page m bytes page)
  unfolding load_page
  load_page-Stays page s i = elim (Bool-cases (contains s.mapped page)) [
    | inl e ↦ rw (e, load_page) refl
    | inr e ↦ elim (Bool-cases (is_some (m.translate_page s.mmu.tables page))) [
      | inl f ↦ rw (e, f, load_page) refl
      | inr f ↦ rw (e, f, load_page) (record_page-Stays page (map_user_page m page s.mmu) s i)
    ]
  ]

  load_pages-Stays : (left page : ℕ) → Stays (load_pages m bytes left page)
  unfolding load_pages
  load_pages-Stays zero page s i = refl
  load_pages-Stays (suc left) page s i =
      Stays-after (load_page m bytes page) (λ _. load_pages m bytes left (page + 4096))
        (load_page-Stays page) (λ _. load_pages-Stays left (page + 4096)) s i

  fill-Stays :
      (p_offset p_vaddr p_filesz p_memsz : ℕ)
      → p_filesz ≤ p_memsz
      → p_vaddr + p_memsz ≤ user_space_end
      → Stays (fill m bytes p_offset p_vaddr p_filesz p_memsz)
  fill-Stays p_offset p_vaddr p_filesz p_memsz small below s i =
      let short = length-take p_filesz (drop p_offset bytes) in ground (arith, short)

  exceeds-false : (start len most : ℕ) → exceeds start len most ≡ false → start + len ≤ most
  exceeds-false start len most e = ground (arith, e)

  place_segment-Stays :
      (p_offset p_vaddr p_filesz p_memsz : ℕ)
      → Stays (place_segment m bytes p_offset p_vaddr p_filesz p_memsz)
  unfolding place_segment
  place_segment-Stays p_offset p_vaddr p_filesz p_memsz s i =
      elim (Bool-cases (exceeds p_offset p_filesz (length bytes))) [
        | inl e ↦ rw (e, place_segment) refl
        | inr e ↦ elim (Bool-cases (ltb p_memsz p_filesz)) [
          | inl f ↦ rw (e, f, place_segment) refl
          | inr f ↦ elim (Bool-cases (exceeds p_vaddr p_memsz user_space_end)) [
            | inl g ↦ rw (e, f, g, place_segment) refl
            | inr g ↦
                rw (e, f, g, place_segment)
                  (Stays-if (p_memsz == 0) (pure tt)
                    (load_pages m bytes ((p_vaddr + p_memsz - 1) / 4096 + 1 - p_vaddr / 4096)
                        (p_vaddr / 4096 * 4096)
                      >> fill m bytes p_offset p_vaddr p_filesz p_memsz)
                    (λ s i. refl)
                    (Stays-after
                      (load_pages m bytes ((p_vaddr + p_memsz - 1) / 4096 + 1 - p_vaddr / 4096)
                        (p_vaddr / 4096 * 4096))
                      (λ _. fill m bytes p_offset p_vaddr p_filesz p_memsz)
                      (load_pages-Stays ((p_vaddr + p_memsz - 1) / 4096 + 1 - p_vaddr / 4096)
                        (p_vaddr / 4096 * 4096))
                      (λ _.
                        fill-Stays p_offset p_vaddr p_filesz p_memsz (ground (arith, f))
                          (exceeds-false p_vaddr p_memsz user_space_end g)))
                    s i)
          ]
        ]
      ]

  load_fields-Stays : (ph : ℕ) → Stays (load_fields m bytes ph)
  load_fields-Stays ph =
      Stays-after (read_word m bytes 8 (ph + 0x08)) _ (read_word-Stays 8 (ph + 0x08)) (λ p_offset.
        Stays-after (read_word m bytes 8 (ph + 0x10)) _ (read_word-Stays 8 (ph + 0x10)) (λ p_vaddr.
          Stays-after (read_word m bytes 8 (ph + 0x20)) _ (read_word-Stays 8 (ph + 0x20))
            (λ p_filesz.
              Stays-after (read_word m bytes 8 (ph + 0x28)) _ (read_word-Stays 8 (ph + 0x28))
                (λ p_memsz. place_segment-Stays p_offset p_vaddr p_filesz p_memsz))))

  load_segment-Stays : (ph : ℕ) → Stays (load_segment m bytes ph)
  unfolding load_segment
  load_segment-Stays ph =
      Stays-after (read_word m bytes 4 ph) (load_typed m bytes ph) (read_word-Stays 4 ph) (λ p_type.
        Stays-if (not (p_type == pt_load)) (pure tt) (load_fields m bytes ph) (λ s i. refl)
          (load_fields-Stays ph))

  load_segments-Stays : (left phentsize ph : ℕ) → Stays (load_segments m bytes left phentsize ph)
  unfolding load_segments
  load_segments-Stays zero phentsize ph = λ s i. refl
  load_segments-Stays (suc left) phentsize ph =
      Stays-after (load_segment m bytes ph)
        (λ _. load_segments m bytes left phentsize (ph + phentsize)) (load_segment-Stays ph)
        (λ _. load_segments-Stays left phentsize (ph + phentsize))

  load_table-Stays :
      (entry phoff phentsize phnum : ℕ) → Stays (load_table m bytes entry phoff phentsize phnum)
  load_table-Stays entry phoff phentsize phnum =
      Stays-if (ltb phentsize ph_entry_size) (throw (bad bad_program_header_size)) _ (λ s i. refl)
        (Stays-if (exceeds_table phoff phnum phentsize (length bytes)) (throw (bad too_small)) _
          (λ s i. refl)
          (Stays-after (load_segments m bytes phnum phentsize phoff) (λ _. pure entry)
            (load_segments-Stays phnum phentsize phoff) (λ _ s i. refl)))

  load_machine-Stays : (e_machine : ℕ) → Stays (load_machine m bytes e_machine)
  load_machine-Stays e_machine =
      Stays-if (not (e_machine == em_x86_64)) (throw (bad not_x86_64)) _ (λ s i. refl)
        (Stays-after (read_word m bytes 8 0x18) _ (read_word-Stays 8 0x18) (λ entry.
          Stays-after (read_word m bytes 8 0x20) _ (read_word-Stays 8 0x20) (λ phoff.
            Stays-after (read_word m bytes 2 0x36) _ (read_word-Stays 2 0x36) (λ phentsize.
              Stays-after (read_word m bytes 2 0x38) _ (read_word-Stays 2 0x38)
                (λ phnum. load_table-Stays entry phoff phentsize phnum)))))

  load_type-Stays : (e_type : ℕ) → Stays (load_type m bytes e_type)
  load_type-Stays e_type =
      Stays-if (not (e_type == et_exec)) (throw (bad not_executable)) _ (λ s i. refl)
        (Stays-after (read_word m bytes 2 0x12) (load_machine m bytes) (read_word-Stays 2 0x12)
          load_machine-Stays)

  -- Whatever the bytes of the file are, and whether the load ends well, with an error or in a panic,
  -- no byte of memory at or above the end of user space is written.
  pub load-IsBelow : (s : Image m) → IsBelow s (load m bytes s).1
  unfolding load
  load-IsBelow =
      Stays-if (ltb (length bytes) 64) (throw (bad too_small)) _ (λ s i. refl)
        (Stays-if (not (bytes_eq (take 4 bytes) (0x7f ∷ 69 ∷ 76 ∷ 70 ∷ []))) (throw (bad bad_magic))
          _ (λ s i. refl)
          (Stays-if (not (get_or bytes 4 0 == 2)) (throw (bad not_elf64)) _ (λ s i. refl)
            (Stays-after (read_word m bytes 2 0x10) (load_type m bytes) (read_word-Stays 2 0x10)
              load_type-Stays)))
