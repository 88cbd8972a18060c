-- ===== src/Elf.antt =====
-- src/syscall/elf.rs: a static ELF64 program is checked, and its segments are mapped and filled in
-- the active address space. Memory is a function from virtual addresses to bytes.
pub mod Below
mod Tests
use ferros.Prelude.{
  ℕ, zero, suc, ◌+◌, ◌-◌, ◌*◌, ◌/◌, Bool, true, false, ◌&&◌, ◌||◌, not, Option, none, some, List,
  [], ◌∷◌, Result, ok, err, M, pure, throw, ◌>>=◌, ◌>>◌,
}
use ferros.Prelude.{
  if◌then◌else◌, ltb, leb, ◌==◌, length, take, drop, get_or, checked_add, from_le, Bytes, bytes_eq,
}
use ferros.Paging.{Mapper, Mmu, map_user_page}
use ferros.Sched.Table.{is_some}
use ferros.User.{user_space_end, write_bytes}

pub data ElfError : Type 0 where
  too_small bad_magic not_elf64 not_executable not_x86_64 bad_program_header_size : ElfError
  segment_out_of_file file_size_exceeds_mem_size segment_not_in_user_space : ElfError
  segment_overlaps_existing : ElfError

-- Why a load stops: an error, or the panic of `map_user_page`.
pub data Stop : Type 0 where
  bad : ElfError → Stop
  panic : Stop

-- `mapped` is the set of the pages that this load has mapped, by their first addresses.
pub record Image (m : Mapper) : Type 0 where
  pub mmu : Mmu m
  pub mem : ℕ → ℕ
  pub mapped : List ℕ

abbrev pub et_exec : ℕ
et_exec = 2

abbrev pub em_x86_64 : ℕ
em_x86_64 = 0x3e

abbrev pub pt_load : ℕ
pt_load = 1

abbrev pub ph_entry_size : ℕ
ph_entry_size = 56

abbrev pub contains : List ℕ → ℕ → Bool
contains [] a = false
contains (b ∷ bs) a = (b == a) || contains bs a

-- `checked_mul`
abbrev pub checked_mul : ℕ → ℕ → Option ℕ
checked_mul a b = if ltb (a * b) 18446744073709551616 then some (a * b) else none

-- Whether `start + len` overflows, or is more than `most`.
abbrev pub exceeds : ℕ → ℕ → ℕ → Bool
exceeds start len most = elim (checked_add start len) [ none ↦ true | some end ↦ ltb most end ]

-- Whether the table of program headers is longer than the file.
abbrev pub exceeds_table : ℕ → ℕ → ℕ → ℕ → Bool
exceeds_table phoff phnum phentsize most = elim (checked_mul phnum phentsize) [
  | none ↦ true
  | some len ↦ exceeds phoff len most
]

-- `write_bytes` of the core library, with 0.
abbrev pub zero_bytes : (ℕ → ℕ) → ℕ → ℕ → ℕ → ℕ
zero_bytes mem from to a = if leb from a && ltb a to then 0 else mem a

module _ (m : Mapper) (bytes : Bytes) where
  -- `read_u16`, `read_u32` and `read_u64`, by the number of bytes.
  abbrev pub read_word : ℕ → ℕ → M (Image m) Stop ℕ
  read_word n off s =
      if leb (off + n) (length bytes)
      then (ok (from_le (take n (drop off bytes))), s)
      else (err (bad too_small), s)

  abbrev pub record_page : ℕ → Option (Mmu m) → M (Image m) Stop (Unit {0})
  record_page page none s = (err panic, s)
  record_page page (some mmu) s = (ok tt, record s { mmu = mmu; mapped = page ∷ s.mapped })

  unfoldable pub load_page : ℕ → M (Image m) Stop (Unit {0})
  load_page page s =
      if contains s.mapped page
      then (ok tt, s)
      else if is_some (m.translate_page s.mmu.tables page)
      then (err (bad segment_overlaps_existing), s)
      else record_page page (map_user_page m page s.mmu) s

  -- The pages of a segment, `left` of them from `page` on.
  unfoldable pub load_pages : ℕ → ℕ → M (Image m) Stop (Unit {0})
  load_pages zero page s = (ok tt, s)
  load_pages (suc left) page s = (load_page page >> load_pages left (page + 4096)) s

  -- The content of the file, and zeros behind it.
  abbrev pub fill : ℕ → ℕ → ℕ → ℕ → M (Image m) Stop (Unit {0})
  fill p_offset p_vaddr p_filesz p_memsz s = (
    ok tt,
    record s {
      mem =
          zero_bytes (write_bytes s.mem p_vaddr (take p_filesz (drop p_offset bytes)))
            (p_vaddr + p_filesz) (p_vaddr + p_memsz);
    },
  )

  unfoldable pub place_segment : ℕ → ℕ → ℕ → ℕ → M (Image m) Stop (Unit {0})
  place_segment p_offset p_vaddr p_filesz p_memsz =
      if exceeds p_offset p_filesz (length bytes)
      then throw (bad segment_out_of_file)
      else if ltb p_memsz p_filesz
      then throw (bad file_size_exceeds_mem_size)
      else if exceeds p_vaddr p_memsz user_space_end
      then throw (bad segment_not_in_user_space)
      else if p_memsz == 0
      then pure tt
      else load_pages ((p_vaddr + p_memsz - 1) / 4096 + 1 - p_vaddr / 4096) (p_vaddr / 4096 * 4096)
        >> fill p_offset p_vaddr p_filesz p_memsz

  abbrev pub load_fields : ℕ → M (Image m) Stop (Unit {0})
  load_fields ph = do
    p_offset ← read_word 8 (ph + 0x08)
    p_vaddr ← read_word 8 (ph + 0x10)
    p_filesz ← read_word 8 (ph + 0x20)
    p_memsz ← read_word 8 (ph + 0x28)
    place_segment p_offset p_vaddr p_filesz p_memsz

  abbrev pub load_typed : ℕ → ℕ → M (Image m) Stop (Unit {0})
  load_typed ph p_type = if not (p_type == pt_load) then pure tt else load_fields ph

  unfoldable pub load_segment : ℕ → M (Image m) Stop (Unit {0})
  load_segment ph = do p_type ← read_word 4 ph; load_typed ph p_type

  -- The headers of the program, `left` of them from `ph` on.
  unfoldable pub load_segments : ℕ → ℕ → ℕ → M (Image m) Stop (Unit {0})
  load_segments zero phentsize ph = pure tt
  load_segments (suc left) phentsize ph =
      load_segment ph >> load_segments left phentsize (ph + phentsize)

  abbrev pub load_table : ℕ → ℕ → ℕ → ℕ → M (Image m) Stop ℕ
  load_table entry phoff phentsize phnum =
      if ltb phentsize ph_entry_size
      then throw (bad bad_program_header_size)
      else if exceeds_table phoff phnum phentsize (length bytes)
      then throw (bad too_small)
      else load_segments phnum phentsize phoff >> pure entry

  abbrev pub load_machine : ℕ → M (Image m) Stop ℕ
  load_machine e_machine = if not (e_machine == em_x86_64) then throw (bad not_x86_64) else (do
    entry ← read_word 8 0x18
    phoff ← read_word 8 0x20
    phentsize ← read_word 2 0x36
    phnum ← read_word 2 0x38
    load_table entry phoff phentsize phnum)

  abbrev pub load_type : ℕ → M (Image m) Stop ℕ
  load_type e_type =
      if not (e_type == et_exec)
      then throw (bad not_executable)
      else (do e_machine ← read_word 2 0x12; load_machine e_machine)

  unfoldable pub load : M (Image m) Stop ℕ
  load =
      if ltb (length bytes) 64
      then throw (bad too_small)
      else if not (bytes_eq (take 4 bytes) (0x7f ∷ 69 ∷ 76 ∷ 70 ∷ []))
      then throw (bad bad_magic)
      else if not (get_or bytes 4 0 == 2)
      then throw (bad not_elf64)
      else (do e_type ← read_word 2 0x10; load_type e_type)
