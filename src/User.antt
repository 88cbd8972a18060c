-- ===== src/User.antt =====
-- src/syscall/uaccess.rs, and `user_range_accessible` of src/mm/paging.rs: the kernel's reads and
-- writes in the memory of the running process. What the page tables make of an address is a
-- function from the number of a page to its flags, and memory one from addresses to bytes.
pub mod Text
pub mod Copy
mod Tests
use ferros.Prelude.{
  ℕ, zero, suc, ◌+◌, ◌-◌, ◌*◌, ◌/◌, ◌%◌, min, Bool, true, false, ◌&&◌, ◌||◌, not, Option, none,
  some, List, [], ◌∷◌, ◌++◌, Result, ok, err, M, pure, throw,
}
use ferros.Prelude.{checked_add, if◌then◌else◌, ltb, leb, ◌==◌, length, get_or, Bytes}

-- The flags of a page that is present: `USER_ACCESSIBLE` and `WRITABLE`.
pub record PageFlags : Type 0 where
  pub user : Bool
  pub writable : Bool

pub record Space : Type 0 where
  pub page : ℕ → Option PageFlags
  pub mem : ℕ → ℕ

abbrev pub user_space_end : ℕ
user_space_end = 0x8000_0000_0000

abbrev pub path_max : ℕ
path_max = 256

abbrev pub efault : ℕ
efault = 14

abbrev pub einval : ℕ
einval = 22

-- One round of the loop over the pages.
abbrev pub page_accessible : Option PageFlags → Bool → Bool
page_accessible none need_write = false
page_accessible (some f) need_write = f.user && (not need_write || f.writable)

-- `left` pages from number `n` on.
abbrev pub pages_accessible : Space → ℕ → ℕ → Bool → Bool
pages_accessible s zero n need_write = true
pages_accessible s (suc left) n need_write =
    page_accessible (s.page n) need_write && pages_accessible s left (n + 1) need_write

-- A page stands at each multiple of 4096 from the start of the first page to below the end.
unfoldable pub user_range_accessible : Space → ℕ → ℕ → Bool → Bool
user_range_accessible s start len need_write =
    if len == 0 then true else elim (checked_add start len) [
      | none ↦ false
      | some end ↦ pages_accessible s ((end + 4095) / 4096 - start / 4096) (start / 4096) need_write
    ]

unfoldable pub validate : ℕ → ℕ → Result ℕ (Unit {0})
validate ptr len = elim (checked_add ptr len) [
  | none ↦ err efault
  | some end ↦ if leb end user_space_end then ok tt else err efault
]

-- The slice of `len` bytes at `ptr`.
abbrev pub bytes_at : (ℕ → ℕ) → ℕ → ℕ → Bytes
bytes_at mem ptr zero = []
bytes_at mem ptr (suc len) = mem ptr ∷ bytes_at mem (ptr + 1) len

-- The view that `with_user_bytes` gives to its function.
unfoldable pub user_bytes : Space → ℕ → ℕ → Result ℕ Bytes
user_bytes s ptr len = elim (validate ptr len) [
  | err e ↦ err e
  | ok _ ↦
      if len == 0
      then ok []
      else if user_range_accessible s ptr len false
      then ok (bytes_at s.mem ptr len)
      else err efault
]

-- Memory with `src` written from `dst` on.
abbrev pub write_bytes : (ℕ → ℕ) → ℕ → Bytes → ℕ → ℕ
write_bytes mem dst src a =
    if leb dst a && ltb a (dst + length src) then get_or src (a - dst) 0 else mem a

unfoldable pub copy_to_user : ℕ → Bytes → M Space ℕ (Unit {0})
copy_to_user dst src s = elim (validate dst (length src)) [
  | err e ↦ (err e, s)
  | ok _ ↦
      if length src == 0
      then (ok tt, s)
      else if user_range_accessible s dst (length src) true
      then (ok tt, record s { mem = write_bytes s.mem dst src })
      else (err efault, s)
]

-- The bytes before the first zero, and whether there is one: what the closure of the loop pushes.
abbrev pub until_nul : Bytes → Bytes × Bool
until_nul [] = ([], false)
until_nul (b ∷ bs) =
    let (rest, hit) = until_nul bs in if b == 0 then ([], true) else (b ∷ rest, hit)

-- The loop of `read_user_cstr`; the outer `none` says that the fuel ran out.
unfoldable pub cstr_loop : ℕ → Space → ℕ → Bytes → Option (Result ℕ Bytes)
cstr_loop zero s addr out = none
cstr_loop (suc fuel) s addr out =
    let page_end = addr / 4096 * 4096 + 4096 in
    let chunk_len = min (page_end - addr) (path_max - length out) in
    elim (chunk_len == 0) [
      | true ↦ some (err einval)
      | false ↦ elim (user_bytes s addr chunk_len) [
        | err e ↦ some (err e)
        | ok bytes ↦
            let (pushed, hit_nul) = until_nul bytes in
            elim hit_nul [
              | true ↦ some (ok (out ++ pushed))
              | false ↦ cstr_loop fuel s page_end (out ++ pushed)
            ]
      ]
    ]

abbrev pub ended : Option (Result ℕ Bytes) → Result ℕ Bytes
ended none = err einval
ended (some r) = r

-- A round for each byte that fits, and one more, is enough.
unfoldable pub read_user_cstr : Space → ℕ → Result ℕ Bytes
read_user_cstr s ptr = elim (validate ptr 1) [
  | err e ↦ err e
  | ok _ ↦ ended (cstr_loop (suc path_max) s ptr [])
]
