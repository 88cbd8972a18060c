-- ===== src/Dispatch/Uname.antt =====
-- src/syscall/sysinfo.rs: the name of the system.
use ferros.Prelude.{ℕ, ◌-◌, List, [], ◌∷◌, ◌++◌, M, pure, ◌>>◌, min}
use ferros.Prelude.{length, take, replicate, Bytes}
use ferros.Files.Kernel.{Kernel, copy_out}

abbrev pub uts_field : ℕ
uts_field = 65

-- A field: the name, cut to 64 bytes, with zeros behind it.
abbrev pub uts_bytes : Bytes → Bytes
uts_bytes s = let n = min (length s) (uts_field - 1) in take n s ++ replicate (uts_field - n) 0

abbrev pub uts_fields : List Bytes → Bytes
uts_fields [] = []
uts_fields (s ∷ fields) = uts_bytes s ++ uts_fields fields

-- "ferros" twice, "0.1.0", "ferros M9 x86_64", "x86_64", "(none)".
abbrev pub names : List Bytes
names =
    (102 ∷ 101 ∷ 114 ∷ 114 ∷ 111 ∷ 115 ∷ [])
    ∷ (102 ∷ 101 ∷ 114 ∷ 114 ∷ 111 ∷ 115 ∷ [])
    ∷ (48 ∷ 46 ∷ 49 ∷ 46 ∷ 48 ∷ [])
    ∷ (102 ∷ 101 ∷ 114 ∷ 114 ∷ 111 ∷ 115 ∷ 32 ∷ 77 ∷ 57 ∷ 32 ∷ 120 ∷ 56 ∷ 54 ∷ 95 ∷ 54 ∷ 52 ∷ [])
    ∷ (120 ∷ 56 ∷ 54 ∷ 95 ∷ 54 ∷ 52 ∷ [])
    ∷ (40 ∷ 110 ∷ 111 ∷ 110 ∷ 101 ∷ 41 ∷ [])
    ∷ []

module _ {Dev : Type 0} where
  unfoldable pub sys_uname : ℕ → M (Kernel Dev) ℕ ℕ
  sys_uname buf = copy_out buf (uts_fields names) >> pure 0
