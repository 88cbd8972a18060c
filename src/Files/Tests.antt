-- ===== src/Files/Tests.antt =====
-- Runs of the path functions, of `alloc_fd` and of the calls on files, and the theorems on them.
use ferros.Prelude.{ℕ, ◌≡◌, refl, List, [], ◌∷◌, Option, none, some, arith}
use ferros.Prelude.{true, false, ◌++◌, length, get_or, Bytes}
use ferros.Files.{normalize, resolve_path, alloc_fd}
use ferros.Block.Ram.{Ram}
use ferros.Fat.Slot.{DirItem}
use ferros.Files.Kernel.{OpenFile, Kernel, file, set_fds, touch}
use ferros.Files.Open.{serialize_dirents, dirent}
use ferros.Files.Transfer.{splice}
use ferros.Files.Getdents.{spins, panics, span_loop, records, sys_getdents64}
use ferros.Files.Content.{splice-get_or}
use ferros.Files.Listing.Answer.{answer, sys_getdents64-fitting}
use ferros.Files.Example.{booted}
use ferros.Files.Descriptors.{Allocated, alloc_fd-Allocated}

-- "/a/../../b//./c/"
abbrev messy : Bytes
messy = 47 ∷ 97 ∷ 47 ∷ 46 ∷ 46 ∷ 47 ∷ 46 ∷ 46 ∷ 47 ∷ 98 ∷ 47 ∷ 47 ∷ 46 ∷ 47 ∷ 99 ∷ 47 ∷ []

clean : normalize messy ≡ 47 ∷ 98 ∷ 47 ∷ 99 ∷ []
unfolding normalize
clean = refl

-- "../x" in "/d"
relative : resolve_path (47 ∷ 100 ∷ []) (46 ∷ 46 ∷ 47 ∷ 120 ∷ []) ≡ 47 ∷ 120 ∷ []
unfolding resolve_path
relative = refl

-- The standard streams, with 1 closed.
abbrev table : List (Option ℕ)
table = some 0 ∷ none ∷ some 2 ∷ []

alloc_fd-Allocated_example : Allocated table 7 (alloc_fd table 7)
alloc_fd-Allocated_example = alloc_fd-Allocated table 7 (omega arith)

-- "abcd", written over from 3 on with "xyz".
splice-get_or_example :
    (length (splice (97 ∷ 98 ∷ 99 ∷ 100 ∷ []) 3 (120 ∷ 121 ∷ 122 ∷ [])) ≡ 6)
    × (get_or (splice (97 ∷ 98 ∷ 99 ∷ 100 ∷ []) 3 (120 ∷ 121 ∷ 122 ∷ [])) 4 0 ≡ 121)
splice-get_or_example = splice-get_or (97 ∷ 98 ∷ 99 ∷ 100 ∷ []) 3 (120 ∷ 121 ∷ 122 ∷ []) 4

-- The directory that holds "AB" and "DIR", open at 3, with the cursor behind the first record.
abbrev first_item : List DirItem
first_item = record { name = 65 ∷ 66 ∷ []; is_dir = false } ∷ []

abbrev second_item : List DirItem
second_item = record { name = 68 ∷ 73 ∷ 82 ∷ []; is_dir = true } ∷ []

abbrev listed : OpenFile
listed = record {
  name = 47 ∷ [];
  content = serialize_dirents (first_item ++ second_item);
  offset = 24;
  writable = false;
  dirty = false;
  is_dir = true;
}

abbrev opened : Kernel Ram
opened = set_fds (none ∷ none ∷ none ∷ some (file listed) ∷ []) booted

cursor : 24 ≡ length (serialize_dirents first_item)
unfolding serialize_dirents dirent
cursor = refl

sys_getdents64-fitting_example :
    sys_getdents64 3 4096 100 opened
    ≡ some (answer 3 4096 listed first_item second_item second_item (touch opened))
sys_getdents64-fitting_example =
    sys_getdents64-fitting 3 4096 100 listed first_item second_item opened refl refl
      (omega arith, tt) refl cursor

-- A cursor that `lseek` put elsewhere: a record of length 0 stands behind place 5, and no record
-- behind place 43.
astray : records (record listed { offset = 5 }) 100 ≡ spins
unfolding serialize_dirents dirent span_loop
astray = refl

behind : records (record listed { offset = 43 }) 100 ≡ panics
unfolding serialize_dirents dirent span_loop
behind = refl
