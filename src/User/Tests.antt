-- ===== src/User/Tests.antt =====
-- The theorems on a memory with one page of text, and a second one that is read-only.
use ferros.Prelude.{ℕ, ◌<◌, ◌≡◌, refl, true, false, Option, none, some, [], ◌∷◌, ok, err, arith}
use ferros.Prelude.{if◌then◌else◌, ◌==◌}
use ferros.User.{
  validate, user_bytes, user_range_accessible, PageFlags, Space, path_max, efault, cstr_loop,
  read_user_cstr, copy_to_user,
}
use ferros.User.Text.{StandsAt, read_user_cstr-ends, read_user_cstr-StandsAt}
use ferros.User.Copy.{Copied, copy_to_user-Copied}

-- "/A" at 0x1ffe, with the zero on the next page.
abbrev page_of : ℕ → Option PageFlags
page_of n =
    if n == 1
    then some (record { user = true; writable = true })
    else if n == 2
    then some (record { user = true; writable = false })
    else none

abbrev small : Space
small = record { page = page_of; mem = λ a. if a == 8190 then 47 else if a == 8191 then 65 else 0 }

root_a : read_user_cstr small 8190 ≡ ok (47 ∷ 65 ∷ [])
unfolding read_user_cstr cstr_loop user_bytes validate user_range_accessible
root_a = refl

read_only : (copy_to_user 8192 (1 ∷ []) small).0 ≡ err efault
unfolding copy_to_user validate user_range_accessible
read_only = refl

read_user_cstr-ends_example : cstr_loop 257 small 8190 [] ≡ some (read_user_cstr small 8190)
read_user_cstr-ends_example = read_user_cstr-ends small 8190 (omega arith)

read_user_cstr-StandsAt_example : StandsAt small 8190 (47 ∷ 65 ∷ []) × (2 < path_max)
read_user_cstr-StandsAt_example = read_user_cstr-StandsAt small 8190 (47 ∷ 65 ∷ []) root_a

copy_to_user-Copied_example : Copied 4096 (7 ∷ 8 ∷ []) small (copy_to_user 4096 (7 ∷ 8 ∷ []) small)
copy_to_user-Copied_example = copy_to_user-Copied 4096 (7 ∷ 8 ∷ []) small
