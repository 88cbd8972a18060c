-- ===== src/Files/Open.antt =====
-- src/syscall/files.rs: the calls that name a path. `utf8` is the test of `core::str::from_utf8`,
-- from the core library.
use Prim.Native.Nat.{bit_and}
use ferros.Prelude.{
  ℕ, ◌+◌, ◌-◌, ◌*◌, ◌/◌, Bool, true, false, ◌||◌, ◌&&◌, not, List, [], ◌∷◌, ◌++◌, Result, ok, err,
  M, pure, throw, ◌>>=◌, ◌>>◌,
}
use ferros.Prelude.{if◌then◌else◌, ltb, ◌==◌, length, replicate, to_le, Bytes}
use ferros.Abi.{enoent, enotdir, eisdir, erange, o_accmode, o_rdonly, o_creat, o_trunc, o_append}
use ferros.Block.{BlockDevice}
use ferros.Fat.Volume.{FatError, not_found}
use ferros.Fat.Slot.{DirItem}
use ferros.Fat.Path.{Node, file, dir}
use ferros.User.{read_user_cstr}
use ferros.Files.{slash, resolve_path}
use ferros.Files.Kernel
use ferros.Files.Kernel.{
  OpenFile, Kernel, current_proc, set_proc, fat_errno, on_volume, touch, place, copy_out,
}
use ferros.Console.{is_nil}
use ferros.Vfs

abbrev pub header : ℕ
header = 19

-- `(HEADER + name.len() + 1).div_ceil(8) * 8`
abbrev pub reclen : Bytes → ℕ
reclen name = (header + length name + 1 + 7) / 8 * 8

-- The record of one entry: `i` is its place, and `start` the length of those before it.
unfoldable pub dirent : ℕ → ℕ → DirItem → Bytes
dirent i start item =
    to_le 8 (i + 1)
    ++ (to_le 8 (start + reclen item.name)
        ++ (to_le 2 (reclen item.name)
            ++ ((if item.is_dir then 4 else 8)
                ∷ (item.name ++ replicate (reclen item.name - (header + length item.name)) 0))))

abbrev pub dirents_from : ℕ → ℕ → List DirItem → Bytes
dirents_from i start [] = []
dirents_from i start (item ∷ items) =
    dirent i start item ++ dirents_from (i + 1) (start + reclen item.name) items

unfoldable pub serialize_dirents : List DirItem → Bytes
serialize_dirents items = dirents_from 0 0 items

abbrev pub has_flag : ℕ → ℕ → Bool
has_flag flags flag = not (bit_and flags flag == 0)

abbrev pub is_not_found : FatError → Bool
is_not_found not_found = true
is_not_found _ = false

abbrev pub is_absolute : Bytes → Bool
is_absolute [] = false
is_absolute (x ∷ path) = x == slash

abbrev pub is_writable : ℕ → Bool
is_writable flags = not (bit_and flags o_accmode == o_rdonly)

abbrev pub new_file : Bytes → Bytes → ℕ → Bool → OpenFile
new_file name content offset writable = record {
  name = name;
  content = content;
  offset = offset;
  writable = writable;
  dirty = false;
  is_dir = false;
}

module _ (d : BlockDevice) (utf8 : Bytes → Bool) where
  -- Only a relative path asks for the working directory.
  abbrev pub resolve : Bytes → Kernel d.Dev → Bytes × Kernel d.Dev
  resolve path k = (resolve_path (current_proc k).cwd path, if is_absolute path then k else touch k)

  unfoldable pub path_arg : ℕ → M (Kernel d.Dev) ℕ Bytes
  unfolding resolve_path
  path_arg path_ptr k = elim (read_user_cstr k.space path_ptr) [
    | err errno ↦ (err errno, k)
    | ok path ↦
        if not (utf8 path) || is_nil path
        then (err enoent, k)
        else let (resolved, k') = resolve path k in (ok resolved, k')
  ]

  -- The file as it was found, cut to nothing on disk by `O_TRUNC`.
  abbrev pub open_existing : Bytes → ℕ → Bytes → M (Kernel d.Dev) ℕ OpenFile
  open_existing path flags existing =
      if has_flag flags o_trunc
      then on_volume (Vfs.write_file d path []) >> pure (new_file path [] 0 (is_writable flags))
      else pure (
          new_file path existing (if has_flag flags o_append then length existing else 0)
            (is_writable flags))

  abbrev pub open_dir : Bytes → ℕ → List DirItem → M (Kernel d.Dev) ℕ OpenFile
  open_dir path flags items =
      if is_writable flags
      then throw eisdir
      else pure (record {
        name = path;
        content = serialize_dirents items;
        offset = 0;
        writable = false;
        dirty = false;
        is_dir = true;
      })

  -- The arms of the match on what `lookup` returned.
  abbrev pub open_found : Bytes → ℕ → Result FatError Node → M (Kernel d.Dev) ℕ OpenFile
  open_found path flags (ok (file existing)) = open_existing path flags existing
  open_found path flags (ok (dir items)) = open_dir path flags items
  open_found path flags (err e) =
      if is_not_found e && has_flag flags o_creat
      then on_volume (Vfs.write_file d path []) >> pure (new_file path [] 0 (is_writable flags))
      else throw (fat_errno e)

  unfoldable pub sys_open : ℕ → ℕ → M (Kernel d.Dev) ℕ ℕ
  unfolding serialize_dirents
  sys_open path_ptr flags = do
    path ← path_arg path_ptr
    f ← λ k. let (r, s) = Vfs.lookup d path k.dev in open_found path flags r (record k { dev = s })
    place (Kernel.Fd.file f)

  abbrev pub enter_dir : Bytes → Node → M (Kernel d.Dev) ℕ ℕ
  enter_dir path (dir items) k = (ok 0, set_proc (record (current_proc k) { cwd = path }) k)
  enter_dir path (file content) k = (err enotdir, k)

  unfoldable pub sys_chdir : ℕ → M (Kernel d.Dev) ℕ ℕ
  sys_chdir path_ptr = do
    path ← path_arg path_ptr
    node ← on_volume (Vfs.lookup d path)
    enter_dir path node

  unfoldable pub sys_getcwd : ℕ → ℕ → M (Kernel d.Dev) ℕ ℕ
  sys_getcwd buf size = λ k.
      let cwd = (current_proc k).cwd in
      if ltb size (length cwd + 1)
      then (err erange, touch k)
      else (copy_out buf (cwd ++ (0 ∷ [])) >> pure (length cwd + 1)) (touch k)

  unfoldable pub sys_mkdir : ℕ → M (Kernel d.Dev) ℕ ℕ
  sys_mkdir path_ptr = do path ← path_arg path_ptr; on_volume (Vfs.mkdir d path) >> pure 0

  unfoldable pub sys_unlink : ℕ → M (Kernel d.Dev) ℕ ℕ
  sys_unlink path_ptr = do path ← path_arg path_ptr; on_volume (Vfs.unlink d path) >> pure 0

  unfoldable pub sys_rmdir : ℕ → M (Kernel d.Dev) ℕ ℕ
  sys_rmdir path_ptr = do path ← path_arg path_ptr; on_volume (Vfs.rmdir d path) >> pure 0
