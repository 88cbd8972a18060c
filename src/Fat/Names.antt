-- ===== src/Fat/Names.antt =====
-- src/fs/fat.rs: names in the 8.3 form of a directory entry.
use ferros.Prelude.{ℕ, zero, suc, [], ◌∷◌, ◌++◌, Option, none, some}
use ferros.Prelude.{
  if◌then◌else◌, Bytes, take, drop, is_utf8, trim_end, split_once, to_ascii_uppercase,
}

abbrev pub space : ℕ
space = 32

abbrev pub dot : ℕ
dot = 46

-- `n` places, filled with the upper-case form of the name's bytes and padded with spaces.
abbrev pub field : ℕ → Bytes → Bytes
field zero xs = []
field (suc n) [] = space ∷ field n []
field (suc n) (x ∷ xs) = to_ascii_uppercase x ∷ field n xs

abbrev pub or_empty : Option Bytes → Bytes
or_empty none = []
or_empty (some xs) = xs

-- `name.splitn(2, '.')`: the extension is all that follows the first dot.
unfoldable pub short_name_83 : Bytes → Bytes
short_name_83 name = let (base, ext) = split_once dot name in field 8 base ++ field 3 (or_empty ext)

-- `from_utf8(..).unwrap_or("").trim_end()`
abbrev pub text_of : Bytes → Bytes
text_of xs = trim_end (if is_utf8 xs then xs else [])

abbrev pub join_ext : Bytes → Bytes → Bytes
join_ext base [] = base
join_ext base (e ∷ es) = base ++ (dot ∷ e ∷ es)

unfoldable pub name_83_to_string : Bytes → Bytes
unfolding is_utf8 trim_end
name_83_to_string entry = join_ext (text_of (take 8 entry)) (text_of (drop 8 entry))
