-- ===== src/Prelude/Text.antt =====
-- UTF-8 text as bytes: validity, white space at the end, splitting at a byte.
use Prim.Native.Nat.{ℕ, ◌-◌}
use mathlib.Core.Bool.{Bool, true, false, ◌&&◌, ◌||◌}
use mathlib.Core.List.{List, [], ◌∷◌, reverse}
use mathlib.Core.Option.{Option, none, some}
use ferros.Prelude.Tests.{leb, ◌==◌, if◌then◌else◌}
use ferros.Prelude.Words.{Bytes}

abbrev pub within : ℕ → ℕ → ℕ → Bool
within lo hi b = leb lo b && leb b hi

abbrev continues : ℕ → Bool
continues b = within 0x80 0xbf b

-- A sequence of three bytes, neither overlong nor a surrogate.
abbrev three_bytes : ℕ → ℕ → ℕ → Bool
three_bytes a b c =
    ((a == 0xe0) && within 0xa0 0xbf b
      || (a == 0xed) && within 0x80 0x9f b
      || (within 0xe1 0xec a || within 0xee 0xef a) && continues b)
    && continues c

-- `core::str::from_utf8(bytes).is_ok()`.
unfoldable pub is_utf8 : Bytes → Bool
is_utf8 [] = true
is_utf8 (a ∷ []) = leb a 0x7f
is_utf8 (a ∷ b ∷ []) =
    let one = is_utf8 (b ∷ []) in if leb a 0x7f then one else within 0xc2 0xdf a && continues b
is_utf8 (a ∷ b ∷ c ∷ []) =
    let one = is_utf8 (b ∷ c ∷ []) in
    let two = is_utf8 (c ∷ []) in
    if leb a 0x7f then one else if within 0xc2 0xdf a then continues b && two else three_bytes a b c
is_utf8 (a ∷ b ∷ c ∷ d ∷ r) =
    let one = is_utf8 (b ∷ c ∷ d ∷ r) in
    let two = is_utf8 (c ∷ d ∷ r) in
    let three = is_utf8 (d ∷ r) in
    let four = is_utf8 r in
    if leb a 0x7f
    then one
    else if within 0xc2 0xdf a
    then continues b && two
    else if within 0xe0 0xef a
    then three_bytes a b c && three
    else ((a == 0xf0) && within 0x90 0xbf b
        || (a == 0xf4) && within 0x80 0x8f b
        || within 0xf1 0xf3 a && continues b)
      && (continues c && continues d)
      && four

abbrev is_white1 : ℕ → Bool
is_white1 a = within 9 13 a || (a == 32)

abbrev is_white2 : ℕ → ℕ → Bool
is_white2 a b = (a == 0xc2) && ((b == 0x85) || (b == 0xa0))

abbrev is_white3 : ℕ → ℕ → ℕ → Bool
is_white3 a b c =
    ((a == 0xe1) && ((b == 0x9a) && (c == 0x80)))
    || ((a == 0xe2)
        && (((b == 0x80) && (within 0x80 0x8a c || within 0xa8 0xa9 c || (c == 0xaf)))
            || ((b == 0x81) && (c == 0x9f))))
    || ((a == 0xe3) && ((b == 0x80) && (c == 0x80)))

-- The bytes from the last to the first, without the white space they begin with.
trim_reversed : Bytes → Bytes
trim_reversed [] = []
trim_reversed (a ∷ []) = if is_white1 a then [] else a ∷ []
trim_reversed (a ∷ b ∷ []) =
    let one = trim_reversed (b ∷ []) in
    if is_white1 a then one else if is_white2 b a then [] else a ∷ b ∷ []
trim_reversed (a ∷ b ∷ c ∷ r) =
    let one = trim_reversed (b ∷ c ∷ r) in
    let two = trim_reversed (c ∷ r) in
    let three = trim_reversed r in
    if is_white1 a
    then one
    else if is_white2 b a
    then two
    else if is_white3 c b a
    then three
    else a ∷ b ∷ c ∷ r

-- `str::trim_end`.
unfoldable pub trim_end : Bytes → Bytes
unfolding trim_reversed
trim_end xs = reverse (trim_reversed (reverse xs))

abbrev pub bytes_eq : Bytes → Bytes → Bool
bytes_eq [] [] = true
bytes_eq [] (y ∷ ys) = false
bytes_eq (x ∷ xs) [] = false
bytes_eq (x ∷ xs) (y ∷ ys) = (x == y) && bytes_eq xs ys

-- The part before the first `sep`, and what follows it (`none` without one).
abbrev pub split_once : ℕ → Bytes → Bytes × Option Bytes
split_once sep [] = ([], none)
split_once sep (x ∷ xs) =
    let (before, rest) = split_once sep xs in if x == sep then ([], some xs) else (x ∷ before, rest)

abbrev pub put_first : ℕ → List Bytes → List Bytes
put_first x [] = (x ∷ []) ∷ []
put_first x (p ∷ ps) = (x ∷ p) ∷ ps

-- `split(sep)`: the parts between the separators, one at least.
abbrev pub split : ℕ → Bytes → List Bytes
split sep [] = [] ∷ []
split sep (x ∷ xs) = if x == sep then [] ∷ split sep xs else put_first x (split sep xs)

-- `split(sep).filter(|c| !c.is_empty())`
abbrev pub nonempty : List Bytes → List Bytes
nonempty [] = []
nonempty ([] ∷ ps) = nonempty ps
nonempty ((x ∷ p) ∷ ps) = (x ∷ p) ∷ nonempty ps

-- `u8::to_ascii_uppercase`
abbrev pub to_ascii_uppercase : ℕ → ℕ
to_ascii_uppercase c = if leb b'a' c && leb c b'z' then c - 32 else c
