-- ===== src/Prelude/Words.antt =====
-- Byte strings, and fixed-width words in little and big byte order.
use Prim.Native.Nat.{ℕ, zero, suc, ◌+◌, ◌*◌, ◌/◌, ◌%◌, ◌<◌}
use mathlib.Core.List.{List, [], ◌∷◌}
use mathlib.Core.Option.{Option, none, some}
use ferros.Prelude.Tests.{if◌then◌else◌, ltb}

-- `[u8]` and `Vec<u8>`; a byte is a number below 256.
abbrev pub Bytes : Type 0
Bytes = List ℕ

abbrev pub IsByte : ℕ → Type 0
IsByte b = b < 256

-- `u16::from_le_bytes` and the like.
abbrev pub le16 : ℕ → ℕ → ℕ
le16 a b = a + 256 * b

abbrev pub le32 : ℕ → ℕ → ℕ → ℕ → ℕ
le32 a b c d = a + 256 * b + 65536 * c + 16777216 * d

abbrev pub be16 : ℕ → ℕ → ℕ
be16 a b = 256 * a + b

-- `to_le_bytes` of a word of `n` bytes.
abbrev pub to_le : ℕ → ℕ → Bytes
to_le zero x = []
to_le (suc n) x = (x % 256) ∷ to_le n (x / 256)

-- `from_le_bytes`
abbrev pub from_le : Bytes → ℕ
from_le [] = 0
from_le (b ∷ bs) = b + 256 * from_le bs

-- `to_be_bytes` of a 16-bit word.
abbrev pub to_be16 : ℕ → Bytes
to_be16 x = (x / 256 % 256) ∷ (x % 256) ∷ []

-- `checked_add` of `u64` and `usize`
abbrev pub checked_add : ℕ → ℕ → Option ℕ
checked_add a b = if ltb (a + b) 18446744073709551616 then some (a + b) else none

-- A signed word: `pos n` is n, and `negsuc n` is -(n + 1).
pub data ℤ : Type 0 where
  pos negsuc : ℕ → ℤ
