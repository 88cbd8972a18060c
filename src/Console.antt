-- ===== src/Console.antt =====
-- src/drivers/console.rs: the line discipline between the keyboard and `read(0)`. The screen is the
-- echo that a call returns.
pub mod Lines
pub mod Typed
mod Tests
use ferros.Prelude.{
  ℕ, zero, suc, ◌+◌, min, Bool, true, false, ◌||◌, ◌&&◌, not, Option, none, some, List, [], ◌∷◌,
  ◌++◌,
}
use ferros.Prelude.{if◌then◌else◌, ltb, leb, ◌==◌, length, take, drop, Bytes, within, pop}
use ferros.Sched.Table.{Scheduler}
use ferros.Sched.Calls.{wake_stdin_readers}

pub record Console : Type 0 where
  pub line : Bytes
  pub ready : Bytes

pub init : Console
init = record { line = []; ready = [] }

pub data Echo : Type 0 where
  char : ℕ → Echo
  newline backspace nothing : Echo

abbrev pub is_enter : ℕ → Bool
is_enter byte = (byte == 10) || (byte == 13)

abbrev pub is_erase : ℕ → Bool
is_erase byte = (byte == 8) || (byte == 127)

abbrev pub is_nil {ℓ} : {A : Type ℓ} → List A → Bool
is_nil [] = true
is_nil (x ∷ xs) = false

-- What happens under the lock, for an ASCII character.
unfoldable pub edit : ℕ → Console → Echo × Console
edit byte con =
    if is_enter byte
    then (newline, record { line = []; ready = con.ready ++ (con.line ++ (10 ∷ [])) })
    else if is_erase byte
    then ((if is_nil con.line then nothing else backspace), record con { line = pop con.line })
    else if within 0x20 0x7e byte
    then (char byte, record con { line = con.line ++ (byte ∷ []) })
    else (nothing, con)

abbrev pub is_newline : Echo → Bool
is_newline newline = true
is_newline _ = false

-- The whole call, on a code point: a line that is complete wakes the readers.
unfoldable pub feed_char : ℕ → Console → Scheduler → Echo × Console × Scheduler
unfolding edit
feed_char c con sched =
    if ltb 127 c
    then (nothing, con, sched)
    else let (echo, con') = edit c con in
      (echo, con', if is_newline echo then wake_stdin_readers sched else sched)

-- `position(|&b| b == b'\n').map_or(len, |i| i + 1)`
abbrev pub line_len : Bytes → ℕ
line_len [] = 0
line_len (b ∷ bs) = let rest = line_len bs in if b == 10 then 1 else rest + 1

unfoldable pub take_ready : ℕ → Console → Bytes × Console
take_ready most con =
    let n = min most (line_len con.ready) in
    (take n con.ready, record con { ready = drop n con.ready })

unfoldable pub unread : Bytes → Console → Console
unread bytes con = record con { ready = bytes ++ con.ready }
