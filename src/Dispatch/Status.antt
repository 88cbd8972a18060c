-- ===== src/Dispatch/Status.antt =====
-- src/syscall/mod.rs: the status word of `wait4`, as the macros of the C library read it.
use ferros.Prelude.{ℕ, ◌/◌, ◌%◌, ◌≡◌, Bool, true, false, Option, none, some, arith}
use ferros.Prelude.{ltb, ◌&&◌, ◌==◌}
use ferros.Dispatch.{encode_status}

-- `WTERMSIG`, `WIFEXITED` and `WEXITSTATUS`.
abbrev pub termsig : ℕ → ℕ
termsig status = status % 128

abbrev pub is_exited : ℕ → Bool
is_exited status = termsig status == 0

abbrev pub exitstatus : ℕ → ℕ
exitstatus status = status / 256 % 256

abbrev pub Reads : ℕ → Option ℕ → ℕ → Type 0
Reads code none status = (is_exited status ≡ true) × (exitstatus status ≡ code % 256)
Reads code (some sig) status = (is_exited status ≡ false) × (termsig status ≡ sig)

abbrev pub is_signal : Option ℕ → Bool
is_signal none = true
is_signal (some sig) = ltb 0 sig && ltb sig 128

-- Whatever the code of an exit is, the word that `sys_wait4` writes says that the process exited, and
-- gives the low byte of the code; of a process that a signal from 1 to 127 ended it says so, and
-- gives the signal.
pub encode_status-Reads :
    (code : ℕ) (sig : Option ℕ) → is_signal sig ≡ true → Reads code sig (encode_status code sig)
unfolding encode_status
encode_status-Reads code none h = (ground arith, ground arith)
encode_status-Reads code (some sig) h = (ground arith, ground arith)
