-- ===== src/Dispatch/Tests.antt =====
-- Runs of `kill` and of the status word.
use ferros.Prelude.{◌≡◌, refl, false, some}
use ferros.Prelude.{pos}
use ferros.Block.Ram.{Ram}
use ferros.Files.Example.{booted}
use ferros.Files.Kernel.{Kernel}
use ferros.Dispatch.{Killed, sys_kill, encode_status}
use ferros.Dispatch.Status.{is_exited, termsig, encode_status-Reads}
use ferros.Dispatch.Kill.{Answers, sys_kill-Answers}

-- Nobody has number 7.
sys_kill-Answers_example :
    (r : Killed) × (k : Kernel Ram) × (sys_kill (pos 7) 9 booted ≡ some (r, k))
    × Answers (pos 7) 9 booted.sched r
sys_kill-Answers_example = sys_kill-Answers (pos 7) 9 booted

encode_status-Reads_example :
    (is_exited (encode_status 3 (some 11)) ≡ false) × (termsig (encode_status 3 (some 11)) ≡ 11)
encode_status-Reads_example = encode_status-Reads 3 (some 11) refl
