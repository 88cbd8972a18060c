-- ===== src/Files/Counts/Tests.antt =====
-- A process that makes a pipe and forks, and the theorems on what is reached.
use ferros.Prelude.{ℕ, ◌≡◌, ◌≢◌, refl, Bool, true, some, [], ◌∷◌, ◌++◌, ok, err}
use ferros.Prelude.{if◌then◌else◌, ◌==◌, Bytes}
use ferros.Abi.{epipe}
use ferros.Sched.Calls.{wake_pipe_waiters}
use ferros.Block.Ram.{ram, Ram}
use ferros.User.{user_bytes, validate, user_range_accessible, copy_to_user}
use ferros.Files.{alloc_fd}
use ferros.Files.Kernel.{Kernel, fd_at, pipe_write, place, clone_entries}
use ferros.Files.Table.{sys_pipe, sys_close}
use ferros.Files.Transfer.{returns, waits, read_pipe, write_pipe}
use ferros.Files.Example.{booted}
use ferros.Files.Process.{fork_fds}
use ferros.Files.Counts.{Shared, reader, writer, arc, counter, uses_all, IsCounted}
use ferros.Files.Counts.Reachable.{
  make_pipe, fork, Reach, here, after, Reach-IsCounted, Reach-read_pipe, Reach-write_pipe,
  Reach-sys_close,
}

abbrev any_text : Bytes → Bool
any_text path = true

booted_zeros : (r : Shared) → counter r booted ≡ 0
booted_zeros (reader p) = refl
booted_zeros (writer p) = refl
booted_zeros (arc a) = refl

abbrev piped : Kernel Ram
piped = (sys_pipe 4096 booted).1

abbrev forked : Kernel Ram
forked = fork_fds 1 2 piped

abbrev piped_reached : Reach ram any_text booted piped
piped_reached = after here (make_pipe 4096)

abbrev forked_reached : Reach ram any_text booted forked
forked_reached = after piped_reached (fork 1 2)

two_ends : uses_all (writer 0) forked.procs ≡ 2
unfolding sys_pipe place alloc_fd fork_fds clone_entries copy_to_user validate user_range_accessible
two_ends = refl

no_data : (forked.pipes 0).queue ≡ []
unfolding sys_pipe place alloc_fd fork_fds clone_entries copy_to_user validate user_range_accessible
no_data = refl

write_end : fd_at 4 piped ≡ some (pipe_write 0)
unfolding sys_pipe place alloc_fd copy_to_user validate user_range_accessible
write_end = refl

last_end : uses_all (writer 0) (sys_close ram 4 piped).1.procs ≡ 0
unfolding sys_close sys_pipe place alloc_fd copy_to_user validate user_range_accessible
last_end = refl

two_bytes : user_bytes forked.space 8192 2 ≡ ok (7 ∷ 7 ∷ [])
unfolding sys_pipe place alloc_fd fork_fds clone_entries copy_to_user validate user_range_accessible
    user_bytes
two_bytes = refl

Reach-IsCounted_example : IsCounted forked
Reach-IsCounted_example = Reach-IsCounted ram any_text refl booted_zeros forked_reached

Reach-read_pipe_example :
    (read_pipe 0 8192 4 forked).0
    ≡ (if uses_all (writer 0) forked.procs == 0 then returns (ok 0) else waits)
Reach-read_pipe_example =
    Reach-read_pipe ram any_text 0 8192 4 refl booted_zeros forked_reached refl no_data

Reach-write_pipe_example :
    ((write_pipe 0 8192 2 forked).0
      ≡ (if uses_all (reader 0) forked.procs == 0 then err epipe else ok 2))
    × (((write_pipe 0 8192 2 forked).1.pipes 0).queue
        ≡ (forked.pipes 0).queue
          ++ (if uses_all (reader 0) forked.procs == 0 then [] else 7 ∷ 7 ∷ []))
    × ((q : ℕ) → q ≢ 0 → (write_pipe 0 8192 2 forked).1.pipes q ≡ forked.pipes q)
    × ((write_pipe 0 8192 2 forked).1.sched ≡ (
        if uses_all (reader 0) forked.procs == 0
        then forked.sched
        else wake_pipe_waiters forked.sched))
Reach-write_pipe_example =
    Reach-write_pipe ram any_text 0 8192 2 (7 ∷ 7 ∷ []) refl booted_zeros forked_reached refl
      two_bytes

Reach-sys_close_example : (sys_close ram 4 piped).1.sched ≡ wake_pipe_waiters piped.sched
Reach-sys_close_example =
    Reach-sys_close ram any_text 0 4 refl booted_zeros piped_reached write_end last_end
