-- ===== src/Dispatch/Clock.antt =====
-- src/syscall/time.rs: the clocks. `ns` is `uptime_ns()`, the nanoseconds since the start.
use ferros.Prelude.{ℕ, ◌/◌, ◌%◌, not, ◌&&◌, ◌++◌, ok, err, M, pure, ◌>>◌}
use ferros.Prelude.{if◌then◌else◌, ◌==◌, to_le, Bytes}
use ferros.Abi.{clock_realtime, clock_monotonic}
use ferros.User.{einval}
use ferros.Files.Kernel.{Kernel, copy_out}

abbrev pub ns_per_sec : ℕ
ns_per_sec = 1000000000

abbrev pub ns_per_usec : ℕ
ns_per_usec = 1000

abbrev pub pack_time : ℕ → ℕ → Bytes
pack_time sec frac = to_le 8 sec ++ to_le 8 frac

module _ {Dev : Type 0} where
  unfoldable pub sys_clock_gettime : ℕ → ℕ → ℕ → M (Kernel Dev) ℕ ℕ
  sys_clock_gettime ns clk_id tp k =
      if not (clk_id == clock_realtime) && not (clk_id == clock_monotonic)
      then (err einval, k)
      else (copy_out tp (pack_time (ns / ns_per_sec) (ns % ns_per_sec)) >> pure 0) k

  unfoldable pub sys_gettimeofday : ℕ → ℕ → M (Kernel Dev) ℕ ℕ
  sys_gettimeofday ns tv k =
      if tv == 0
      then (ok 0, k)
      else (copy_out tv (pack_time (ns / ns_per_sec) (ns % ns_per_sec / ns_per_usec)) >> pure 0) k

  unfoldable pub sys_time : ℕ → ℕ → M (Kernel Dev) ℕ ℕ
  sys_time ns tloc k =
      let sec = ns / ns_per_sec in
      if tloc == 0 then (ok sec, k) else (copy_out tloc (to_le 8 sec) >> pure sec) k
