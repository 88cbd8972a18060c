-- ===== src/Files/Example.antt =====
-- A kernel on which the tests run.
use ferros.Prelude.{true, some, []}
use ferros.Sched.Table
use ferros.Block.Ram.{Ram}
use ferros.Console
use ferros.Files.Kernel.{Kernel}

-- Process 1 runs, and may read and write everything.
abbrev pub booted : Kernel Ram
booted = record {
  procs = [];
  pipes = λ p. record { queue = []; readers = 0; writers = 0 };
  next_pipe = 0;
  arcs = λ a. 0;
  next_arc = 0;
  closed = [];
  sched = Table.init 0;
  keyboard = Console.init;
  screen = [];
  serial_line = [];
  last_write = record { fd = 0; len = 0; sum = 0; user_rsp = 0 };
  space = record { page = λ n. some (record { user = true; writable = true }); mem = λ a. 7 };
  dev = λ i k. 0;
  key = 1;
}
