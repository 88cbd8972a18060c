-- ===== src/Lib.antt =====
-- ferros, a small x86_64 kernel in Rust: a model of its allocator of physical frames, its
-- scheduler, its FAT32 file system, its DNS messages, its console, the access to user memory, the
-- heap of a process, its ELF loader, and the system calls on files, pipes, signals and children.
--
-- How the parts interact. The scheduler keeps the table of threads; a process ends by exit or by
-- a signal, its parent waits for it and collects its status, and reaping gives its page table and
-- stack back to the frame allocator. System calls on files turn a name into a normal absolute
-- path, and the file system finds it on a volume that it reads and writes by sectors of a block
-- device. A process has a table of descriptors, which fork copies; descriptors share pipes and
-- sockets, and the last one to go wakes those who wait for a pipe. A path or a buffer of a
-- program is read and written only after a check of its pages. A read of the keyboard takes the
-- lines that the console has ready, or blocks the thread until the console wakes it. The resolver
-- builds a DNS query and reads the answer that the network brings.
--
-- Files and source:
--   Prelude  lists, tests, words, results, UTF-8 text; nothing of the program.
--   Frame    src/mm/frame.rs. FrameAllocator is BootInfoFrameAllocator: the cursor `next` and the
--            head of the free list. Physical memory is a function from the address of a frame to
--            its first word, where the link of the list stands (`link_word`).
--   Sched    src/sched/thread.rs. Scheduler is the table, a list of Thread; a thread is named by
--            its index, as in the source. Step has a constructor for each call that changes the
--            table, and Reach is any sequence of them from a table on. A function that can panic
--            returns an Option, and the panic is `none`.
--   Block    src/drivers/virtio_blk.rs as the file system sees it: a record of the two calls on
--            sectors, and its laws. Ram is a disk in memory that has them.
--   Fat      src/fs/fat.rs. The type M is a call on the device that returns a result or a
--            FatError; what was written before a failure stays written. The chapters are Volume
--            (mount and geometry), Names (8.3), Table (the allocation table), Slot (a directory
--            entry), Directory, Path (resolution and reading), and File (writing and removing).
--   Dns      src/net/dns.rs. The buffer and the position of `write` are a state.
--   Abi      src/syscall/abi.rs: errnos, flags and commands.
--   User     src/syscall/uaccess.rs, and user_range_accessible of src/mm/paging.rs. Space is the
--            flags of each page and the byte at each address.
--   Vfs      src/fs/mod.rs: each call mounts and passes on to Fat.
--   Console  src/drivers/console.rs. Console is the line in progress and the bytes that are
--            ready.
--   Paging   src/mm/paging.rs: a page of the active table is mapped or unmapped. Mapper is the
--            page table of the x86_64 crate, and Laws what is asked of it; Flat is one that has
--            them.
--   Files    src/syscall/files.rs. Kernel is what the calls change: PROCESSES, the buffers of
--            pipes (`Arc<Mutex<PipeBuf>>` is a number), the strong counts of sockets, the
--            scheduler, the console, the memory of the process, and the device. Open has the
--            calls on paths, Table those on descriptors, Transfer reading, writing and seeking,
--            Getdents the listing of a directory, Stat, Vector (writev, readv), Sockets, Heap
--            (brk), Process (fork, execve, exit, reaping). Counts compares the counts of ends
--            with the tables of all processes; its Step has a constructor for each of these
--            calls, whatever network stack and page table they meet, and one for what goes on
--            between them: other processes, threads, the keyboard and memory. Reach is any
--            sequence of them. `with_current_proc` puts a default state in place, which is
--            `touch`. An errno is the error of a Result, and the call returns it negated. What
--            the network stack answers to `socket` is an argument.
--   Dispatch src/syscall/mod.rs: sys_kill and sys_wait4; time.rs and sysinfo.rs beside it.
--   Elf      src/syscall/elf.rs. Image is the page table and the allocator, memory by virtual
--            addresses, and the pages mapped so far; a panic of the code below is a Stop.
--
-- Numbers. All are natural numbers. A word that can wrap is reduced where the source computes in
-- 32 bits (u32 in Fat.Volume), as in a build without overflow checks; `checked_add` fails from
-- 2^64. `exit_status` is the pattern of 32 bits. The debug assertion that frame 0 is never freed
-- is a hypothesis, MayBeFreed.
--
-- Loops. The walks along chains of clusters have the bound of the source (`cluster_count` steps).
-- `free_list_len_loop` and `skip_name_loop` are given fuel: a round for each frame of the list,
-- and a round for each byte of the message and one more. `alloc_cluster` has `cluster_count`
-- rounds, one for each cluster that it may pass. `cstr_loop` has a round for each byte of a path
-- and one more, and `span_loop` one for each byte of a listing and one more; a record of length 0
-- makes the loop of the source endless, which is `spins`. A call that can block is one round of
-- its loop: it returns or waits, and a thread that is woken makes the next round; a readv that
-- waits says where it goes on (`resume_readv`).
--
-- Not modelled: what a context switch does to registers, page tables and the FPU; the driver
-- behind the block device; the network stack, which is another library's, and what
-- src/net/socket.rs asks of it; the creation and the teardown of an address space; the table of
-- dispatch; the executor of futures; `from_utf8` of the core library, which is a parameter;
-- interrupts (a call runs with interrupts off and is one step); the mutexes, which each call
-- holds from begin to end; running out of kernel memory.
pub mod Prelude
pub mod Frame
pub mod Sched
pub mod Block
pub mod Fat
pub mod Dns
pub mod Files
pub mod Abi
pub mod Console
pub mod Dispatch
pub mod Elf
pub mod Paging
pub mod User
pub mod Vfs
