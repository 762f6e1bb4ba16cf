-- ===== src/Lib.antt =====
-- CoreOS, the parts of its kernel that keep state: verification library.
--
-- The kernel runs user programs on one processor. At boot it checks the memory map of the boot
-- loader and takes it into a frame allocator, from which page tables and the pages of programs
-- come; brk, mmap, munmap and mprotect change both and keep a table of regions for each process.
-- The timer lets a scheduler choose the next task. The keyboard handler turns scan codes into
-- characters for the terminal, whose line discipline echoes them and hands whole lines to readers;
-- the ring buffer for keys stands beside it, and no other part calls it. Programs see files of a
-- RAM file system through descriptors; a descriptor refers to an entry of a table of open files or
-- of pipes, which count their references, since forked processes share them. Signals stay pending
-- until the end of a system call, which starts a handler on the stack of the program or ends its
-- whole group; futexes and robust lists let threads of a program wait for each other.
--
-- Files and sources:
--   Base: arrays as lists with native indices, ring buffers (Base/Ring, Base/Gap), bounded queues
--     (Base/Bounded), counts and sums.
--   Pmm: kernel/src/mem/pmm.rs and the memory map of kernel/src/boot.rs. `PMMState` is the record
--     Pmm, `alloc_frame`, `alloc_frames`, `free_frame` and `init` have their own names; physical
--     memory is a function from the addresses of words to words.
--   Pmm/Validate: kernel/src/mem/validate.rs; a panic is the result false.
--   Paths: the names and vectors that kernel/src/syscall/helpers.rs copies from user memory.
--   Usercopy: kernel/src/usercopy.rs and the copies of structures in kernel/src/syscall/helpers.rs;
--     the memory of the running program is a function from addresses to bytes.
--   KeyBuffer: kernel/src/hw/kbd_buffer.rs, the ring `Inner`.
--   Tty: kernel/src/hw/tty.rs. `input_char` is the discipline and the bytes it echoes; `read` takes
--     the characters that arrive while it waits as an argument, a list of batches.
--   Keyboard: kernel/src/hw/ps2.rs and `handle_scancode` of kernel/src/hw/keyboard.rs; the state of
--     the keys is an argument and a result.
--   Fs: kernel/src/fs.rs, kernel/src/vfs.rs and kernel/src/syscall/fs.rs. `FILESYSTEM` is an
--     optional list of files. `fs_write_at` panics, which is `none`, where the end of the write
--     overflows, and so does `write_file`; the heap is taken to have the room for a file.
--   Paging: kernel/src/arch/amd64/paging.rs. Tables are words of the frame allocator's memory, read
--     and written at physical addresses; a panic is `none`. Paging/Space says what an address space
--     is, Ensure, Mapping, Leaf, MapPage and MapResult are about `map_page_in`.
--   Proc/State, Proc/Process: the records of kernel/src/proc/state.rs and the task record of
--     kernel/src/proc/task.rs; the tables that the kernel keeps in statics are the record Kernel.
--   Proc/Life, Proc/Exit: the creation and the exit of processes and threads in
--     kernel/src/proc/process.rs, and kill_task of kernel/src/proc/task.rs.
--   Scheduler: `next_task_switch` of kernel/src/proc/task.rs with what it hands to the switch in
--     assembly, and `tick` of kernel/src/proc/scheduler.rs.
--   Mm: kernel/src/proc/vm.rs, kernel/src/syscall/mm.rs and kernel/src/syscall/result.rs. A call of
--     Mm/Calls has no answer where the kernel panics or faults.
--   Proc/Tables, Proc/Fd: kernel/src/proc/fd_open.rs, the counters of kernel/src/proc/fd_pipe.rs,
--     and kernel/src/proc/fd.rs. A result of -1 is `none`. Proc/Tally, Holders, Owners, Placed,
--     Balance, Dest, Dup, Opening, Family, Piping, Starting, Leaving and History are about the
--     counters and dup_fd.
--     The steps of Proc/History are all calls on descriptors, a switch to another task, the start
--     of a process by spawn or fork in a slot of the process table that holds none (the source
--     looks only for a free task, and would overwrite a process that nobody has reaped), the start
--     of a thread, a queued signal, the exit of a thread or of its group, the end of a group by a
--     signal, and the reaping of a thread's slot or of a process.
--   Proc/FileIo, Proc/Seek, Proc/FileWrite: reading, writing and seeking in files through
--     descriptors, and the flags.
--   Proc/PipeIo: reading and writing in kernel/src/proc/fd_pipe.rs. A reader that waits takes what
--     the other tasks do meanwhile as a list of changes of the kernel.
--   Sys: kernel/src/syscall/process.rs, and the alternate stack in kernel/src/syscall/sys.rs. Signals
--     is the delivery and the return from a handler, Kill the calls on signals, masks and actions
--     with the end of a call, Ids the numbers of a process, Futex the futexes and robust lists,
--     Files the calls on descriptors and waitpid, Leave the exits. Each is named like its call, and
--     gives the result and the new state. A call that waits takes the turns of the other tasks as
--     a list. Choice, Pending, Ending, Stack, Handler, Deliver, Return, Masks, Unmaskable, Killing,
--     Masking, History, Wake, Robust, Reaping and Counted are about them.
--
-- Loops over tables are recursion on their lists or bounds, so no definition needs fuel. The only
-- loops that may not end are those of a call that waits: they are recursion on the list of
-- events, and have a result of their own for a list that does not end them. Sizes are those of
-- the source: 16 descriptors, 32 open files, 16 pipes of 1024 bytes, 8 process slots, a ring of
-- 128 characters. Counters are `usize` in the source and natural numbers here where no table is
-- long enough to wrap them; sums of addresses in the frame allocator wrap at 2 ^ 64. The walk of a
-- robust list has the source's own limit of 64 nodes.
--
-- Locks and disabled interrupts make each operation one step. Not modelled: assembly, device
-- input and output, the boot loader, the user programs and messages; the clones of address
-- spaces, the heap, program loading, fork and clone with the stacks of the new tasks, and the
-- system calls on files; and kernel/src/proc/signal.rs, which no module of the kernel includes.
-- Every page of the user half is taken to be there when the kernel copies, since a fault of the
-- kernel stops the machine.
pub mod Base
pub mod KeyBuffer
pub mod Pmm
pub mod Tty
pub mod Fs
pub mod Proc
pub mod Paging
pub mod Scheduler
pub mod Mm
pub mod Keyboard
pub mod Usercopy
pub mod Paths
pub mod Sys
