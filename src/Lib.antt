-- ===== src/Lib.antt =====
-- Verification of the Microkernel-OS kernel: the parts that hold its own logic, as functions on
-- explicit states, and what they guarantee.
--
-- Numbers are the native naturals. A `uint32_t` keeps its wrap-around as `% 2 ^ 32`, an `int32_t` is
-- its 32-bit pattern, an address is a number and 0 is NULL. A fixed array is a function from the index
-- with the array's bound written where the code loops. Loops over an array are structural recursion on
-- the number of rounds (`first_from`, `count_from`, `for_range` of Prelude/Arrays.antt), so they
-- need no fuel. Output on the screen and on the serial line is left out.
--
-- The parts, and where the source of each stands in the repository:
--   * Pmm: src/pmm.c and include/pmm.h, the allocator of physical pages. `Pmm` is its static variables;
--     each function has its name. Pmm/Bitmap reads the bits, Pmm/Invariant ties the counter to the
--     bitmap, Pmm/Alloc and Pmm/Ranges are about the operations.
--   * CString: the string functions of include/types.h on lists of bytes. `text` is what a C string
--     means: the bytes in front of the NUL.
--   * Task: src/task.c and include/task.h. Task/State has the task table and the scheduler's variables,
--     Task/Frame the first interrupt frame of a task, Task/Create the creation and the end of tasks
--     with memory from Heap and Paging, Task/Create/Running which task runs behind them, Task/Schedule
--     the choice of the next task, the
--     timer tick, yield and sleep. The timer's count, the address of the interrupt frame and the
--     kernel's page directory are arguments.
--   * Ipc: src/ipc.c and include/ipc.h, synchronous messages over the task table of Task. A
--     `message_t*` is an address in the space of the task that runs: `place` takes a page directory and an
--     address to a byte of `memory`, and a copy is the loop over the 64 bytes, so that buffers may be shared
--     between spaces. Ipc/Bytes is about these loops, Ipc/Send and Ipc/Receive follow the branches of the
--     calls, Ipc/Blocking keeps the tasks' states and reasons together, and Ipc/Delivery and Ipc/Meeting
--     put two calls together, the send first and the receive first. A call that goes to sleep in
--     `task_yield` returns the outcome `waits`; that it returns 0 later is the scheduler's doing.
--     Ipc/Services is the registry from names to task numbers at the end of src/ipc.c.
--   * Env: src/env.c. `env_expand` recurses on fuel, the length of the input: each round takes a byte,
--     and Env/Expand shows that more fuel changes nothing.
--   * Login: src/login.c; what the user types at the three attempts is an argument.
--   * Ramfs: src/ramfs.c. Ramfs/Path has the paths, the parent the search, creation and renaming, and
--     Ramfs/Data the operations on a file's bytes in blocks of Heap, over the interfaces `Driver` and
--     `ProcFiles` for the disk drivers and src/procfs.c. `find_loop` has the path's length
--     as fuel. Paths and names are taken to fit into the fixed buffers of the code.
--   * Heap: src/heap.c, the block headers as a store over addresses. Heap/Blocks is the list of blocks that
--     the store means, Heap/Chain what a store means, Heap/Alloc, Heap/Search, Heap/Merge and Heap/Release
--     follow the loops, Heap/Merged is about the list alone, Heap/Refines ties the two, Heap/Live, Heap/Client,
--     Heap/Runs and Heap/Space are what callers rely on. The loops have the heap's size in bytes as fuel, and
--     a block takes at least 20 of them. `sizeof` of the header is 20, as on a 32-bit machine.
--   * Paging: src/paging.c and include/paging.h over Pmm. Memory is words by page frame; Paging/Words has the
--     translation as the processor does it, Paging/Kernel and Paging/Mapping the kernel's tables, Paging/User
--     the mapping into another space through the windows, Paging/Spaces new and destroyed spaces. The
--     linker's addresses are fields of the state; CR3 and the TLB are left out.
--   * Elf: src/elf.c and include/elf.h. Elf has the headers, the checks and the contents of a page, Elf/Load the
--     loading over Pmm, Paging, Heap and Task. The file is a table of bytes; its pointer is not NULL.
--   * Keyboard: src/keyboard.c and include/keyboard.h. Keyboard/Fifo has the ring buffer as a queue,
--     Keyboard/Callback the handler of scan codes, Keyboard/Line the line editor, whose input is a list of
--     characters; it waits when the list ends.
--   * Fat16: src/fat16.c, the allocation table and the bytes of files, over a drive that keeps sectors. Fat16/Entries
--     has the table as a map, Fat16/Chain the chains, Fat16/Grow and Fat16/Alloc the loop that makes one,
--     Fat16/Place where clusters lie, Fat16/Store and Fat16/Fetch the loops over their sectors, Fat16/Contents and
--     Fat16/Files the calls without their searches of directories. A chain is shorter than the fuel of 65,536,
--     since a volume has fewer clusters.
--   * Prelude: the names and the lemmas on arrays, bits, tests and lists that the parts share.
-- Ipc calls Task (`task_get_by_pid`, `task_yield`); Task, Ipc/Services, Env and Login call CString for
-- their names, and search them by CString/Names; Paging takes its pages from Pmm; Task/Create and Ramfs take
-- blocks from Heap.
--
-- Not modelled: the exchange of registers in assembly, devices, drivers and the programs on top of the kernel;
-- of src/fat16.c the directories, long names, mounting and formatting; and src/syscall.c, whose calls write through
-- pointers of user tasks that may reach the kernel's own data. Writes through a pointer are to the stores named
-- above: the buffers of messages and files lie outside of the kernel's variables and of the headers of blocks.
pub mod CString
pub mod Elf
pub mod Env
pub mod Fat16
pub mod Heap
pub mod Ipc
pub mod Keyboard
pub mod Login
pub mod Paging
pub mod Pmm
pub mod Prelude
pub mod Ramfs
pub mod Task
