-- ===== src/Lib.antt =====
-- Ruix, a kernel in Rust: its processes, its scheduler, its inter-process communication, its timer, its
-- system calls, its interrupt handlers, its memory management, its CPUs, its screen, its test framework and
-- its start-up.
--
-- The parts, with the files that model them:
--   src/error.rs              Error: the error types, their texts, the recovery strategy.
--   src/process/mod.rs        Process: a process and its methods; Process/Tasks: asynchronous tasks;
--                             Process/Context: `ProcessContext`, the saved registers, in memory;
--                             Process/Creation: `Process::new`, `Process::fork` and the page table;
--                             Process/Keyboard: the scancode queue and its waker; Process/Behavior: the
--                             trait `TaskBehavior`; Process/Waker: `TaskWaker`.
--   src/process/scheduler.rs  Scheduler: the queues and the process tree. `handle_process_exit`,
--                             `reap_zombie_child`, `cleanup_all_zombies` and `schedule` keep their
--                             names; their loops are helpers beside them. Scheduler/Tree is the
--                             BTreeMap from a child to its parent, a list sorted by the child.
--   src/ipc.rs                Ipc/Message, Ipc/Channel and Ipc/Handle: messages, channels, memory
--                             handles and their registries; Ipc/Handle/Rights: `access_to_flags`.
--                             Ipc/Channel/Calls and Ipc/Handle/Calls are the module `syscalls`.
--   src/timer.rs              Timer: the limit of timer ticks of the process in user mode;
--                             Timer/Globals: the public functions.
--   src/syscall.rs            Syscall: the arguments of a system call and the checks on them;
--                             Syscall/Calls and Syscall/Messages: one function for each branch of
--                             `rust_syscall_handler`, and the handler; Syscall/Assembly: the entry
--                             `asm_syscall_handler`, as instructions, and `init`.
--   src/interrupts.rs         Interrupts: the assembly of the two naked handlers, as instructions of a
--                             machine with registers and memory; Interrupts/Handover: `handle_switch`
--                             and the stack of src/gdt.rs on which the processor enters the kernel;
--                             Interrupts/Table: the table of handlers and the keyboard's handler.
--   src/gdt.rs                Gdt: the checks on a jump to user mode and the jump, on that machine.
--                             Gdt/Selectors: the segments of the descriptor table.
--   src/cpu.rs                Cpu: the data of each CPU, the CPU manager, the kernel stacks.
--   src/memory.rs             Memory: the frame allocator and the translation of addresses;
--                             Memory/Pages: `map_user_page` and the user bits of the tables.
--   src/memory/scalable.rs    Memory/Scalable: regions and statistics; Memory/Scalable/PerCpu: the
--                             allocator of a CPU; Memory/Scalable/Manager: the global manager;
--                             Memory/Scalable/Pages: `IpcPageTableOps`.
--   src/allocator/fixed_size_block.rs
--                             Allocator: the heap's free lists, linked through memory.
--   src/allocator.rs          Allocator/Heap: `init_heap`.
--   src/vga_buffer.rs         Screen: the writer, and the buffer for the serial port.
--   src/testing.rs            Testing: a test case and its run; Testing/Suite: suites; Testing/Registry:
--                             the registry and `run_all_tests`; Testing/Assertions: the macros.
--   src/testing/boot_check.rs Testing/Boot: the checks at start-up.
--   src/main.rs               Startup: the decision on the boot checks, the user pages and `init_tasks`.
--
-- The timer interrupt saves a `ProcessContext` that the scheduler's processes point to, a new process
-- gets one from Process/Creation, and the page table of a new process is walked by the translation of
-- Memory. The jump to user mode starts the limit of the timer. The memory manager asks the heap.
--
-- The system calls use the scheduler, the channels and the handles; the timer kills processes in the
-- scheduler; all of them use the errors. A global behind a lock is an argument of the operations on
-- it and comes back in their results. The record `Kernel` of Syscall/Calls holds all of them. The start-up
-- runs the tests of the framework, makes two processes and puts them into the scheduler; the timer
-- interrupt asks the scheduler for the context to resume, and then counts the tick.
--
-- Conventions: a machine word is a natural number, with its bound written where it matters. `none` as
-- the result of an operation is a panic (an overflow of checked arithmetic, or an address that the
-- x86_64 crate refuses), and `Result` is the source's `Result`. Printed text is left out, except for
-- what `sys_write` prints. A loop is structural recursion on the list it walks over; the loop of
-- `cleanup_process_handles`, which removes by index, is recursion on fuel, one unit for each handle
-- and one more. The address of a page table, the offset of physical memory plus a frame, is taken
-- without the panic of `VirtAddr` past the canonical addresses: no frame is mapped there.
--
-- Parameters stand for code of other crates: which numbers `VirtAddr::new` and `PhysAddr::new`
-- accept, the sum of an address and a number, the indexes of an address and the frame of a page
-- table entry, its mapper, the descriptor table and the selectors that `Star::write` accepts, which
-- bytes are UTF-8, which layouts are valid, the fallback allocator of the
-- heap, and the queue and the waker of the keyboard, as interfaces with laws. Instances of the
-- arguments in the tests are concrete functions. Memory is a function from an address, to a byte
-- for the buffers of system calls, and to a word of 8 bytes for contexts, page tables and free
-- lists. What a called function does to the machine is an argument of the interrupt handlers.
--
-- A test function of src/testing.rs is a function on the clock of the tests and on the rest of the state,
-- which is a parameter; a test that panics halts the kernel, and has no result. The suites of src/tests
-- are an argument of the boot checks.
--
-- Not modelled: device ports and the serial line (src/serial.rs, the ports of the keyboard), the
-- descriptors of the x86_64 crate, the exception handlers, which print and halt, the futures of
-- asynchronous tasks, what the keyboard task prints, the bytes of the user programs and the printing of
-- the start-up (src/main.rs), the test functions themselves (src/tests), and src/task, which no module
-- declares and the build leaves out.
pub mod Prelude
pub mod Error
pub mod Process
pub mod Scheduler
pub mod Ipc
pub mod Timer
pub mod Syscall
pub mod Interrupts
pub mod Gdt
pub mod Cpu
pub mod Memory
pub mod Allocator
pub mod Screen
pub mod Tests
pub mod Testing
pub mod Startup
