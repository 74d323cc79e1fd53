-- ===== src/Lib.antt =====
-- The kernel of the repository: its page allocator, heaps, scheduler, processes, mutexes, semaphores,
-- pipes, sleeping processes, keyboard, mouse, clock, terminal buffer, screen, texts and system calls;
-- the packer and loader of its modules; and of its programs the shell, the editor and the two of
-- Userland/dummy/dummy.c. Paths are from the repository's root.
--
-- Numbers are the native ones. A C `int` is its bit pattern below 2 ^ 32 (Base/Int32), a pointer is
-- an address with NULL as 0, and memory is typed: a function from an address to the slot, process,
-- thread or text that lies there. The kernel runs with identity-mapped memory, so a read through NULL
-- is a read of what lies at 0.
--
-- Base          lists, Boolean tests, updates, 32-bit patterns, windows of circular arrays
-- Buddy         Kernel/buddyAllocator.c: `Buddy` is `buddyArray`; `get_next_page` is
--               `getNextPageRecursive` by the levels left; `halvings` is the loop of `getLevel`, where
--               as many rounds as pages are enough; `free_up` is `freeUpRecursive`, where as many
--               rounds as the node's number are enough. Level, Search, Alloc, Requests, Create
--               and Faults hold the proofs
-- Scheduler     Kernel/scheduler.c: `Sched` holds `current`, `cardinal_processes` and the memory that
--               the ring lies in. The endless search of `schedule` gets as many rounds as there are
--               processes, and `none` says that none of them is ready
-- Heap          Kernel/malloc.c: `Heap` holds the headers of the blocks, `kernelBase` and `heapBase`.
--               Sizes
--               have 32 bits, as `size_t` has. A heap is a row of areas (Chain); Take, FirstFit, Find
--               and Free hold the proofs. Loops along `next` are on fuel, and one round for every
--               block and one more are enough
-- Processes     Kernel/process.c, Kernel/threads.c and the rest of Kernel/scheduler.c over the heap:
--               Spawn has the beginning and end of threads, where `Machine` adds the stack frames;
--               `get_process` is `none` where a page is NULL and its writes would overlap at 0.
--               `remove_process` returns whether it ends in `_yield`. The loop of `nextThread` is on
--               fuel, and ten rounds are enough; `killAllExceptCurrent` has fuel for the slots
--               it passes
-- Run           code that may give up the processor in `_yield` and goes on in a later world
-- Mutex         Kernel/mutex.c and Kernel/asm/lock.asm over the scheduler: `World` holds the mutexes,
--               the scheduler and the texts that names point to
-- Semaphores    Kernel/semaphores.c: `System` is a `World` with the semaphores; code of the mutexes is
--               run in it by `lift`. Count, Wait, Signal and Create hold the proofs
-- Pipes         Kernel/IPC.c: `System` is a `World` with the pipes and their names; Names has the table
--               of pipes, Fifo takes a pipe as a bounded queue, Calls adds the mutex, Faults the ends.
--               The search of `freeSpace` ends with the pipes of the process, `none` beyond
-- Sleep         Kernel/interrupts.c, the table of sleeping processes: `tick_loop` is the loop of
--               `timerTickHandlerC`, where every round moves on or shortens the table, so as many
--               rounds as entries are enough
-- Terminal      Kernel/terminal.c; calls of Kernel/video.c are recorded in order
-- Keyboard      Kernel/keyboard.c over the terminal: Table is `kbd_EN`, Keys has the handler under any
--               codes. What lies outside the table is a parameter
-- Screen        Kernel/video.c: `Screen` holds the cells, the cursor and the selection. The loop of
--               `lineJump` is on fuel; a line of steps is enough for a start column on the screen
-- Console       Kernel/naiveConsole.c: `uint_to_base` and its callers; 64 rounds are enough for the
--               digits of 64 bits, and as many rounds as digits for turning them
-- SystemCalls   Kernel/systemCalls.c: the calls on the screen and the terminal, the table of calls, and
--               the calls that hand on their arguments (Services), against the functions of
--               Userland/dummy/stdio.c by which programs make them (Library, Programs)
-- Interrupts    Kernel/interrupts.c, the table of descriptors; the addresses of the handlers are given
-- Mouse         Kernel/mouse.c, the handler: Bounds has where the mouse can be, Packets where it goes
-- Clock         Kernel/rtc.c over the memory of bytes
-- Text          Kernel/stdio.c: `strcmp` and `strcmpN`
-- Printing      Kernel/stdio.c: `put_number`, `print_ff` and `scan_ff`; what is printed, and what the
--               keyboard gives, are lists of characters
-- Memory        Kernel/lib.c: a memory is a function from addresses to bytes
-- Modules       Toolchain/ModulePacker/main.c and Kernel/moduleLoader.c: a file is the list of its
--               bytes, and the image that is built is what lies behind the kernel when it is loaded
-- Philosophers  Userland/dummy/dummy.c: five philosophers as a relation of steps, one for what lies
--               under the mutex and one for `wait`; Forks and Meals hold the invariant, Pointers the
--               semaphores that `createThreads` hands on, Parameters the parsing of arguments
-- Market        Userland/dummy/dummy.c: producers and consumers, where each call of `wait` and `signal`
--               is a step of its own, and `control` with the pids it keeps
-- Shell         Userland/SHELL/shell.c: what a line makes the shell do is the list of its system calls
--               and texts. Background compares the two parsers, Words has what they read of the buffer
-- Editor        Userland/EDITOR/editor.c; as many rounds of its loop as characters are enough
--
-- Not modelled: interrupts between the statements of one function, writes to ports, the registers of
-- the machine beyond a new stack frame, the third-party boot loader, and the components that
-- PROJECT.json lists as such.
pub mod Base
pub mod Buddy
pub mod Clock
pub mod Console
pub mod Editor
pub mod Heap
pub mod Interrupts
pub mod Keyboard
pub mod Market
pub mod Memory
pub mod Modules
pub mod Mouse
pub mod Mutex
pub mod Philosophers
pub mod Pipes
pub mod Printing
pub mod Processes
pub mod Run
pub mod Scheduler
pub mod Screen
pub mod Semaphores
pub mod Shell
pub mod Sleep
pub mod SystemCalls
pub mod Terminal
pub mod Text
