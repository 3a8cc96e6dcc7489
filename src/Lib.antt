-- ===== src/Lib.antt =====
-- A model of Bikeshed64, a small x86-64 operating system with its user programs, and theorems
-- about it.
--
-- The parts of the program and the files that model them:
--   Machine         what the C code runs on: 64-bit words at addresses, panic as a result
--                   (kernel/src/safety.h, kernel/src/arch/x86_64/panic.c)
--   Stack           kernel/src/kernel/data_structures/stack.c: the stack of free blocks
--   BlockAllocator  kernel/src/kernel/data_structures/block.c: blocks of one size
--   Queue           kernel/src/kernel/data_structures/queue.c: queues and ordered insertion
--   Addresses       the address macros of kernel/src/arch/x86_64/virt_memory
--   MemoryMap       kernel/src/arch/x86_64/virt_memory/physical.c: get_total_usable_ram
--   DirectMap       the same file: phys_memory_init and create_paging_structures
--   PhysAlloc       kernel/src/arch/x86_64/virt_memory/phys_alloc.c: 2 MiB chunks, 4 KiB pages
--   Klib            kernel/src/kernel/klib.c: memclr and memcpy on whole words; Klib/Bytes: memclr,
--                   memset and memcpy on bytes; Klib/Fill, Klib/Copy: what they
--                   leave of a block
--   Paging          kernel/src/arch/x86_64/virt_memory/paging.c: the page tables
--   Scheduler       kernel/src/kernel/scheduler/scheduler.c: ready and sleep queues, dispatch;
--                   Scheduler/Init: scheduler_init; Scheduler/Start: create_init_process
--   Elf             kernel/src/kernel/elf/elf.c: the loader of programs
--   Timer           kernel/src/arch/x86_64/interrupts/apic.c: the timer; Timer/Setup: apic_init
--   Interrupts      interrupts.c and tss.c beside it: gates, handlers, the task state segment
--   Pci             kernel/src/arch/x86_64/pci/pci.c: the configuration space (Pci), the headers
--                   of devices (Header, Devices, Config), the scan and the searches (Scan)
--   WaterMark       kernel/src/kernel/data_structures/watermark.c, kernel/src/kernel/alloc/alloc.c
--   TextMode        kernel/src/arch/x86_64/textmode.c: the console
--   Keyboard        kernel/src/arch/x86_64/keyboard/keyboard.c: scan codes and the ring
--   Syscalls        kernel/src/kernel/syscalls/syscalls.c: the calls and their interrupt
--   Kprintf         kernel/src/arch/x86_64/kprintf.c: numerals and formats
--   Tetris          programs/src/init/tetris.c: the rules of the game
--   Shell           programs/src/init/shell.c: the input line and the command
--   CString, Rand   programs/src/init/string.c and rand.c
--   Vga             programs/src/init/vga.c: the screen of the user programs
--   FancyCat        boot/FancyCat.c: the program that makes the image of the disk
-- Functions have the names of the C functions, in lower case. A part's file holds its state and
-- its operations, the files of its directory the proofs, and its Tests concrete instances.
--
-- How the parts interact: the memory map that get_total_usable_ram leaves is what
-- setup_physical_allocator cuts into chunks. These wait on a Stack; a 4 KiB page comes from a
-- pool, whose free pages are a Stack too. The page tables take their tables from the physical
-- allocator, whose state carries the memory that they are read from and written to. The
-- scheduler takes processes and queue nodes from two block allocators and keeps them in Queues.
-- phys_memory_init takes the room for its page tables from the memory map before the chunks are cut;
-- the water mark allocator maps its pages through the page tables. The keyboard turns the pages of
-- the console, which kprintf prints on; the system calls reach the scheduler, the page tables and the
-- keyboard; the shell prints through the user programs' own screen. The first process is a clone of
-- the kernel's address space, into which the loader maps the program behind the kernel's image; the
-- scan for PCI devices takes its nodes from the water mark allocator.
--
-- Interfaces. What is not in the repository's code is an argument, with what the code relies on as
-- hypotheses: the ports of the PCI bus and the linked list of devices, the registers of the local
-- APIC, what the processor reads at start, and the C library of FancyCat. The tests instantiate the
-- ports, the list, the registers and the library.
--
-- Conventions. Pointers are addresses, NULL is 0, and the kernel's memory is a function from
-- addresses to 64-bit words. uint64_t arithmetic is taken modulo 2 ^ 64 where it can wrap. A
-- function that may panic returns a Result; nothing runs after a panic. Out parameters are
-- results. The debugging output of the parts through kprintf is left out.
--
-- Bounds and fuel. Loops over a count recur on the count that is left. The walk of
-- queue_enqueue_prio and the choice of a process run on the size of the queue, the number of
-- nodes of its chain. The loop that cuts a region runs on the number of whole chunks in it. The
-- drop of a piece runs on 22 rounds, more than the 20 rows of the board. The loop of kprintf runs on
-- the length of the format, of which every round but the last takes a character, and the loop of
-- the water mark allocator on the large pages between the mark and the mapped memory. The loop of
-- dump_file runs on one round more than the file has bytes: every round but the last reads some.
--
-- Not modelled: the boot code and the sequence of the initialisers (assembly, calls only), the stubs
-- and handlers of interrupts (assembly, printing), the sound driver (device registers), the serial
-- port, the TLB, drawing, the linked list (third-party code), the functions that print PCI devices,
-- the banner of the shell, and the stubs of the system calls.
pub mod Prelude
pub mod Machine
pub mod Stack
pub mod BlockAllocator
pub mod Queue
pub mod Addresses
pub mod PhysAlloc
pub mod Scheduler
pub mod MemoryMap
pub mod DirectMap
pub mod Klib
pub mod Paging
pub mod Tetris
pub mod TextMode
pub mod Vga
pub mod CString
pub mod Rand
pub mod Shell
pub mod WaterMark
pub mod Keyboard
pub mod Syscalls
pub mod Kprintf
pub mod FancyCat
pub mod Pci
pub mod Elf
pub mod Timer
pub mod Interrupts
