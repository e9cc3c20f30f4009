-- ===== src/Lib.antt =====
-- The marimba kernel: its lists and sorting, the processes and interrupts, the memory manager, and
-- the drivers of the keyboard, the serial port, the text display, the PCI bus and the disk, and its files.
--
-- Parts, and how they interact. The linked lists (src/list.c) carry the queues of processes. An
-- interrupt runs src/arch/x86_64/interrupts.c, which calls a handler and then switches processes if
-- the scheduler (src/proc.c) picked another one. The drivers block processes on queues and wake them
-- from their handlers. The memory manager (src/mmu.c) gives out physical frames, and virtual pages
-- that the page tables (src/arch/x86_64/paging.c) mark for allocation on demand; a page fault then
-- takes a frame. The pools of src/kmalloc.c take their blocks from those pages.
--
-- Files and sources, with C names in snake case:
--   LinkedList          src/list.c, src/list.h: headers in a memory; Ring is the shape of a list
--   Sort                src/utils.c: the sort over a memory of words, and its two users
--   Serial              src/drivers/serial/x86.c and serial.c: the output buffer as a queue
--   Ps2                 src/drivers/keyboard/ps2.c and keyboard.c: decoding, buffer, readers; Layout is
--                       the US keyboard that the table of keys is compared with;
--                       Controller is the ports, ps2_init, opening and closing
--   Vga                 src/vga.c: cursor, cells, scrolling
--   Interrupts          src/arch/x86_64/interrupts.c: nesting, masks, handler table; Pic is the two
--                       controllers at their ports
--   Start               HW_init of src/arch/x86_64/hw_init.c, IRQ_x86_64_init, and the serial port's
--                       set-up, which Serial.Ports holds
--   Proc                src/proc.c, src/syscall.c and the end of IRQ_generic_isr; System is the
--                       processes with two devices that they block on, step by step. Each process has
--                       the interrupt flag that it saved, which iretq loads
--   Mmu                 src/mmu.c: Frames, Heap and Stacks are its three allocators, Excluded
--                       the segments that the kernel occupies, Free the segments of RAM without them
--   Paging              src/arch/x86_64/paging.c: walks, faults, PT_demand_allocate, PT_free; Identity is
--                       PT_init. The frames that it takes are a list
--   Pages               src/mmu.c and paging.c on one memory: the same with MMU_alloc_frame, and
--                       MMU_free_page, MMU_free_pages, MMU_free_stack and MMU_init
--   Kmalloc             src/kmalloc.c: Pools are its free lists, over the pages of Mmu
--   Printk              src/printk.c: numbers in a buffer, the format loop, the two displays; Klog is
--                       src/klog.h
--   Ata                 src/drivers/disk/ata.c: requests, interrupt, reads and the probe
--   Pci                 src/drivers/pci.c: configuration reads and the search for devices
--   Fs                  src/fs.c: block devices and their partitions, files of character devices;
--                       Chars is its lists as they start; Startup is src/procs/fs.c
--   Boot                src/boot.c and src/elf.c: what the boot loader leaves in memory
--   Context             src/arch/x86_64/proc.c: saved registers; Entry is how a new process starts
--   Gdt                 src/arch/x86_64/hw_init.c: segment descriptors, TSS
--   Fat                 src/fs/fat.c: the boot sector, the table and the clusters that are read
--   Io                  the ports: the history of what was read and written
--   Strings             src/string.c: bytes in memory
--   Base                tests, list lemmas, circular buffers and bits that these share
-- Each folder's Tests runs the code on small inputs.
--
-- The hardware behind a port is a parameter of the model: any function from the history of reads and
-- writes to the value that is read.
--
-- Where C leaves the outcome open, so does the model: the swap of overlapping entries in Sort is a
-- parameter, and a name written behind its memory (Fs) or a read that leaves its request on a dead
-- stack (Ata) ends a run without a state.
--
-- State is explicit: a record for a C struct, a function from addresses for memory, a list for what
-- goes out of a port. Machine words wrap where the source can reach the bound (Vga, Mmu); elsewhere a
-- hypothesis or an invariant keeps the numbers small. Every loop is a structural recursion over a
-- count or a list that the source fixes, and the walk through a list takes the number of its headers
-- as fuel, which `Ring` gives. The searches for a string's terminating zero in Strings take fuel, and
-- return nothing where it does not suffice; so do the loops over the
-- free segments in Mmu.Free and over the tags in Boot, and the waits for the disk in Ata
-- and for the keyboard controller in Ps2. The buffer of
-- a printed number holds the digits of any 64-bit word, which Printk.Numbers shows.
--
-- Not modelled: inline assembly and the assembly files; src/kmain.c, the
-- other processes under src/procs/, the scripts and the tests, which only call the rest; and, so far, the
-- directories on a disk.
pub mod Ata
pub mod Base
pub mod Boot
pub mod Context
pub mod Fat
pub mod Fs
pub mod Gdt
pub mod Interrupts
pub mod Io
pub mod Kmalloc
pub mod LinkedList
pub mod Mmu
pub mod Pages
pub mod Paging
pub mod Pci
pub mod Printk
pub mod Proc
pub mod Ps2
pub mod Serial
pub mod Sort
pub mod Start
pub mod Strings
pub mod Vga
