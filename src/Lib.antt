-- ===== src/Lib.antt =====
-- Hurlex II is a small kernel for 32-bit x86 machines. This library models its memory management, its
-- tasks and scheduler, its drivers for keyboard, console and disk, its tables of segments and
-- interrupts, its file systems as far as they go and its formatted output, and proves what makes them
-- correct.
--
-- The parts, and the files that model them:
--   Links      include/lib/list.h: circular doubly linked lists, as a store of the `next` and `prev`
--              pointers of every node (struct list_head). Links/Ring says what a list is; Links/Ops and
--              Links/Splice are about the operations. The allocators and the tasks keep such lists.
--   Slob       mm/slob.c: kmalloc and kfree over one list of blocks, with their headers as functions of
--              the address (slob_block_t). Slob/Tiles is the invariant: the blocks tile the heap.
--   Pmm        arch/i386/mm/pmm.c and pmm.h: the memory map of the boot loader, the array of pages, and
--              the conversion of addresses and pages. A page_t pointer is the index of the page.
--   FirstFit   mm/ff_mm.c: the first-fit allocator of pages (ff_page_init, ff_alloc_pages,
--              ff_free_pages). FirstFit/Blocks is the invariant: the free list as runs of pages.
--   Buddy      mm/buddy_mm.c: the buddy allocator (buddy_page_init, buddy_alloc_pages,
--              buddy_free_pages). Buddy/Blocks is the invariant: eleven lists (Buddy/Rings) of marked
--              blocks without a common page; Buddy/Split, Buddy/Alloc and Buddy/Whole are about
--              allocation, Buddy/Rounds and Buddy/Boot about the test that ends buddy_page_init.
--   Vmm        arch/i386/mm/vmm.c and vmm.h: page directory and page tables (vmm_init, map, unmap,
--              get_mapping).
--   Pid        arch/i386/task/task.c: the bit map of process ids (alloc_pid, free_pid).
--   Task       arch/i386/task/task.h: the state that Sched and Fork share: tasks by their address, the
--              list of them, the process ids, and the task that runs.
--   Sched      kernel/sched/sched.c: schedule and wakeup_task. Sched/Walk is its walk over the list,
--              Sched/Fair that no task starves.
--   Fork       arch/i386/task/task.c: task_init, do_fork, kernel_thread, find_task, do_exit, cpu_idle.
--   Keyboard   driver/kboard.c: the key tables, the control bits, the circular queue, and the interrupt
--              handler.
--   Console    arch/i386/driver/console.c: the scroll-back buffer and the screen memory.
--   Printk     kernel/printk.c: skip_atoi and number.
--   Format     kernel/printk.c: vsprintf. Format/Fields is about the parts of a directive.
--   Registry   driver/char_dev.c, driver/block_dev.c and fs/vfs.c: add_char_dev, add_block_dev and
--              add_filesystem, and strcmp of lib/string.c over lists of bytes.
--   Strings    lib/string.c: memory as a function from addresses to bytes, and all the functions.
--              Strings/Texts says what a text in memory is; Strings/Copies is about copying one.
--   Ports      arch/i386/include/common.h, arch/i386/driver/pic.c and clock.c: port output as a list.
--   Gdt        arch/i386/mm/gdt.c: the segment descriptors; Gdt/Descriptors is how they are read.
--   Intr       arch/i386/intr/intr.c: the gates, the table of handlers and their calls.
--   Syscall    arch/i386/syscall/syscall.c and kernel/errno.c: the calls by number, and strerr.
--   Ide        driver/ide.c: the disk as what it answers to reads of its status port and of its data;
--              Ide/Wait is the wait for it, Ide/Command its registers, Ide/Transfer and Ide/Request
--              the reading of sectors, Ide/Ident what ide_init finds out.
--   Mbr        fs/mbr.c: the partition table, which is read through the request of a disk.
--   Sfs        fs/sfs/sfs.c: the search of the partition and the layout of the file system on it.
--   Vfs        fs/vfs.c, fs/ramfs/ramfs.c and include/fs.h: the structures, taken from the heap of Slob,
--              and vfs_init, with the lists of Links and the registry of file systems.
--   Debug      arch/i386/debug/debug.c and arch/i386/mm/fault.c: the symbols of the kernel.
--   Base       what they share: tests on numbers, lists, 32-bit arithmetic, single bits and masks.
--
-- How the code is modelled. State is passed and returned: a record has the variables of a C file, and a
-- function of the library is named as the function of the code that it translates, or, where it is
-- a loop or a part of one, says so. Pointers are natural numbers, arrays and memory are functions of an
-- index, and a list is read off the links. Words of 32 bits wrap where the code may add or subtract
-- beyond them; counts and coordinates that stay far below are added without. A failed assertion
-- or a panic is `none`, and so is a mount tree of structures that overlap, which the model's stores do
-- not show; where the disk is waited for, a call that
-- panics, one that waits for ever and one that returns are three outcomes.
--
-- Bounds and fuel. A loop over a list runs on fuel, since the links alone do not say that they lead
-- back to the head; the theorems ask for more fuel than the list has nodes and show that it
-- suffices. The loop over the pages of a region is shown to end with fuel for each of its pages; the
-- buddy allocator's set-up needs a round for each page and order; the
-- digits of a word need 32 rounds, and a format one for each of its characters. A loop up to a null
-- byte has fuel for the bytes of the text and one more. A wait for the disk recurs on the list of its
-- status bytes, and ends if one of them says that it is ready. The other loops have the bounds of the
-- code.
--
-- Not modelled: the red-black tree (lib/rbtree.c, a copy of the one of Linux that nothing calls);
-- assembly and boot code (init, arch/i386/init); the switch of stacks, which is the change of the
-- current task; the flag that turns interrupts off around short sections, which makes each modelled
-- operation one step; the names of tasks and their open files; what only prints. The disk is not
-- code of the kernel: it stands as the bytes and double words that it answers with, which are arbitrary.
-- The simple file system's operations on maps, inodes and blocks have no body in the code.

pub mod Base
pub mod Buddy
pub mod Console
pub mod Debug
pub mod FirstFit
pub mod Fork
pub mod Format
pub mod Gdt
pub mod Ide
pub mod Intr
pub mod Keyboard
pub mod Links
pub mod Mbr
pub mod Pid
pub mod Pmm
pub mod Ports
pub mod Printk
pub mod Registry
pub mod Sched
pub mod Sfs
pub mod Slob
pub mod Strings
pub mod Syscall
pub mod Task
pub mod Vfs
pub mod Vmm
