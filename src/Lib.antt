-- ===== src/Lib.antt =====
-- Shadestia OS is a small 32-bit x86 kernel: string.c and io.h are the ground that every file
-- stands on; heap.c is the dynamic allocator of tasking.c, ramfs.c and rtl8139.c; paging.c sets
-- the page tables up; idt.c fills the interrupt table, and its two handlers pass an interrupt on
-- to syscall.c, to the page fault handler of paging.c, or to the routine that a driver has
-- installed; pic.c programs the two interrupt controllers; pci.c looks for devices; mouse.c is a
-- driver that an interrupt feeds with bytes; rtl8139.c drives the network card that pci.c finds;
-- serial.c writes to the serial port; tasking.c keeps the tasks and switches between them; net.c
-- builds an ARP request for the card; ramfs.c keeps files in blocks of the heap; shell.c
-- collects the keys of a line and runs the command that it names, on all of these.
--
-- The files:
--
--  * Base (Tests, Lists, Copy, Bits, Table, Int, Text): Boolean tests, lists, the operators `&`,
--    `|`, `~`, signed numbers, texts as bytes; Copy is the loop that copies bytes.
--  * Io: io.h. A routine that uses ports is a state transition on the log of accesses; what a
--    read gives is a parameter, a function of the accesses before it.
--  * Terminal: the calls that the kernel makes of its terminal, which is not in the repository.
--  * Heap: heap.c. `heap_init`, `kmalloc`, `kfree`, `heap_get_stats`, `heap_get_base` under their
--    names; the loop of `kmalloc` is `kmalloc_loop`, its two halves `split` and `occupy`;
--    `coalesce` is `coalesce_loop`. Heap/Layout has the abstract view, a list of blocks; Align,
--    FirstFit, Release, Free and Return relate the code to it; Blocks has the blocks in use;
--    Malloc, Session, Totals and Client say what callers rely on; Samples has a heap for tests.
--  * String: string.c. The printers give the bytes that they pass to the terminal. Compare and
--    Print hold the proofs; Range is memory that holds a list of bytes.
--  * Paging: paging.c, over a memory of words. Walk is the processor's reading of the tables;
--    Init is about `paging_init`. `paging_identity_map_region` is here without its prefix:
--    Identity, Page and Extra are about one round, Region about the whole, Wrap about the end of
--    the address space.
--  * Idt: idt.c, and the page fault handler's calls from paging.c. Gates reads the table back as the
--    processor does; Dispatch is about `irq_handler` behind any installations. A store or a read
--    outside the array of routines has no result.
--  * Syscall: syscall.c, with the registers that it reads and writes. Results holds the proofs.
--  * Pic: pic.c. Remap replays the writes on a model of the chip; Mask is about the
--    masks, Deliver about the vectors on which the lines arrive.
--  * Pci: pci.c, its functions without the prefix `pci_`. Address and Find hold the proofs.
--  * Mouse: mouse.c, its functions with or without the prefix `mouse_`. Packet is about the
--    bytes, Screen about the status line.
--  * Rtl8139: rtl8139.c. Init is about the start of the card, Receive about the receive ring,
--    Send about a frame's way to the card.
--  * Tasking: tasking.c, over Heap. Listing has `tasking_list`. Ring reads the circular list as a
--    list; Reap and Schedule are about a turn of the scheduler, Linked and Create about a new
--    task, Exit and Freed about a finished one, Reuse about its block as a new task's; Circle has
--    what the list keeps as the tasks take turns. A call ends in its caller or in a switch to
--    another task's stack.
--  * Switch: `switch_to` of low_level.S, and with `perform` what it makes of the end of
--    `schedule`. Resume is about a task that goes on, Frame and Start about one that begins,
--    Turns and Rounds about the ticks of the timer, against an abstract scheduler; Moves and
--    Cycle follow the registers and the stacks through the turns; User has `enter_usermode` and
--    `return_to_kernel`.
--  * Serial: serial.c. Output is about what goes over the line.
--  * Net: net.c. Frame is the request byte by byte, Request its way to the card.
--  * Ramfs: ramfs.c, over Heap and a memory of bytes. The body of `ramfs_write` is `open_file`
--    and `fill_file`. Store has the abstract view, a map from names to bytes, and what it means
--    that the table holds it; Lookup is about the searches, Buffer, Fill and Write about a write,
--    Delete about a deletion, Session about sequences of calls.
--  * Commands: the commands of shell.c, `cmd_help` to `cmd_reboot`, each giving its calls of the
--    terminal; Alloctest has `cmd_alloctest`, Machine the commands on devices. Strings and Texts
--    are about `cat`, `write` and `rm`, Report and Alloc about `alloctest`.
--  * Shell: the rest of shell.c. The chain of `shell_execute` is `run_command`, the keys other
--    than Enter are `type_char`. Editor is about the buffer, Split about `split_command`, Enter
--    about a whole line, Files about a line that writes a file. Sound says when the state of the
--    kernel is in order, Commands that every command keeps it, Session that any keys do.
--  * Each component's Tests applies its theorems to concrete data.
--
-- A name of a file and the word that names a command are taken by their bytes, once they have
-- been read from memory up to the 0; what a file holds, and the arguments of a command, stand at
-- addresses. The memory of bytes, the heap's headers, the tasks and the words of the stacks are
-- functions of their own: a store of one over another, as behind the end of a block, is not
-- modelled. A byte of a line is a number, not cut to eight bits.
--
-- Numbers are natural numbers, with C's wrap-around written out as a remainder where the code
-- can reach it; `int` positions of the mouse are integers of their own. A pointer is its
-- address, and `NULL` is 0. The heap's memory is a function from addresses to headers, as the
-- code writes a header by its fields at one address, and no theorem needs the bytes between; the
-- tasks are a function from addresses likewise; that the headers lie apart is part of the
-- well-formedness that the theorems keep.
--
-- Loops without a bound in the code run on fuel, and `none` is running out of it: the loops of
-- the heap have `HEAP_SIZE` rounds, more than the zone has room for headers, the search for the
-- next task takes its number of rounds as a parameter, and more of them than there are tasks are
-- enough; `strlen` and `strcmp` have 2^32 rounds, the digits of a number have 11, and the region
-- mapper has as many rounds as there are pages. That they end is part of the theorems about the
-- heap, the scheduler, the strings, the printers, the files and the shell. The waiting loops of
-- mouse.c and rtl8139.c have the code's own bounds; `serial_putc` and the reset of the shell
-- poll for ever in the code, and their number of polls is a parameter; so are the rounds of
-- `tasking_list`, where more than there are tasks are enough; the loops of `split_command` have
-- 128 rounds, one for each byte of the buffer.
--
-- Not modelled: low_level.S but for `switch_to`, `enter_usermode` and `return_to_kernel`; the
-- stubs of the interrupts are addresses here; linker.ld, whose symbol `kernel_end` is a
-- parameter; the terminal, the VGA colours, graphics, keyboard and timer, which are not in the
-- repository; `cli`, `hlt` and the loads of control registers but for CR0 and CR3; the effects
-- of device registers. The function that `task_trampoline` calls is a parameter. A routine of a
-- driver and a task between two ticks are taken to come to their end; in the runs of ticks a
-- task makes no other calls of the scheduler. What the timer and the graphics code return, and
-- the place of a frame on the stack, are fields of the shell's state.

pub mod Base
pub mod Commands
pub mod Heap
pub mod Idt
pub mod Io
pub mod Mouse
pub mod Net
pub mod Paging
pub mod Pci
pub mod Pic
pub mod Ramfs
pub mod Rtl8139
pub mod Serial
pub mod Shell
pub mod String
pub mod Switch
pub mod Syscall
pub mod Tasking
pub mod Terminal
