-- ===== src/Lib.antt =====
-- The fors kernel: a model of its data structures and of the code that keeps them, and what is
-- proved of it.
--
-- The parts of the kernel and the files that model them:
--   kernel/src/generic/proc/thread.c: Sched. The scheduler's ring of process numbers; Sched/Fifo
--     sets it against a bounded queue, Sched/Abstract is its abstract state, Sched/RoundRobin is about
--     repeated calls of `schedule`.
--   kernel/src/generic/forslib/string.c: Str and its children. An object in memory is a list of
--     bytes and a pointer into it is what is left of the list from there on.
--   kernel/src/generic/fs/vfs.c: Vfs (the arrays of nodes, links, open files and mounts), Vfs/Slots
--     (permissions and searches for free slots), Vfs/Links (`add_child`, `del_child`), Vfs/Lookup
--     (`get_node` and the like) and Vfs/Walk (paths). Vfs/Fields, Vfs/FieldWalk and Vfs/Resolve set
--     the walk along a path against a walk over its fields.
--   kernel/src/generic/fs/fsops.c: Vfs/Fsops. Vfs/Refs, Vfs/Filling, Vfs/Paths, Vfs/Counting,
--     Vfs/Close and Vfs/OpenClose are about the reference counts of the nodes.
--   kernel/src/generic/fs/test.c: Testfs, one filesystem type; what the others ask of a type is the
--     record `FilesystemType` of Vfs.
--   kernel/src/generic/fs/sys.c and kernel/src/generic/syscall.c: Sys, the system calls, which use
--     Vfs/Fsops through the file descriptors of a process; Sys/Isolation is about the others,
--     Sys/Descriptors about its own.
--   kernel/src/generic/printk.c: Printk (the parser of conversions), Printk/Numbers (the printers of
--     numbers) and Printk/Output (the loop of `printk`); Printk/Roundtrip is about the parser, Printk/Rendering
--     reads a format as pieces.
--   kernel/src/arch/x64/memory/phys.c: Frames, the list of free page frames.
--   kernel/src/arch/x64/memory/virt.c: Paging (the tables, `map_page_4k` and `map_lookup`) and, with
--     api.c beside it, Paging/Api (`vmap` and the like). Paging/Levels is the invariant, Paging/Enter
--     a level of the walk, Paging/Walk the walk, Paging/Stages and Paging/Mapping the whole of
--     `map_page_4k`, Paging/Fresh its success, Paging/Others what it leaves alone.
--   kernel/src/arch/x64/memory/gdt.c: Gdt, the segments; Gdt/Segments is about what they mean.
--   kernel/src/arch/x64/memory/init.c and kernel/src/arch/x64/init.c: Start, which puts Uart, Frames,
--     Paging, Gdt, Idt, Heap and Pic together. kernel/src/generic/main.c: Start/Main, which puts all
--     together; Start/Main/First is about the process it starts.
--   kernel/src/arch/x64/thread/process.c: Procs, the page tables and the making of a process.
--   kernel/src/arch/x64/io/io.c: Ports, the interface to the devices. Over it kernel/src/arch/x64/ata.c:
--     Ata (Ata/Disks is its type of store), kernel/src/arch/x64/int/pic.c: Pic, and kernel/src/arch/x64/uart/uart.c: Uart.
--   kernel/src/arch/x64/int/idt.c: Idt, which joins Timer, Sched, Sys and Pic; Idt/Gates is about the
--     table and Idt/Switches about ticks.
--   kernel/src/generic/heap/buddy_util.c: Heap, the free lists of the buddy allocator;
--     kernel/src/generic/heap/balloc.c and bfree.c: Heap/Alloc. Heap/Alloc/Rounding is about the order for a
--     size, Heap/Alloc/Fitting and Heap/Alloc/Giving are about what `balloc` returns.
--   kernel/src/generic/timer.c: Timer.
--   kernel/src/generic/store.c: Store, the cache of blocks; Store/Cached and Store/Full are about a
--     block that is there and one there is no room for.
--   kernel/src/generic/fs/ext2.c: Ext2, over Store; Ext2/Place is about the place of an inode,
--     Ext2/Nodes about the node that is filled, and Ext2/Stubs has the operations that do nothing.
-- Prelude holds what they share; Tests holds runs at concrete inputs.
--
-- Functions have the names they have in the code, less the leading underscores of the system calls.
-- Code that changes state takes the state and returns the new one with its result. `Run` is the
-- result of code that may go wrong: `fault` where the code reads or writes outside an object, follows
-- a null pointer, panics or does what C leaves undefined. A pointer into a static array is an index,
-- a pointer to a frame or a block is an address, and NULL is `none` or 0. Numbers are natural numbers
-- with the wrap-around written out where the code can reach it, or integers where the code has
-- negative ones.
--
-- Loops whose end is not plain from the code run on fuel, and spend it as `out_of_fuel`. The walk
-- along a path has a round for each byte; each round goes on by one byte at least. The search of a
-- directory's links has a round for each link there is, and one more. The parser of conversions has
-- a round for each byte and six for the moves between its states. The loops over the free frames
-- have a round for each frame, and one more. The loop of `printk` has a round for each byte, and one
-- more. The loops that map a range have a round for each page of it, and two more. The disk driver's
-- waits have the million rounds that the code gives them. The serial port's waits have none in the
-- code: their rounds are an argument, and a device that is not ready in time spends them.
-- The loop of `bfree` has 33 rounds, one for each order and one more.
--
-- What a device, a filesystem type or `kalloc` gives is an argument of the code that uses it. A
-- store type's operations are functions on the state of the devices, and the callbacks of the timer
-- are numbers. `balloc` shifts an int by 32 or more, which C leaves undefined; what it gives is an
-- argument. A device behind ports is a record of what reading and writing a port does to its state.
-- Which physical address the processor reaches at a virtual one is a function; the boot loader's
-- mapping of the memory is a hypothesis on it, `IsDirectMap`. An entry of a page table stands by
-- its page and its index, and the links between free frames are kept apart from the entries.
--
-- Not modelled: what the kernel prints as it goes, though `printk` itself is; the stubs of the
-- interrupts and the loading of the processor's tables, which are assembly; kernel/limine.h, which
-- is another project's.
pub mod Prelude
pub mod Sched
pub mod Str
pub mod Vfs
pub mod Sys
pub mod Testfs
pub mod Printk
pub mod Frames
pub mod Timer
pub mod Store
pub mod Heap
pub mod Paging
pub mod Ports
pub mod Pic
pub mod Ata
pub mod Uart
pub mod Procs
pub mod Start
pub mod Ext2
pub mod Gdt
pub mod Idt
mod Tests
