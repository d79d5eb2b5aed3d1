-- ===== src/Lib.antt =====
-- Brainix, a UNIX-like operating system on a microkernel, in C.
--
-- The kernel (src/kernel) keeps a table of processes with a ready queue and passes messages between
-- them; the file system server (src/fs) is a process that answers messages and keeps a cache of
-- device blocks; the library (src/lib) is linked into both. This development models the parts of
-- the three that keep state of their own and decide something:
--
-- - Ring: the circular doubly linked lists that all of them are built from. Ring/Chain and
--   Ring/Queue relate the links to the list of the nodes; Ring/Walk is a walk once around.
-- - Process: src/kernel/process.c, the process table and the scheduler. `Procs` is the table, the
--   ready queue and the current process; each function has the name it has in the source.
--   Process/Valid has the invariant, Process/Sched, Process/RoundRobin, Process/Pid and
--   Process/Lifecycle what the operations do.
-- - Signal, Kill: src/lib/signal.c and src/kernel/signal.c, signal sets, the signal tables, sending
--   and the system calls. Waking a process is Process.proc_wakeup.
-- - Domino: src/kernel/domino.c, the record of the processes that each message has passed through.
-- - Message: src/kernel/message.c, mailboxes. `Mail` holds the messages, the rallies and the
--   processes, since sending grows a rally and wakes a process, and receiving puts one to sleep.
-- - Clock: src/kernel/clock.c, the calendar: how a time that has passed changes the date.
-- - Fildes: src/fs/fildes.c, the tables of file descriptors, with what do_fs_close of
--   src/fs/open.c does to them.
-- - Super: src/fs/super.c, the superblock table, whose entries are bytes as on the device.
-- - Block: src/fs/block.c, the block cache, which marks a superblock when it writes. Block/Store and
--   Block/Stored have the map that the cache and its devices stand for, Block/Flushed what is
--   on the device after dev_sync.
-- - Timer: src/kernel/timer.c, the tick, alarms and SIGALRMs. It replies to messages, sends signals
--   and updates the clock. Timer/Sorted has its lists as maps from keys to times.
-- - Malloc: src/kernel/malloc.c, the slab allocator. Malloc/Tiling has the invariant, that the slabs
--   follow each other without a gap; Malloc/Alloc and Malloc/Free have the operations.
-- - Inode: src/fs/inode.c and src/fs/group.c, the inode table over the block cache. Inode/Disk has
--   the places of inodes on the device, Inode/Table inode_get, Inode/Find block_find,
--   Inode/Accesses sequences of accesses to blocks.
-- - Perm: src/fs/perm.c, who may do what to a file. Device: src/fs/device.c, the table of drivers.
-- - Syscall: src/lib/unistd.c, src/kernel/syscall.c and the loop of src/fs/main.c, a system call on
--   files from the library to the file system and back. Syscall/Handler is src/fs/op_handler.c, which
--   nothing calls.
-- - Paging: src/kernel/paging.c, pages of memory and page directories. Paging/Space has what a
--   directory leads to, Paging/Map and Paging/Unmap how pg_map and pg_unmap change it.
-- - Path: src/fs/path.c and src/fs/search.c, from a path to an inode. Path/Components has the walk
--   along the components, Path/Search the entries of a directory, Path/Counts the users of inodes.
-- - Server: src/fs/link.c, dir.c, stat.c, time.c, and perm.c from the path on; Server/Open has open.c
--   and proc.c, Server/Rw read.c, Server/Disk and Server/Mount super.c, misc.c and mount.c.
--   Server/Calls puts the system calls on paths that open no file together, Server/Once mounting and unmounting.
-- - Service: the operations of Server as the interface of Syscall, and a system call from the
--   registers to the inode table.
-- - Str: src/lib/string.c, the functions on memory and strings.
-- - Base: shared names and lemmas.
--
-- A pointer is an index into its table, or an address; tables are functions from indices. The state
-- is passed explicitly, and an operation gives the state that it leaves. A panic, and a dereference
-- of NULL, is a result of its own. Machine-width numbers wrap where the code relies on it: a block's
-- count and a process' kernel_time (8 bits), times and message numbers (32 bits). Interrupts are off
-- inside the operations of the kernel, so each is one step.
--
-- Loops over a table are structural recursion on the slots that are left. calc_next_pid has the
-- number of slots as its fuel, which is enough: it ends. The walks over mailboxes, rallies and
-- the block cache take the length of the list as fuel, and a string function the length of its
-- string and one more; the results state these bounds as hypotheses. The loop of msg_receive is
-- modelled by its rounds, since other processes run between them.
--
-- The device behind the block cache (dev_rw of src/fs/device.c) is a parameter, any function of the
-- device's state, which also gives the return value that sets err_code; err_code is kept beside the
-- devices in `Cache`, and what ends a loop or a call when it is set does so here. So are the
-- result of task_create and the addresses that kmalloc returns.
-- What a block holds is stated for a device that keeps what is written to it (`IsStore`).
-- The allocator takes its pages from a parameter, since pg_next_addr does not always give pages that
-- follow each other, and a header may be written anywhere; kmalloc() for the buffers and paths of
-- a system call always has memory. The system calls take the operations of the file system as an
-- interface, `FileServer`, which Service fills. The lists of the timer and the stacks of pages are
-- lists of their entries.
--
-- The results on the uses of inodes leave out open() and execve(), which leave a use behind.
--
-- Not modelled: hardware access (src/driver, and interrupts, segments, tasks and the assembly code
-- of src/kernel), the system calls on processes and signals as messages, and loading a program
-- (do_fs_execve and src/fs/elf.c).
pub mod Base
pub mod Block
pub mod Clock
pub mod Device
pub mod Domino
pub mod Fildes
pub mod Inode
pub mod Kill
pub mod Malloc
pub mod Message
pub mod Paging
pub mod Path
pub mod Perm
pub mod Process
pub mod Ring
pub mod Server
pub mod Service
pub mod Signal
pub mod Str
pub mod Super
pub mod Syscall
pub mod Timer
