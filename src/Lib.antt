-- ===== src/Lib.antt =====
-- Two programs: a teaching kernel for RISC-V with a priority scheduler and with pages shared until they
-- are written (initial-xv6/src/kernel), with its user programs (initial-xv6/src/user), and two simulations
-- with threads (concurrency/1.c and 2.c).
--
-- Of the kernel:
--   Spinlock     kernel/spinlock.c: acquire, release, push_off and pop_off on one lock and one CPU.
--   Sleeplock    kernel/sleeplock.c: one sleep lock, with the processes at it as a step relation.
--   Kalloc       kernel/kalloc.c: the free list, the reference counts and the bytes of memory.
--   Vm           kernel/vm.c and kernel/trap.c: uvmcopy, uvmunmap, cowHandler, over Kalloc; and in
--                Vm.Walk the page tables in memory: walk, walkaddr and mappages.
--   Log          kernel/log.c: the space of the log, log_write, commit and recovery. A commit is the list
--                of the writes that it makes, so that a crash is a prefix of the list.
--   Bio          kernel/bio.c: the cache of blocks in the order of their use. Bio.Views is the abstract disk
--                that the cache and the disk present together.
--   Fs           kernel/fs.c on such a disk, whose blocks are bytes: Fs.Layout and Fs.Bytes for the format,
--                Fs.Bitmap (balloc, bfree), Fs.Inode (ilock, iupdate, ialloc, iget), Fs.Content (bmap,
--                itrunc, iput), Fs.Transfer (readi, writei), Fs.Directory, Fs.Path (skipelem, namex).
--   File         kernel/file.c and the descriptors of kernel/sysfile.c.
--   Pipe         kernel/pipe.c; Console kernel/console.c; Str kernel/string.c.
--   Proc.Types   kernel/proc.h. A process is named by its index in the table.
--   Proc.Env     what kernel/proc.c calls in other files, as a record of functions on a state of theirs;
--                the theorems hold for every such record.
--   Proc.Life, Proc.Fork, Proc.Exit, Proc.Wait, Proc.Sleep
--                kernel/proc.c: allocproc and freeproc, fork, exit, wait and waitx, sleep, wakeup and kill.
--   Proc.Priority, Proc.Scheduler, Proc.SetPriority
--                kernel/proc.c: calculate_RBI, a round of scheduler, set_priority.
--   Proc.Race    the same scheduler as steps of several CPUs.
-- Of the user programs: User.Grep is the matcher of user/grep.c, with what a pattern means in
-- User.Grep.Meaning; User.Number is printint of printf.c and atoi of ulib.c; User.Shell is the
-- parser of user/sh.c, on fuel of the length of the text plus one for each loop (User.Shell.Ends shows
-- that it is enough); User.Shell.Blocks has the text of a command.
-- Of the simulations: Concurrency.Cafe is 1.c, Concurrency.Parlor and Concurrency.Parlor.Machines are 2.c;
-- their threads are relations between states, with a step for each locked section and each semaphore call.
--
-- A definition is one stretch of code under one lock, or the code up to the next sleep; a call of sleep
-- is a result of its own. A panic is the result `none`, or a constructor of its own. `uint` counters wrap at
-- 2 ^ 32. Loops are recursion on the list they go through; where a number bounds the rounds it is
-- the length of the table (reparent), the pages that fit below the end (freerange), the size of the
-- buffer (Console.kill_line; Console.Line shows that it is enough), the blocks of the bitmap (balloc), the
-- bytes to move (readi and writei, which move one at least in a round), the entries of a directory
-- (dirlookup), or the bytes of a path (namex; Fs.Path.Walk shows that it is enough).
--
-- Not modelled: the hardware (uart.c, virtio_disk.c, plic.c, start.c, assembly), messages, most system
-- calls, and the user programs that are made of system calls. The file system runs in one process, in
-- transactions that fit in the log. Copies to and from user memory are functions that say how many bytes
-- get through. For uvmcopy and cowHandler a page table is a function without the pages that hold it, and
-- whether mappages finds such pages is a parameter; Vm.Walk has those pages.
pub mod Common
pub mod Str
pub mod Spinlock
pub mod Sleeplock
pub mod Kalloc
pub mod Vm
pub mod Pipe
pub mod Log
pub mod Bio
pub mod Fs
pub mod File
pub mod Console
pub mod Proc
pub mod Concurrency
pub mod User
mod Tests
