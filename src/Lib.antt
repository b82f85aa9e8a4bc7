-- ===== src/Lib.antt =====
-- A model of the core of LearnOS (SupremeOS), a kernel for RISC-V that grew out of xv6, with the
-- theorems that make its parts correct.
--
-- The program's parts. The kernel's memory comes in pages. kernel/kalloc.c keeps the free pages in
-- a buddy allocator: free lists of blocks of 2^order pages, linked through the blocks themselves,
-- and a bitmap with one bit for each block of each order. On top of it kalloc and kfree hand out
-- single pages with a reference count each, as copy on write needs. kernel/kmalloc.c serves
-- requests in bytes, from slab caches up to 2048 bytes and from the buddy allocator above.
-- kernel/string.c moves and compares bytes for all of them. A pipe (kernel/pipe.c) is a ring of 512
-- bytes between processes. The IPC objects (shared memory, semaphores, message queues) stand in
-- tables that are searched by key, by the macros of kernel/ipc_hash.h. Processes (kernel/proc.c)
-- are created by fork, end in exit and are reaped by wait; the scheduler runs them from multi-level
-- queues. Under all of this lie the spinlocks (kernel/spinlock.c) and the sleeplocks
-- (kernel/sleeplock.c), and under the file system (kernel/fs.c) the buffer cache (kernel/bio.c) and
-- the log (kernel/log.c), which makes a group of writes to the disk atomic. The page tables
-- (kernel/vm.c) say which page a process sees at an address.
--
-- Which file models which part:
--   Base              what the parts share: tests on numbers as Booleans, lists over the native numbers, a
--                     conditional, the store update, and the monad of code that may panic (`none` is a panic)
--   Bcache            binit, bget, brelse, bpin and bunpin of kernel/bio.c; Ring and Links are about the list through
--                     prev and next, Init what binit builds, Get and Release what bget and brelse do
--   Buddy/Layout      the constants of kernel/memlayout.h and kernel/riscv.h, pa_to_pnum and pnum_to_pa; the
--                     addresses that the linker chooses are the parameter `Linker`
--   Buddy/Bitmap      buddy_bitmap_offset, buddy_setbitmap, buddy_getbitmap, buddy_init_bitmap; its children
--                     hold the arithmetic of bytes and bits and show that two blocks never share a bit
--   Buddy/FreeList    buddy_getfirst, buddy_insertfirst, buddy_erasefirst, buddy_erase on a store that maps an
--                     address to the pointers next and prev of the struct run there; Chain, Represents and
--                     Separate say when the store holds a list of blocks, and Ops that each operation acts on
--                     that list as on a list
--   Buddy/Alloc       buddy_alloc and buddy_free; Blocks has the arithmetic of buddies, Sound the invariant
--   Buddy/Init        buddy_init and buddy_init_freelist
--   Pages             kalloc, kfree, krefcnt, kaddrefcnt; Correct is about one call, References about calls
--                     that add references and drop them again
--   Kmalloc           the choice of a pool by kmalloc and kmfree
--   String            kernel/string.c, on memory as a function from addresses to bytes
--   Paths             skipelem and namex of kernel/fs.c, over parameters for the inodes; Components has the names
--                     of a path and the walk through them
--   Pipe              pipewrite, piperead and pipeclose of kernel/pipe.c; Ring has the ring buffer as a list of
--                     bytes, Stream the writer and Drain the reader; a call that sleeps ends there, with
--                     what it has done so far, and a writer that is woken runs the rest of its loop
--   Ipc               HASH_FUNC and AT_FUNC, and the states of a slot; Ipc/Shm has shmget, shmctl and shm_reinit
--                     of kernel/shm.c over an interface `Allocator` for kmalloc and kmfree
--   Vm                walk, walkaddr, mappages and uvmunmap of kernel/vm.c on a memory of 64-bit words, over an
--                     interface `PageAllocator`, whose kalloc may fault and whose kfree may panic; Words has the arithmetic, Tables says when memory holds a page
--                     table, Grow and Walk that new pages of the table change no entry, Leaf what writing one
--                     entry does, Map, Unmap and Undo what the operations do, and Freed
--                     the calls of kfree
--   Log               kernel/log.c on a cache of blocks, with the writes to the disk as a list: install_trans,
--                     write_log, write_head, read_head, recover_from_log, commit, begin_op, end_op, log_write;
--                     Install has the loops, Phases what the disk is before, during and after a commit, Recover
--                     the crashes, Reserve the sessions of operations
--   Chain             singly linked lists of nodes in memory, for every kind of node: Append puts a node behind the
--                     last one, Unlink takes one out, Find is about the first node that passes a test,
--                     Family about lists that share no node
--   Msg               msgsnd and msgrcv of kernel/msg.c; Queues says when the nodes in memory form the queues, Send
--                     and Receive what the two calls do to them
--   Semaphore         semop of kernel/semaphore.c on one set of semaphores; Signal is about the loop that wakes
--                     processes, Operation about every kind of operation
--   Spinlock          kernel/spinlock.c: push_off and pop_off, holding, and acquire and release as steps of CPUs
--                     in any order; Nesting is about one CPU, Invariant and Exclusion about all
--   Sleeplock         kernel/sleeplock.c on top of sleep and wakeup of Proc; Wakeup is about who sleeps on a
--                     lock, Exclusion about the steps of all processes
--   Files             filealloc, filedup and fileclose of kernel/file.c; Counts and References are about the number
--                     of references to a file
--   Grep              the matcher of user/grep.c; Language says what a pattern means, Matcher that match decides it
--   Proc              kernel/proc.c: wakeup, kill, sleep, setkilled, update_proc; Life has allocproc, freeproc, fork,
--                     exit, wait, yield and the scheduler's choice, over an interface `Queues`; Tree has the
--                     invariant of the family of processes, Reach the steps in any order
--   Proc/Mlfq         initMlfq, insertMlfq, insertNextMlfqTail and removeMlfq on nodes in memory; Nodes says when the
--                     nodes form the queues, Insert and Levels what the two insertions do to them, and Remove what
--                     removeMlfq does
--
-- How the state is modelled. A pointer is its address, a number, and NULL is 0. The store of the
-- free lists is a pair of functions from addresses, so that two lists may share a location in the
-- model as in memory. A reference count wraps at 2^32. An operation that panics, or that touches
-- memory where nothing is mapped, has the result `none`.
--
-- Bounds and fuel. The loops of buddy_alloc and buddy_free go up or down by one order at a time,
-- and take their number of rounds from MAX_ORDER; the last round of each ends by the loop's own
-- test. buddy_init's third loop is given as many rounds as there are pages. The loop of kmalloc
-- over the orders has 32 rounds, since 1U << 32 is undefined; a request of at most 2^43 bytes ends
-- earlier. AT_FUNC has as many rounds as the table has slots. The loops of the log have as many
-- rounds as its header has blocks, and those over the process table NPROC = 64. The loop of
-- removeMlfq has as many rounds as it is given, one for each node of the queue. The loop of namex
-- needs more rounds than the path has bytes. The loops of bget need one round more than there are
-- buffers. The loops of msgrcv and of semop need one round for each node of the queue, and one
-- more. A semaphore's value is not negative and does not overflow, and a number of a message queue
-- is not negative. A spinning CPU takes one step for each round of its loop.
--
-- What is not modelled. Locks outside Spinlock and Sleeplock: each operation runs as one step,
-- which is what the lock of the allocator gives; AT_FUNC releases a slot's lock between its steps,
-- and is modelled without another process between them; fork, exit and wait are steps up to their
-- call of sched or sleep. copyin, copyout, uvmcopy, memory that runs out and whether the process
-- was killed are parameters. What the memory, the files and the IPC blocks of a process are, vfork,
-- the pins of buffers by the log. The contents of pages beyond the two words that the free lists
-- use. shmat and shmdt, the creation and removal of semaphore sets and message queues, the slab
-- caches, the data in the buffer cache, the files, devices and the other user programs are not
-- modelled.
pub mod Base
pub mod Bcache
pub mod Buddy
pub mod Pages
pub mod Kmalloc
pub mod Ipc
pub mod String
pub mod Paths
pub mod Pipe
pub mod Log
pub mod Msg
pub mod Spinlock
pub mod Proc
pub mod Grep
pub mod Semaphore
pub mod Sleeplock
pub mod Files
pub mod Vm
pub mod Chain
