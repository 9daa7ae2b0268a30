-- ===== src/Lib.antt =====
-- Models and proofs for the C library in clib/.
--
-- Each C file has a module, and the functions keep their names in snake case. C code that can run
-- into undefined behaviour or a failed assertion returns `Run` (Common/Outcome): a value, or the
-- first fault. Integers keep their width: Common/Bits and Common/Cint have the wrap-around of
-- unsigned numbers and the faults of int.
--
-- - Hash: clib/hash.c, dictCreate, dictAdd, dictDel and dictGet over chains of int keys and values.
--   A chain of entries is a list; malloc is a parameter. Hash/Loops reads the loops as the
--   operations on chains of Buckets, Hash/Valid has the invariant, Hash/Ops the operations one by
--   one, Hash/Refine sequences of them, Hash/Tests `main`.
-- - HashInterface: clib/hash_interface.c, the same over the callbacks of a dictType, with the
--   counter MemTotal of the memory in use and slots that memset has not cleared. HashInterface/Types
--   has the callbacks of the file and the hash function, Power `_dictNextPower`, Create and Destroy
--   the ends of a dictionary's life, Session a whole life, Tests `test_int`, StringTests
--   `test_string`. privdata is left out, since no callback reads it.
-- - Buckets: the theory of a table of chains that both dictionaries use. What a key leads to is the
--   first entry of its chain with an equal key, and every entry stands in the chain of its key.
-- - Kfifo: clib/kfifo.c, nextPowerOfTwo, kfifo_init, kfifo_put and kfifo_get with 32-bit indices
--   that wrap, and memcpy with both ranges checked. Refine is about sequences of calls of one caller.
--   Shared has one thread that puts and one that gets with no lock: the start of a call, which reads
--   the indices, each byte of its two memcpys, and the write of its index are single steps, which
--   the barriers keep in order. Interleaved, Puts and Gets have the invariant and the steps, Lockfree
--   what follows; `sent` and `received` are logs.
-- - IntrusiveList: clib/list.h, with a memory of prev and next pointers and one store for each
--   assignment of the source.
-- - Cond: clib/cond.h, the counter of wakeups.
-- - ThreadQueue: clib/thread_queue.c over the two. The sections under the spin lock, those under
--   the mutex, and the call of a task's function are the steps, and any number of threads that push
--   interleave with the worker. Mutual exclusion, and that pthread_cond_signal wakes the one sleeping
--   thread, are what pthreads promises and are built into the steps; spurious wakeups are steps too.
--   `pushed` and `executed` are logs, which the code does not read. Leaves is about the last loop of
--   main.
-- - SemSync: clib/pthread_sem_sync.c, do_print and one round of sync_print. A semaphore call and a
--   printf are single steps of the four threads, in any order. A round starts after its sem_post:
--   until then every thread waits on a semaphore at 0.
-- - PthreadCond: the part of clib/pthread_lock_cond_sem.c on condition variables, pthread_cond with
--   its two threads. The sections under the mutex are the steps.
-- - PthreadLocks: its other parts, the counters under a read-write lock (Rwlock), under a spin lock
--   (Spinlock) and by a semaphore (Semaphore). The locks are parameters, records of the calls with
--   what POSIX says of them. A call, and each of the read and the write of cnt++, is a step of one
--   thread, in any order, so that mutual exclusion is not built into them; atomic_inc is one
--   step. The numbers of threads and of rounds are parameters, THREAD_NUM and TEST_CASE_NUM in the
--   source. Reach counts the steps that succeed; a call that blocks is none. Count has the
--   invariants, Progress what follows for the end. Common/Family has the sums over threads.
-- - Epoll: clib/epoll_multi_instance.c, with the results of the system calls as arguments, so that
--   each function runs on any of them. `main_start` is main up to its loop, `main_event` and
--   `accept_one` what it does with an event and with a connection, `epoll_do_create` and
--   `read_event` what the thread of an instance does at its start and with an event. Step puts them
--   together, one read or one accept at a time. What is registered with the instances and which
--   connections are open belong to the kernel, and `accepted`, `ended` and `out` are logs. Kernel
--   counts descriptors, Sound, Keeps and Accepts have the invariant and the steps, Life what follows;
--   Spread is about the loop over accept, Events about the tests in the code.
-- - HeapInterface: clib/heap_interface.c, the intrusive heap, with one store for each assignment.
--   The caller's comparison is a parameter. Tree and Place are binary trees and the places in them,
--   Sift says what the adjustments make of a tree, Complete numbers the nodes level by level, and
--   Order is the heap order. Links, Turn, Raise, Climb, Up, Lower, Fall and Down are about
--   heapAdjustUp and heapAdjustDown, Walk about heapGetOffset and the ways down to a node by its
--   number, Attach, Add and Insert about heapAdd, Succeed, Get, Reach and Take about heapGet,
--   Destroy about heapDestruct and Drain about the life of a heap. Refine compares sequences of
--   calls with a priority queue. Valid says what holds between calls, and MainTests runs `main`,
--   with the length of the keys for a parameter.
-- - Heap: clib/heap.c, the heap of ints, over HeapInterface with the comparison of values. Order has
--   its two comparisons, Ops heapAdd and heapGet, Tests `pre_traverse` and `main`.
--
-- Bounds and fuel: a heap counts its nodes in an int, so no path in it is longer than 31 nodes,
-- and its loops run on fuel 32; the loop of `heapGetOffset` has 31 rounds at most;
-- `_dictNextPower` runs on fuel 62, as doubling from 4 passes LONG_MAX in 61 rounds;
-- a list traversal needs fuel above the length of the list; `work_alone` needs as many steps as
-- `remaining` counts. Counters that could overflow have the bound as a hypothesis.
--
-- Not modelled: the demonstration clib/array_and_string.c, which keeps no state; the macros of
-- clib/util.h that compute addresses; cond_construct, cond_destruct and cond_destroy of clib/cond.h,
-- which only call the libraries; the part of main in clib/thread_queue.c that starts and joins
-- threads; what is printed, and the creation and joining of threads; the Go programs and the notes.

pub mod Common
pub mod Buckets
pub mod Hash
pub mod Kfifo
pub mod HashInterface
pub mod IntrusiveList
pub mod Cond
pub mod ThreadQueue
pub mod SemSync
pub mod PthreadCond
pub mod HeapInterface
pub mod Heap
pub mod PthreadLocks
pub mod Epoll
